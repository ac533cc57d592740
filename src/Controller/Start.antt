-- ===== src/Controller/Start.antt =====
-- The pool that the controller starts with, and the workers that the emitters start with.
use native.Mathlib.Nat.{div_self}
use elastic_ppq.Common.{
  ℕ, zero, suc, ◌+◌, ◌-◌, ◌/◌, ◌≤◌, ◌<◌, ◌≡◌, refl, sym, ap, ◌∙◌, inl, inr, Bool, true, false, List,
  [], ◌++◌, arith, min, get_or, length, length-append, length-replicate, replicate, get_or_behind,
  ltb, leb, Bool-cases, if◌then◌else◌,
}
use elastic_ppq.Plq.Sched.{first_activated}
use elastic_ppq.Wlq.Pool.{last_activated}
use elastic_ppq.Controller.{
  Owner, Resource, Machine, first_owner, create_row, create_rows, create_pool, same_owner, owner_of,
  Controller,
}
use elastic_ppq.Controller.Owners.{owned, count_below, count_below-same}
use elastic_ppq.Controller.Steps.{IsAgreed}

owner-create_row :
    (m : Machine) (p w i j n count : ℕ) (rest : List Resource) (k : ℕ)
    → k < n
    → owner_of (create_row m p w i j n count ++ rest) k ≡ first_owner m p w (count + k)
unfolding create_row
owner-create_row m p w i j zero count rest k lt = absurd (omega (arith, lt))
owner-create_row m p w i j (suc n) count rest zero lt = ap (first_owner m p w) (omega arith)
owner-create_row m p w i j (suc n) count rest (suc k) lt =
    owner-create_row m p w i (j + 1) n (count + 1) rest k (omega (arith, lt))
    ∙ ap (first_owner m p w) (omega arith)

length-create_row : (m : Machine) (p w i j n count : ℕ) → length (create_row m p w i j n count) ≡ n
unfolding create_row
length-create_row m p w i j zero count = refl
length-create_row m p w i j (suc n) count = ap suc (length-create_row m p w i (j + 1) n (count + 1))

-- With as many threads as cores the second round of the outer loop has nothing left.
create_rows_two :
    (m : Machine) (p w tot : ℕ)
    → min tot m.cores ≡ m.cores
    → tot - m.cores ≡ 0
    → create_rows m p w 0 tot 2 0 ≡ create_row m p w 0 0 m.cores 0 ++ []
unfolding create_rows create_row
create_rows_two m p w tot a b =
    let c : min (tot - min tot m.cores) m.cores ≡ 0 = rw a (rw b (omega arith)) in rw c (rw a refl)

create_pool_lem :
    (m : Machine) (p w : ℕ)
    → 0 < m.cores
    → m.threads ≡ m.cores
    → create_pool m p w ≡ create_row m p w 0 0 m.cores 0 ++ []
unfolding create_pool
create_pool_lem m p w pos e =
    let two : m.threads / m.cores + 1 ≡ 2 =
      ap (λ t. t / m.cores + 1) e ∙ ap (λ q. q + 1) (div_self pos) in
    ap (λ n. create_rows m p w 0 m.threads n 0) two
    ∙ create_rows_two m p w m.threads (omega (arith, e)) (omega (arith, e))

get_or-replicate_one :
    (b k : ℕ) (y : Bool) → get_or (replicate b y) k false ≡ (if ltb k b then y else false)
get_or-replicate_one zero k y = ground arith
get_or-replicate_one (suc b) zero y = ground arith
get_or-replicate_one (suc b) (suc k) y = get_or-replicate_one b k y ∙ ground arith

get_or-replicate :
    (a b k : ℕ) (x y : Bool)
    → get_or (replicate a x ++ replicate b y) k false
      ≡ (if ltb k a then x else if ltb k (a + b) then y else false)
get_or-replicate zero b k x y = get_or-replicate_one b k y ∙ ground arith
get_or-replicate (suc a) b zero x y = ground arith
get_or-replicate (suc a) b (suc k) x y = get_or-replicate a b k x y ∙ ground arith

count_below-prefix : (p n : ℕ) → count_below (λ k. ltb k p) n ≡ (if ltb n p then n else p)
unfolding count_below
count_below-prefix p zero = ground arith
count_below-prefix p (suc n) = ground (arith, count_below-prefix p n)

count_below-suffix : (a n : ℕ) → count_below (λ k. leb a k) n ≡ n - a
unfolding count_below
count_below-suffix a zero = omega arith
count_below-suffix a (suc n) = ground (arith, count_below-suffix a n)

lengths : (a b : ℕ) (x y : Bool) → length (replicate a x ++ replicate b y) ≡ a + b
lengths a b x y =
    length-append (replicate a x) (replicate b y)
    ∙ omega (arith, length-replicate a x, length-replicate b y)

prefix : (a b k : ℕ) → (if ltb k a then true else if ltb k (a + b) then false else false) ≡ ltb k a
prefix a b k = ground arith

suffix :
    (t n w k : ℕ)
    → t ≡ n
    → w ≤ n
    → k < n
    → (if ltb k (t - w) then false else if ltb k (t - w + w) then true else false) ≡ leb (n - w) k
suffix t n w k e le lt = ground (arith, e, le, lt)

beyond :
    (t n w k : ℕ)
    → t ≡ n
    → w ≤ n
    → n ≤ k
    → (if ltb k (t - w) then false else if ltb k (t - w + w) then true else false) ≡ false
beyond t n w k e le ge = ground (arith, e, le, ge)

none-plq : same_owner Owner.no_owner Owner.plq ≡ false
unfolding same_owner
none-plq = refl

none-wlq : same_owner Owner.no_owner Owner.wlq ≡ false
unfolding same_owner
none-wlq = refl

first-plq : (m : Machine) (p w k : ℕ) → same_owner (first_owner m p w k) Owner.plq ≡ ltb k p
unfolding same_owner first_owner
first-plq m p w k = elim (Bool-cases (ltb k p)) [
  | inl h ↦ rw h refl
  | inr h ↦ rw h (elim (Bool-cases (leb (m.cores - w) k)) [ inl g ↦ rw g refl | inr g ↦ rw g refl ])
]

first-wlq :
    (m : Machine) (p w k : ℕ)
    → p + w ≤ m.cores
    → same_owner (first_owner m p w k) Owner.wlq ≡ leb (m.cores - w) k
unfolding same_owner first_owner
first-wlq m p w k le = elim (Bool-cases (ltb k p)) [
  | inl h ↦ rw h (sym (ground (arith, h, le)))
  | inr h ↦ rw h (elim (Bool-cases (leb (m.cores - w) k)) [ inl g ↦ rw g refl | inr g ↦ rw g refl ])
]

abbrev pub start : Machine → ℕ → ℕ → Controller
start m p w = record { nw_plq = p; nw_wlq = w; pool = create_pool m p w; n_reconf = 0 }

-- On a machine that runs as many worker threads as it has cores for them, the controller and the
-- emitters agree at the start, if the two degrees are no more than the cores together.
pub start-IsAgreed :
    (m : Machine) (p w : ℕ)
    → 0 < m.cores
    → m.threads ≡ m.cores
    → p + w ≤ m.cores
    → IsAgreed (start m p w) (first_activated m.threads p) (last_activated m.threads w)
unfolding first_activated last_activated
start-IsAgreed m p w pos e le =
    let n = m.cores in
    let row = create_row m p w 0 0 n 0 in
    let shape = create_pool_lem m p w pos e in
    let size : length (create_pool m p w) ≡ n =
      ap length shape ∙ length-append row [] ∙ omega (arith, length-create_row m p w 0 0 n 0) in
    let owner : (k : ℕ) → k < n → owner_of (create_pool m p w) k ≡ first_owner m p w k = λ k lt.
      ap (λ l. owner_of l k) shape
      ∙ owner-create_row m p w 0 0 n 0 [] k lt
      ∙ ap (first_owner m p w) (omega arith) in
    let is_plq : (k : ℕ) → k < n → owned (create_pool m p w) Owner.plq k ≡ ltb k p =
      λ k lt. ap (λ o. same_owner o Owner.plq) (owner k lt) ∙ first-plq m p w k in
    let is_wlq : (k : ℕ) → k < n → owned (create_pool m p w) Owner.wlq k ≡ leb (n - w) k =
      λ k lt. ap (λ o. same_owner o Owner.wlq) (owner k lt) ∙ first-wlq m p w k le in
    let behind : (o : Owner) (k : ℕ)
        → n ≤ k
        → owned (create_pool m p w) o k ≡ same_owner Owner.no_owner o =
      λ o k ge.
        ap (λ r. same_owner r.owner o)
          (get_or_behind (create_pool m p w) k _ (omega (arith, ge, size))) in
    record {
      plq = record {
        size = lengths p (m.threads - p) true false ∙ omega (arith, e, le, size);
        agreed = λ k. elim (Bool-cases (ltb k n)) [
          | inl h ↦
              get_or-replicate p (m.threads - p) k true false
              ∙ prefix p (m.threads - p) k
              ∙ sym (is_plq k (ground (arith, h)))
          | inr h ↦
              get_or-replicate p (m.threads - p) k true false
              ∙ prefix p (m.threads - p) k
              ∙ ground (arith, h, le)
              ∙ sym (behind Owner.plq k (ground (arith, h)) ∙ none-plq)
        ];
        degree = sym (
            ap (count_below (owned (create_pool m p w) Owner.plq)) size
            ∙ count_below-same (owned (create_pool m p w) Owner.plq) (λ k. ltb k p) n is_plq
            ∙ count_below-prefix p n
            ∙ ground (arith, le));
      };
      wlq = record {
        size = lengths (m.threads - w) w false true ∙ omega (arith, e, le, size);
        agreed = λ k. elim (Bool-cases (ltb k n)) [
          | inl h ↦
              get_or-replicate (m.threads - w) w k false true
              ∙ suffix m.threads n w k e (omega (arith, le)) (ground (arith, h))
              ∙ sym (is_wlq k (ground (arith, h)))
          | inr h ↦
              get_or-replicate (m.threads - w) w k false true
              ∙ beyond m.threads n w k e (omega (arith, le)) (ground (arith, h))
              ∙ sym (behind Owner.wlq k (ground (arith, h)) ∙ none-wlq)
        ];
        degree = sym (
            ap (count_below (owned (create_pool m p w) Owner.wlq)) size
            ∙ count_below-same (owned (create_pool m p w) Owner.wlq) (λ k. leb (n - w) k) n is_wlq
            ∙ count_below-suffix (n - w) n
            ∙ omega (arith, le));
      };
    }
