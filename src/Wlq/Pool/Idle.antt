-- ===== src/Wlq/Pool/Idle.antt =====
-- The search for an idle worker, and the number of idle workers.
use mathlib.Core.Path.{ap₂}
use elastic_ppq.Common.{
  ℕ, zero, suc, ◌+◌, ◌-◌, ◌≤◌, ◌<◌, ◌≡◌, ◌≢◌, refl, ap, inl, inr, ◌⊎◌, Bool, true, false, ◌&&◌,
  List, [], ◌∷◌, Option, none, some, arith, ℕ_discrete, get_or, set, and_then, Bool-cases,
}
use elastic_ppq.Wlq.Pool.{
  Pool, is_idle, find_idle, count_idle, or_else, select_idle_worker, get_num_idle_workers, send_to,
}

-- A search finds an idle worker in its range, or the count of the range is 0.
find_idle_lem :
    (idle : ℕ → Bool) (i n : ℕ)
    → ((find_idle idle i n ≡ none) × (count_idle idle i n ≡ 0))
      ⊎ ((k : ℕ) × (find_idle idle i n ≡ some k) × (idle k ≡ true) × (i ≤ k) × (k < i + n))
unfolding find_idle count_idle
find_idle_lem idle i zero = inl (refl, refl)
find_idle_lem idle i (suc n) = elim (Bool-cases (idle i)) [
  | inl h ↦ inr (i, rw h refl, h, omega arith, omega arith)
  | inr h ↦ elim (find_idle_lem idle (i + 1) n) [
    | inl (e, c) ↦ inl (rw h e, rw h c)
    | inr (k, e, t, le, lt) ↦ inr (k, rw h e, t, omega (arith, le), omega (arith, lt))
  ]
]

count_idle-append :
    (idle : ℕ → Bool) (i m n k t : ℕ)
    → k ≡ i + m
    → t ≡ m + n
    → count_idle idle i t ≡ count_idle idle i m + count_idle idle k n
unfolding count_idle
count_idle-append idle i zero n k t e f =
    let same : count_idle idle i t ≡ count_idle idle k n =
      ap₂ (count_idle idle) (omega (arith, e)) (omega (arith, f)) in
    omega (arith, same)
count_idle-append idle i (suc m) n k zero e f = absurd (omega (arith, f))
count_idle-append idle i (suc m) n k (suc t) e f =
    ground (arith, count_idle-append idle (i + 1) m n k t (omega (arith, e)) (omega (arith, f)))

count_idle-same :
    (idle idle' : ℕ → Bool) (i n : ℕ)
    → ((j : ℕ) → i ≤ j → idle' j ≡ idle j)
    → count_idle idle i n ≡ count_idle idle' i n
unfolding count_idle
count_idle-same idle idle' i zero h = refl
count_idle-same idle idle' i (suc n) h = ground (
  arith,
  h i (omega arith),
  count_idle-same idle idle' (i + 1) n (λ j le. h j (omega (arith, le))),
)

-- One worker fewer is idle when one of the range stops to be.
count_idle-less :
    (idle idle' : ℕ → Bool) (w i n : ℕ)
    → idle w ≡ true
    → idle' w ≡ false
    → ((j : ℕ) → j ≢ w → idle' j ≡ idle j)
    → i ≤ w
    → w < i + n
    → count_idle idle i n ≡ count_idle idle' i n + 1
unfolding count_idle
count_idle-less idle idle' w i zero t f same le lt = absurd (omega (arith, le, lt))
count_idle-less idle idle' w i (suc n) t f same le lt = elim (ℕ_discrete i w) [
  | yes e ↦
      let rest =
        count_idle-same idle idle' (i + 1) n (λ j ge. same j (λ q. omega (arith, q, ge, e))) in
      ground (arith, rest, ap idle e, ap idle' e, t, f)
  | no ne ↦
      let rest =
        count_idle-less idle idle' w (i + 1) n t f same (omega (arith, le, ne))
          (omega (arith, lt)) in
      ground (arith, rest, same i ne)
]

get_or-set_same : (l : List Bool) (i : ℕ) → get_or (set l i false) i false ≡ false
get_or-set_same [] i = refl
get_or-set_same (a ∷ l) zero = refl
get_or-set_same (a ∷ l) (suc i) = get_or-set_same l i

get_or-set_other :
    (l : List Bool) (i j : ℕ) (a : Bool) → j ≢ i → get_or (set l i a) j false ≡ get_or l j false
get_or-set_other [] i j a ne = refl
get_or-set_other (c ∷ l) zero zero a ne = absurd (ne refl)
get_or-set_other (c ∷ l) zero (suc j) a ne = refl
get_or-set_other (c ∷ l) (suc i) zero a ne = refl
get_or-set_other (c ∷ l) (suc i) (suc j) a ne = get_or-set_other l i j a (λ e. ne (ap suc e))

-- The worker that a search finds.
pub record Selected (num : ℕ) (p : Pool) (i : ℕ) : Type 0 where
  pub chosen : select_idle_worker num p ≡ some (record p { last_w = i }, i)
  pub idle : is_idle p i ≡ true
  pub in_range : i < num

-- Among num workers, with the last one used among them: the emitter finds a worker exactly if one is
-- idle, and the one it finds is idle.
pub select_idle_worker_lem :
    (num : ℕ) (p : Pool)
    → p.last_w < num
    → ((select_idle_worker num p ≡ none) × (get_num_idle_workers num p ≡ 0))
      ⊎ ((i : ℕ) × Selected num p i)
unfolding select_idle_worker get_num_idle_workers
select_idle_worker_lem num p h =
    let n : ℕ = num - (p.last_w + 1) in
    let count =
      count_idle-append (is_idle p) 0 (p.last_w + 1) n (p.last_w + 1) num (omega arith)
        (omega (arith, h)) in
    let pick : Option ℕ → Option (Pool × ℕ) =
      λ o. and_then o (λ i. some (record p { last_w = i }, i)) in
    elim (find_idle_lem (is_idle p) (p.last_w + 1) n) [
      | inr (k, e, t, le, lt) ↦ inr (
        k,
        record {
          chosen = ap (λ o. pick (or_else o (find_idle (is_idle p) 0 (p.last_w + 1)))) e;
          idle = t;
          in_range = omega (arith, lt, h);
        },
      )
      | inl (e, c) ↦ elim (find_idle_lem (is_idle p) 0 (p.last_w + 1)) [
        | inr (k, e', t, le, lt) ↦ inr (
          k,
          record {
            chosen = ap₂ (λ o o'. pick (or_else o o')) e e';
            idle = t;
            in_range = omega (arith, lt, h);
          },
        )
        | inl (e', c') ↦ inl (ap₂ (λ o o'. pick (or_else o o')) e e', omega (arith, count, c, c'))
      ]
    ]

pub send_to-count :
    (num : ℕ) (p : Pool) (i : ℕ)
    → is_idle p i ≡ true
    → i < num
    → get_num_idle_workers num p
      ≡ get_num_idle_workers num (send_to (record p { last_w = i }) i) + 1
unfolding get_num_idle_workers send_to is_idle
send_to-count num p i t lt =
    count_idle-less (is_idle p) _ i 0 num t (ground (arith, get_or-set_same p.worker_ready i))
      (λ j ne.
        ap (λ c. get_or p.activated_worker j false && c)
          (get_or-set_other p.worker_ready i j false ne))
      (omega arith) (omega (arith, lt))
