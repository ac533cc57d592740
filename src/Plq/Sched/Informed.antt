-- ===== src/Plq/Sched/Informed.antt =====
-- Who holds a partition of a pane, and what the messages of a scheduler have told it: the view of the
-- strategies of include/sched_plq.hpp that their proofs share.
use elastic_ppq.Common.{
  ℕ, zero, suc, ◌≤◌, ◌<◌, ◌≡◌, ◌≢◌, refl, sym, ap, ◌∙◌, subst, inl, inr, ◌⊎◌, Bool, true, false,
  ◌&&◌, ◌||◌, List, [], ◌∷◌, ◌++◌, map, arith, ℕ_discrete, ◌==◌, Bool-cases, All, if◌then◌else◌,
  length, get_or,
}
use elastic_ppq.Message.{Tuple, Kind}
use elastic_ppq.Query.TData.{resize}
use elastic_ppq.Plq.Sched.{has}

-- The messages that tell a worker the number of instances of a pane: its tuples, NEW_INST, EMPTYPANE.
unfoldable pub notice : Kind → Bool
notice Kind.regular = true
notice Kind.new_inst = true
notice Kind.emptypane = true
notice _ = false

-- The number of instances of pane p that worker w was told last, n if it was told none.
unfoldable pub heard : {W : Type 0} → ℕ → ℕ → List (ℕ × Tuple W) → ℕ → ℕ
heard w p [] n = n
heard w p ((v, t) ∷ l) n =
    heard w p l (if (v == w) && ((t.pane_id == p) && notice t.kind) then t.no_instances else n)

-- What the theorems read of a scheduler: the first pane that is not closed, the activated workers, and
-- of each pane the number of instances and the workers that hold a partition.
pub record View : Type 0 where
  pub next : ℕ
  pub active : ℕ → Bool
  pub inst : ℕ → ℕ
  pub holders : ℕ → List ℕ

-- Each holder of an open pane was told last how many instances the pane has.
pub record IsTold {W : Type 0} (v : View) (hist : List (ℕ × Tuple W)) : Type 0 where
  pub told : (p w : ℕ) → v.next ≤ p → has w (v.holders p) ≡ true → heard w p hist 0 ≡ v.inst p

-- The holders of the open panes below i are activated.
pub record IsHeld (v : View) (i : ℕ) : Type 0 where
  pub held : (p w : ℕ) → v.next ≤ p → p < i → has w (v.holders p) ≡ true → v.active w ≡ true

pub has-append :
    (x : ℕ) (xs ys : List ℕ) → has x (xs ++ ys) ≡ true → (has x xs ≡ true) ⊎ (has x ys ≡ true)
unfolding has
has-append x [] ys h = inr h
has-append x (y ∷ xs) ys h = elim (Bool-cases (y == x)) [
  | inl e ↦ inl (rw e refl)
  | inr e ↦ let h' : has x (xs ++ ys) ≡ true = rw e at h in rw e (has-append x xs ys h')
]

pub has-singleton : (x y : ℕ) → has x (y ∷ []) ≡ true → x ≡ y
unfolding has
has-singleton x y h = ground (arith, h)

pub has_self : (x : ℕ) → has x (x ∷ []) ≡ true
unfolding has
has_self x = ground arith

pub has_last : (x : ℕ) (xs : List ℕ) → has x (xs ++ (x ∷ [])) ≡ true
unfolding has
has_last x [] = ground arith
has_last x (y ∷ xs) = ground (arith, has_last x xs)

pub get_or-resize_grow {ℓ} :
    {A : Type ℓ} (n : ℕ) (z : A) (xs : List A) (j : ℕ)
    → length xs ≤ n
    → get_or (resize n z xs) j z ≡ get_or xs j z
unfolding resize
get_or-resize_grow zero z [] j le = refl
get_or-resize_grow zero z (x ∷ xs) j le = absurd (omega (arith, le))
get_or-resize_grow (suc n) z [] zero le = refl
get_or-resize_grow (suc n) z [] (suc j) le = get_or-resize_grow n z [] j (omega arith)
get_or-resize_grow (suc n) z (x ∷ xs) zero le = refl
get_or-resize_grow (suc n) z (x ∷ xs) (suc j) le = get_or-resize_grow n z xs j (omega (arith, le))

pub length-resize {ℓ} : {A : Type ℓ} (n : ℕ) (z : A) (xs : List A) → length (resize n z xs) ≡ n
unfolding resize
length-resize zero z xs = refl
length-resize (suc n) z [] = ap suc (length-resize n z [])
length-resize (suc n) z (x ∷ xs) = ap suc (length-resize n z xs)

module _ {W : Type 0} where
  pub heard-append :
      (w p : ℕ) (xs ys : List (ℕ × Tuple W)) (n : ℕ)
      → heard w p (xs ++ ys) n ≡ heard w p ys (heard w p xs n)
  unfolding heard
  heard-append w p [] ys n = refl
  heard-append w p ((v, t) ∷ xs) ys n = heard-append w p xs ys _

  pub heard-silent :
      (w p : ℕ) (l : List (ℕ × Tuple W)) (n : ℕ)
      → All (λ m. notice m.1.kind ≡ false) l
      → heard w p l n ≡ n
  unfolding heard
  heard-silent w p [] n a = refl
  heard-silent w p ((v, t) ∷ l) n (e, a) = heard-silent w p l _ a ∙ ground (arith, e)

  -- A multicast about pane p that carries k.
  heard-cast :
      (w p k : ℕ) (u : Tuple W) (ws : List ℕ) (n : ℕ)
      → u.pane_id ≡ p
      → u.no_instances ≡ k
      → notice u.kind ≡ true
      → (has w ws ≡ true) ⊎ (n ≡ k)
      → heard w p (map (λ x. (x, u)) ws) n ≡ k
  unfolding heard has
  heard-cast w p k u [] n a b c (inl h) = cc
  heard-cast w p k u [] n a b c (inr h) = h
  heard-cast w p k u (x ∷ ws) n a b c h = heard-cast w p k u ws _ a b c (step h)
    where
      step :
          ((x == w) || has w ws ≡ true) ⊎ (n ≡ k)
          → (has w ws ≡ true)
            ⊎ ((if (x == w) && ((u.pane_id == p) && notice u.kind) then u.no_instances else n) ≡ k)
      step h = elim (Bool-cases (x == w)) [
        | inl e ↦ inr (ground (arith, e, a, b, c))
        | inr e ↦ elim h [ inl g ↦ inl (rw e at g) | inr g ↦ inr (rw e g) ]
      ]

  heard_other :
      (w p q : ℕ) (u : Tuple W) (ws : List ℕ) (n : ℕ)
      → u.pane_id ≡ p
      → q ≢ p
      → heard w q (map (λ x. (x, u)) ws) n ≡ n
  unfolding heard
  heard_other w p q u [] n a ne = refl
  heard_other w p q u (x ∷ ws) n a ne = heard_other w p q u ws _ a ne ∙ ground (arith, a, ne)

  -- Messages that tell nothing, where holders may get fewer.
  pub IsTold-silent :
      {v v' : View} {hist : List (ℕ × Tuple W)} (l : List (ℕ × Tuple W))
      → IsTold v hist
      → v.next ≤ v'.next
      → ((p : ℕ) → v'.next ≤ p → v'.inst p ≡ v.inst p)
      → ((p w : ℕ) → v'.next ≤ p → has w (v'.holders p) ≡ true → has w (v.holders p) ≡ true)
      → All (λ m. notice m.1.kind ≡ false) l
      → IsTold v' (hist ++ l)
  IsTold-silent {v} {v'} {hist} l t le same fewer a = record {
    told = λ p w ge h.
        heard-append w p hist l 0
        ∙ heard-silent w p l (heard w p hist 0) a
        ∙ t.told p w (omega (arith, le, ge)) (fewer p w ge h)
        ∙ sym (same p ge);
  }

  -- A multicast of the number of instances of pane p to workers among which all its holders are.
  pub IsTold-cast :
      {v v' : View} {hist : List (ℕ × Tuple W)} (p : ℕ) (u : Tuple W) (ws : List ℕ)
      → IsTold v hist
      → v.next ≤ v'.next
      → u.pane_id ≡ p
      → u.no_instances ≡ v'.inst p
      → notice u.kind ≡ true
      → ((q : ℕ) → q ≢ p → v'.inst q ≡ v.inst q)
      → ((q w : ℕ) → v'.next ≤ q → q ≢ p → has w (v'.holders q) ≡ true → has w (v.holders q) ≡ true)
      → ((w : ℕ)
          → has w (v'.holders p) ≡ true
          → (has w ws ≡ true) ⊎ ((has w (v.holders p) ≡ true) × (v'.inst p ≡ v.inst p)))
      → IsTold v' (hist ++ map (λ x. (x, u)) ws)
  IsTold-cast {v} {v'} {hist} p u ws t le a b c same fewer here = record {
    told = λ q w ge h. elim (ℕ_discrete q p) [
      | yes e ↦
          subst (λ r. heard w r (hist ++ map (λ x. (x, u)) ws) 0 ≡ v'.inst r) (sym e)
            (heard-append w p hist (map (λ x. (x, u)) ws) 0
              ∙ heard-cast w p (v'.inst p) u ws (heard w p hist 0) a b c
                  (elim (here w (subst (λ r. has w (v'.holders r) ≡ true) e h)) [
                    | inl k ↦ inl k
                    | inr (k, i) ↦ inr (t.told p w (omega (arith, le, ge, e)) k ∙ sym i)
                  ]))
      | no ne ↦
          heard-append w q hist (map (λ x. (x, u)) ws) 0
          ∙ heard_other w p q u ws (heard w q hist 0) a ne
          ∙ t.told q w (omega (arith, le, ge)) (fewer q w ge ne h)
          ∙ sym (same q ne)
    ];
  }

  -- A multicast to the workers that hold pane p, and then a message to a worker w that holds it.
  pub IsTold-join :
      {v v' : View} {hist : List (ℕ × Tuple W)} (p w : ℕ) (u t : Tuple W) (ws : List ℕ)
      → IsTold v hist
      → v.next ≤ v'.next
      → u.pane_id ≡ p
      → u.no_instances ≡ v'.inst p
      → notice u.kind ≡ true
      → t.pane_id ≡ p
      → t.no_instances ≡ v'.inst p
      → notice t.kind ≡ true
      → ((q : ℕ) → q ≢ p → v'.inst q ≡ v.inst q)
      → ((q x : ℕ) → v'.next ≤ q → q ≢ p → has x (v'.holders q) ≡ true → has x (v.holders q) ≡ true)
      → ((x : ℕ)
          → has x (v'.holders p) ≡ true
          → (has x ws ≡ true) ⊎ ((x ≡ w) ⊎ ((has x (v.holders p) ≡ true) × (v'.inst p ≡ v.inst p))))
      → IsTold v' (hist ++ (map (λ x. (x, u)) ws ++ ((w, t) ∷ [])))
  IsTold-join {v} {v'} {hist} p w u t ws h le a b c a' b' c' same fewer here =
      let l : List (ℕ × Tuple W) = map (λ x. (x, u)) ws in
      let last : List (ℕ × Tuple W) = (w, t) ∷ [] in
      let split : (x q : ℕ)
          → heard x q (hist ++ (l ++ last)) 0 ≡ heard x q last (heard x q l (heard x q hist 0)) =
        λ x q. heard-append x q hist (l ++ last) 0 ∙ heard-append x q l last (heard x q hist 0) in
      record {
        told = λ q x ge g. elim (ℕ_discrete q p) [
          | yes e ↦
              let at : (has x (w ∷ []) ≡ true) ⊎ (heard x p l (heard x p hist 0) ≡ v'.inst p) =
                elim (here x (subst (λ r. has x (v'.holders r) ≡ true) e g)) [
                  | inl k ↦ inr (heard-cast x p (v'.inst p) u ws (heard x p hist 0) a b c (inl k))
                  | inr (inl k) ↦ inl (rw k (has_self w))
                  | inr (inr (k, i)) ↦ inr (
                      heard-cast x p (v'.inst p) u ws (heard x p hist 0) a b c
                        (inr (h.told p x (omega (arith, le, ge, e)) k ∙ sym i)))
                ] in
              subst (λ r. heard x r (hist ++ (l ++ last)) 0 ≡ v'.inst r) (sym e)
                (split x p ∙ heard-cast x p (v'.inst p) t (w ∷ []) _ a' b' c' at)
          | no ne ↦
              split x q
              ∙ heard_other x p q t (w ∷ []) _ a' ne
              ∙ heard_other x p q u ws (heard x q hist 0) a ne
              ∙ h.told q x (omega (arith, le, ge)) (fewer q x ge ne g)
              ∙ sym (same q ne)
        ];
      }
