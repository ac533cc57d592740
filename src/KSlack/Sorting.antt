-- ===== src/KSlack/Sorting.antt =====
-- A list of tuples that is kept sorted.
use mathlib.Core.List.Perm
use elastic_ppq.Common.{
  ℕ, suc, ◌≤◌, ◌<◌, ◌≡◌, refl, ap, inl, inr, List, [], ◌∷◌, Perm, All, All-map, arith, length, take,
  drop, ltb, leb, Bool-cases,
}
use elastic_ppq.Message.{Tuple}
use elastic_ppq.KSlack.{insert, count_upto}

module _ {W : Type 0} where
  -- in the order of the timestamps
  abbrev pub IsSorted : List (Tuple W) → Type 0
  IsSorted [] = Unit
  IsSorted (t ∷ ts) = All (λ u. t.app_ts ≤ u.app_ts) ts × IsSorted ts

  insert-All :
      (P : Tuple W → Type 0) (t : Tuple W) (us : List (Tuple W))
      → P t
      → All P us
      → All P (insert t us)
  unfolding insert
  insert-All P t [] p _ = (p, tt)
  insert-All P t (u ∷ us) p (q, qs) = elim (Bool-cases (ltb u.app_ts t.app_ts)) [
    | inl h ↦ rw h (q, insert-All P t us p qs)
    | inr h ↦ rw h (p, (q, qs))
  ]

  pub insert-IsSorted : (t : Tuple W) (us : List (Tuple W)) → IsSorted us → IsSorted (insert t us)
  unfolding insert
  insert-IsSorted t [] _ = (tt, tt)
  insert-IsSorted t (u ∷ us) (h, s) = elim (Bool-cases (ltb u.app_ts t.app_ts)) [
    | inl k ↦
        rw k (insert-All (λ v. u.app_ts ≤ v.app_ts) t us (ground arith) h, insert-IsSorted t us s)
    | inr k ↦
        let le : t.app_ts ≤ u.app_ts = ground arith in
        rw k (
          (
            le,
            All-map (λ v. u.app_ts ≤ v.app_ts) (λ v. t.app_ts ≤ v.app_ts)
                (λ v q. omega (arith, q, le)) us h,
          ),
          (h, s),
        )
  ]

  pub insert-perm : (t : Tuple W) (us : List (Tuple W)) → Perm (insert t us) (t ∷ us)
  unfolding insert
  insert-perm t [] = Perm.refl _
  insert-perm t (u ∷ us) = elim (Bool-cases (ltb u.app_ts t.app_ts)) [
    | inl h ↦ rw h (Perm.trans (Perm.cons u (insert-perm t us)) (Perm.swap t u us))
    | inr h ↦ rw h (Perm.refl _)
  ]

  pub length-insert : (t : Tuple W) (us : List (Tuple W)) → length (insert t us) ≡ suc (length us)
  unfolding insert
  length-insert t [] = refl
  length-insert t (u ∷ us) = elim (Bool-cases (ltb u.app_ts t.app_ts)) [
    | inl h ↦ rw h (ap suc (length-insert t us))
    | inr h ↦ rw h refl
  ]

  -- the tuples in front that are not later than the bound, and those behind
  pub count_upto_lem :
      (bound : ℕ) (us : List (Tuple W))
      → IsSorted us
      → All (λ u. u.app_ts ≤ bound) (take (count_upto bound us) us)
        × All (λ u. bound < u.app_ts) (drop (count_upto bound us) us)
        × (count_upto bound us ≤ length us)
  unfolding count_upto
  count_upto_lem bound [] _ = (tt, tt, omega arith)
  count_upto_lem bound (u ∷ us) (h, s) = elim (Bool-cases (leb u.app_ts bound)) [
    | inl k ↦
        let (a, b, c) = count_upto_lem bound us s in rw k ((ground arith, a), b, omega (arith, c))
    | inr k ↦
        let lt : bound < u.app_ts = ground arith in
        rw k (
          tt,
          (
            lt,
            All-map (λ v. u.app_ts ≤ v.app_ts) (λ v. bound < v.app_ts) (λ v q. omega (arith, q, lt))
                us h,
          ),
          omega arith,
        )
  ]
