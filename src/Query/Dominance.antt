-- ===== src/Query/Dominance.antt =====
-- Dominance between stored tuples, as the comments of include/queries.hpp state it: equal or better in every
-- dimension, and better in one. Smaller is better.
use elastic_ppq.Common.{ℕ, zero, suc, ◌≡◌, refl, Bool, true, false, not, ◌&&◌, ◌||◌, arith}
use elastic_ppq.Double.{Double, lt, IsOrdered}
use elastic_ppq.Query.TData.{Row}

abbrev pub all_below : ℕ → (ℕ → Bool) → Bool
all_below zero p = true
all_below (suc n) p = p n && all_below n p

abbrev pub any_below : ℕ → (ℕ → Bool) → Bool
any_below zero p = false
any_below (suc n) p = p n || any_below n p

module _ {W : Type 0} ⦃o : Double W⦄ where
  abbrev pub no_worse : ℕ → Row W → Row W → Bool
  no_worse dim t p = all_below dim (λ i. not (lt (p.d i) (t.d i)))

  abbrev pub better : ℕ → Row W → Row W → Bool
  better dim t p = any_below dim (λ i. lt (t.d i) (p.d i))

  -- `dominates dim t p`: t is preferred to p.
  unfoldable pub dominates : ℕ → Row W → Row W → Bool
  dominates dim t p = no_worse dim t p && better dim t p

module _ {W : Type 0} ⦃o : Double W⦄ (laws : IsOrdered W) where
  open laws use {lt_cotrans}

  no_worse_trans :
      (n : ℕ) (t p q : Row W)
      → no_worse n t p ≡ true
      → no_worse n p q ≡ true
      → no_worse n t q ≡ true
  no_worse_trans zero t p q h k = h
  no_worse_trans (suc n) t p q h k =
      ground (arith, no_worse_trans n t p q, lt_cotrans (q.d n) (p.d n) (t.d n))

  better_trans :
      (n : ℕ) (t p q : Row W) → better n t p ≡ true → no_worse n p q ≡ true → better n t q ≡ true
  better_trans zero t p q h k = h
  better_trans (suc n) t p q h k =
      ground (arith, better_trans n t p q, lt_cotrans (t.d n) (q.d n) (p.d n))

  not-better_of_no_worse : (n : ℕ) (t p : Row W) → no_worse n t p ≡ true → better n p t ≡ false
  not-better_of_no_worse zero t p h = refl
  not-better_of_no_worse (suc n) t p h = ground (arith, not-better_of_no_worse n t p)

  pub dominates_trans :
      (dim : ℕ) (t p q : Row W)
      → dominates dim t p ≡ true
      → dominates dim p q ≡ true
      → dominates dim t q ≡ true
  unfolding dominates
  dominates_trans dim t p q h k = ground (arith, no_worse_trans dim t p q, better_trans dim t p q)

  pub dominates_asymm :
      (dim : ℕ) (t p : Row W) → dominates dim t p ≡ true → dominates dim p t ≡ false
  unfolding dominates
  dominates_asymm dim t p h = ground (arith, not-better_of_no_worse dim t p)
