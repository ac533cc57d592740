-- ===== src/Wlq/Emitter/Svc/Places.antt =====
-- Places of the deque of windows and of the workers' tasks.
use elastic_ppq.Common.{
  ℕ, zero, suc, ◌+◌, ◌≤◌, ◌<◌, ◌≡◌, refl, ap, Bool, true, false, List, [], ◌∷◌, Option, none, some,
  arith, get_or, set, length,
}
use elastic_ppq.Wlq.Emitter.{Task, WinDescr}
use elastic_ppq.Wlq.Emitter.Tasks.{pending}
use elastic_ppq.Wlq.Emitter.Svc.{at_descr}
use elastic_ppq.Wlq.Emitter.Svc.Traffic.{held}

abbrev pub is_none {ℓ} : {A : Type ℓ} → Option A → Bool
is_none none = true
is_none (some a) = false

pub set_twice {ℓ} : {A : Type ℓ} → (l : List A) (i : ℕ) (x y : A) → set (set l i x) i y ≡ set l i y
set_twice [] i x y = refl
set_twice (z ∷ l) zero x y = refl
set_twice (z ∷ l) (suc i) x y = ap (◌∷◌ z) (set_twice l i x y)

module _ {S : Type 0} where
  -- how many workers have no task
  abbrev pub free : List (Option (Task S)) → ℕ
  free [] = 0
  free (none ∷ ws) = free ws + 1
  free (some t ∷ ws) = free ws

  pub free-set :
      (ws : List (Option (Task S))) (i : ℕ) (t : Task S)
      → i < length ws
      → get_or ws i none ≡ none
      → free ws ≡ free (set ws i (some t)) + 1
  free-set [] i t lt e = absurd (omega (arith, lt))
  free-set (none ∷ ws) zero t lt e = refl
  free-set (some u ∷ ws) zero t lt e = absurd (cc)
  free-set (none ∷ ws) (suc i) t lt e = omega (arith, free-set ws i t (omega (arith, lt)) e)
  free-set (some u ∷ ws) (suc i) t lt e = free-set ws i t (omega (arith, lt)) e

  pub free-most : (ws : List (Option (Task S))) → free ws ≤ length ws
  free-most [] = omega arith
  free-most (none ∷ ws) = omega (arith, free-most ws)
  free-most (some t ∷ ws) = omega (arith, free-most ws)

  pub free-all :
      (ws : List (Option (Task S))) (i : ℕ) → free ws ≡ length ws → get_or ws i none ≡ none
  free-all [] i e = refl
  free-all (none ∷ ws) zero e = refl
  free-all (none ∷ ws) (suc i) e = free-all ws i (omega (arith, e))
  free-all (some t ∷ ws) i e = absurd (omega (arith, e, free-most ws))

  pub free-held :
      (f : Task S → ℕ) (ws : List (Option (Task S))) → free ws ≡ length ws → held f ws ≡ 0
  free-held f [] e = refl
  free-held f (none ∷ ws) e = omega (arith, free-held f ws (omega (arith, e)))
  free-held f (some t ∷ ws) e = absurd (omega (arith, e, free-most ws))

  -- the results sets that wait for one window
  abbrev pub queue : Option (WinDescr S) → ℕ
  queue none = 0
  queue (some wd) = length wd.pending_queue

  pub pending-set :
      (l : List (Option (WinDescr S))) (i : ℕ) (o : Option (WinDescr S))
      → i < length l
      → pending (set l i o) + queue (get_or l i none) ≡ pending l + queue o
  pending-set [] i o lt = absurd (omega (arith, lt))
  pending-set (none ∷ l) zero none lt = refl
  pending-set (none ∷ l) zero (some wd) lt = omega arith
  pending-set (some x ∷ l) zero none lt = omega arith
  pending-set (some x ∷ l) zero (some wd) lt = omega arith
  pending-set (none ∷ l) (suc i) o lt = pending-set l i o (omega (arith, lt))
  pending-set (some x ∷ l) (suc i) o lt = omega (arith, pending-set l i o (omega (arith, lt)))

  pub at_descr-set :
      (f : WinDescr S → WinDescr S) (i : ℕ) (l : List (Option (WinDescr S))) (wd : WinDescr S)
      → i < length l
      → get_or l i none ≡ some wd
      → at_descr f i l ≡ some (set l i (some (f wd)))
  unfolding at_descr
  at_descr-set f i [] wd lt e = absurd (omega (arith, lt))
  at_descr-set f zero (none ∷ l) wd lt e = absurd (cc)
  at_descr-set f zero (some x ∷ l) wd lt e = ap (λ o. some (set_first o)) e
    where
      set_first : Option (WinDescr S) → List (Option (WinDescr S))
      set_first none = []
      set_first (some y) = some (f y) ∷ l
  at_descr-set f (suc i) (o ∷ l) wd lt e = rw (at_descr-set f i l wd (omega (arith, lt)) e) refl
