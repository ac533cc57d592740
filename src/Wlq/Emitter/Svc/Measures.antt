-- ===== src/Wlq/Emitter/Svc/Measures.antt =====
-- What the measures of the tasks are made of.
use elastic_ppq.Common.{
  ℕ, zero, suc, ◌+◌, ◌≤◌, ◌<◌, ◌≡◌, ◌≢◌, inl, inr, Bool, true, false, not, List, [], ◌∷◌, ◌++◌,
  Option, none, some, arith, get_or, set, length, ◌==◌, Bool-cases, if◌then◌else◌,
}
use elastic_ppq.Wlq.Emitter.{TaskType, Task}
use elastic_ppq.Wlq.Emitter.Svc.Traffic.{
  takes, update_by, of_maybe, held, total, load, updating, final, live,
}

module _ {S : Type 0} where
  pub total-append :
      (f : Task S → ℕ) (xs ys : List (Task S)) → total f (xs ++ ys) ≡ total f xs + total f ys
  total-append f [] ys = omega arith
  total-append f (x ∷ xs) ys = omega (arith, total-append f xs ys)

  -- A worker gets another task, or gives its task back.
  pub held-set :
      (f : Task S → ℕ) (ws : List (Option (Task S))) (i : ℕ) (o : Option (Task S))
      → i < length ws
      → held f (set ws i o) + of_maybe f (get_or ws i none) ≡ held f ws + of_maybe f o
  held-set f [] i o lt = absurd (omega (arith, lt))
  held-set f (x ∷ ws) zero o lt = omega arith
  held-set f (x ∷ ws) (suc i) o lt = omega (arith, held-set f ws i o (omega (arith, lt)))

  module _ (k : ℕ) (t : Task S) where
    pub measures_other :
        t.win_id ≢ k → (load k t ≡ 0) × (final k t ≡ 0) × (live k t ≡ 0) × (updating k t ≡ 0)
    unfolding load final live updating
    measures_other ne =
        (ground (arith, ne), ground (arith, ne), ground (arith, ne), ground (arith, ne))

    pub updating-load : updating k t ≤ load k t
    unfolding load updating
    updating-load = elim (Bool-cases (t.win_id == k)) [
      | inl e ↦ rw e (step t.task_type)
      | inr e ↦ rw e (omega arith)
    ]
      where
        step : (c : TaskType) → update_by c ≤ takes c
        step TaskType.win_update = omega arith
        step TaskType.merge = omega arith

    pub live-load : live k t ≤ load k t
    unfolding load live
    live-load = elim (Bool-cases (t.win_id == k)) [
      | inl e ↦ rw e (step t.task_type t.finalize)
      | inr e ↦ rw e (omega arith)
    ]
      where
        step : (c : TaskType) (f : Bool) → (if not f then 1 else 0) ≤ takes c
        step TaskType.win_update true = omega arith
        step TaskType.win_update false = omega arith
        step TaskType.merge true = omega arith
        step TaskType.merge false = omega arith

  pub held-updating-load :
      (k : ℕ) (ws : List (Option (Task S))) → held (updating k) ws ≤ held (load k) ws
  held-updating-load k [] = omega arith
  held-updating-load k (none ∷ ws) = omega (arith, held-updating-load k ws)
  held-updating-load k (some t ∷ ws) = omega (arith, updating-load k t, held-updating-load k ws)

  pub held-live-load : (k : ℕ) (ws : List (Option (Task S))) → held (live k) ws ≤ held (load k) ws
  held-live-load k [] = omega arith
  held-live-load k (none ∷ ws) = omega (arith, held-live-load k ws)
  held-live-load k (some t ∷ ws) = omega (arith, live-load k t, held-live-load k ws)
