-- ===== src/Wlq/Emitter/Svc/Settling.antt =====
-- Which results sets wait where all workers are free.
use elastic_ppq.Common.{
  ℕ, ◌+◌, ◌<◌, ◌≡◌, refl, ap, inl, inr, List, [], ◌∷◌, Option, none, some, arith, length,
}
use elastic_ppq.ResultsSet.{Derived}
use elastic_ppq.Wlq.Emitter.{Task, WinDescr, get_wtasks_to_schedule}
use elastic_ppq.Wlq.Emitter.Tasks.{pending, Each, NoUpdate, get_wtasks_to_schedule_lem}
use elastic_ppq.Wlq.Emitter.Svc.{WlqEmitter}
use elastic_ppq.Wlq.Emitter.Svc.Assigning.{at_rest}
use elastic_ppq.Wlq.Emitter.Svc.Commands.{}
use elastic_ppq.Wlq.Emitter.Svc.Places.{free, free-held}
use elastic_ppq.Wlq.Emitter.Svc.Invariant.{IsRunning}
use elastic_ppq.Wlq.Emitter.Svc.Traffic.{held, updating, Windows}

module _ {S : Type 0} ⦃b : Derived S⦄ (num : ℕ) (arrived : ℕ → ℕ) where
  -- Where no worker has an update, and no update is found, nothing waits.
  pub NoUpdate-pending :
      (ws : List (Option (Task S))) (k : ℕ) (l : List (Option (WinDescr S)))
      → ((j : ℕ) → held (updating j) ws ≡ 0)
      → Windows arrived (at_rest ws) k l
      → Each NoUpdate l
      → pending l ≡ 0
  NoUpdate-pending ws k [] h v n = refl
  NoUpdate-pending ws k (none ∷ l) h (_, v) n = NoUpdate-pending ws (k + 1) l h v n
  NoUpdate-pending ws k (some wd ∷ l) h (o, v) (u, n) = elim u [
    | inl busy ↦ absurd (ground (arith, o.busy, h k, busy))
    | inr empty ↦ omega (arith, ap length empty, NoUpdate-pending ws (k + 1) l h v n)
  ]

  -- Where all workers are free, n above 0 tasks are asked for and none is found, nothing waits.
  pub none_found-pending :
      (n : ℕ) (e : WlqEmitter S) (ws : List (Option (Task S)))
      → IsRunning num arrived e (at_rest ws)
      → 0 < n
      → length (get_wtasks_to_schedule n e.descr_set).1 ≡ 0
      → free ws ≡ num
      → pending e.descr_set ≡ 0
  none_found-pending n e ws v pos nothing all =
      NoUpdate-pending ws e.first_win_id e.descr_set
        (λ j. free-held (updating j) ws (omega (arith, all, v.size))) v.windows
        ((get_wtasks_to_schedule_lem n e.descr_set).2 pos nothing).0
