-- ===== src/Wlq/Worker/Tests.antt =====
-- Tests of the WLQ worker with skylines of two dimensions.
use elastic_ppq.Common.{
  ℕ, zero, suc, ◌^◌, ◌≤◌, ◌<◌, ◌≡◌, ◌≢◌, ◌↔◌, refl, true, false, List, [], ◌∷◌, Option, none, some,
  arith,
}
use elastic_ppq.Double.{nat_double, ℕ-IsOrdered}
use elastic_ppq.Rset
use elastic_ppq.Rset.{start_by_set}
use elastic_ppq.ResultsSet.{ResultsSet}
use elastic_ppq.Query.TData.{get_size}
use elastic_ppq.Query.SkySet
use elastic_ppq.Query.SkySet.{SkySet, add_compute_set}
use elastic_ppq.Query.SkySet.Results.{Holds}
use elastic_ppq.Query.SkySet.Instance.{
  skyset_derived, skyset, skyset-IsResultsSet, ref_counter-add_compute_set,
}
use elastic_ppq.Wlq.Emitter.{TaskType, Task}
use elastic_ppq.Wlq.Worker.{
  Store, WlqWorker, Outcome, is_update, released, release, add_set, execute, svc,
}
use elastic_ppq.Wlq.Worker.Counted.{Executed, svc-Executed}
use elastic_ppq.Wlq.Worker.Uses.{IsCounted}

instance abbrev kept : ResultsSet ℕ (SkySet ℕ)
kept = skyset 2

-- A results set that one window waits for, and one that two do.
abbrev cell : ℕ → Option (SkySet ℕ)
cell zero = some (SkySet.create 1 0 1)
cell (suc zero) = some (SkySet.create 2 0 1)
cell (suc (suc r)) = none

abbrev uses : ℕ → ℕ
uses zero = 1
uses (suc zero) = 2
uses (suc (suc r)) = 0

abbrev two_sets : Store (SkySet ℕ)
two_sets = record { next = 2; cell = cell }

abbrev merge : Task ℕ
merge = record { task_type = TaskType.merge; p1 = 0; p2 = 1; win_id = 0; finalize = false }

abbrev idle : WlqWorker
idle = record { rcv_wtasks = 0; rcv_win_finalized = 0 }

abbrev counter : Option (SkySet ℕ) → ℕ
counter none = 0
counter (some s) = s.rset.ref_counter

abbrev counters : Option (Outcome (SkySet ℕ)) → List ℕ
counters none = []
counters (some r) =
    counter (r.store.cell 0) ∷ counter (r.store.cell 1) ∷ counter (r.store.cell 2) ∷ []

-- The first set is deleted, the second is left to one window, and the merged one is new.
merge-counters : counters (svc ℕ 5 merge idle two_sets) ≡ 0 ∷ 1 ∷ 1 ∷ []
unfolding svc execute is_update add_set release released add_compute_set start_by_set SkySet.create
    Rset.create get_size
merge-counters = refl

two_sets-IsCounted : IsCounted uses two_sets
unfolding SkySet.create Rset.create
two_sets-IsCounted = record { live = live; fresh = fresh; small = small }
  where
    live : (r : ℕ) → 0 < uses r → (s : SkySet ℕ) × (cell r ≡ some s) × (s.rset.ref_counter ≡ uses r)
    live zero pos = (SkySet.create 1 0 1, refl, refl)
    live (suc zero) pos = (SkySet.create 2 0 1, refl, refl)
    live (suc (suc r)) pos = absurd (omega (arith, pos))

    fresh : (r : ℕ) → 2 ≤ r → uses r ≡ 0
    fresh zero ge = absurd (omega (arith, ge))
    fresh (suc zero) ge = absurd (omega (arith, ge))
    fresh (suc (suc r)) ge = refl

    small : (r : ℕ) → uses r < 2 ^ 64
    small zero = omega arith
    small (suc zero) = omega arith
    small (suc (suc r)) = omega arith

svc-Executed_example :
    (r : Outcome (SkySet ℕ)) × (svc ℕ 5 merge idle two_sets ≡ some r)
    × Executed {W = ℕ} {Rep = λ a xs. Holds 2 a.s xs}
        (skyset-IsResultsSet ℕ-IsOrdered 2 (omega arith))
        (ref_counter-add_compute_set 2)
        TaskType.merge
        0
        1
        uses
        two_sets
        (r.store, r.back.p1)
    × ((r.result ≡ some r.back.p1) ↔ (TaskType.merge ≡ TaskType.win_update) × (false ≡ true))
svc-Executed_example =
    svc-Executed {W = ℕ} {Rep = λ a xs. Holds 2 a.s xs}
      (skyset-IsResultsSet ℕ-IsOrdered 2 (omega arith)) (ref_counter-add_compute_set 2) 5 merge idle
      uses two_sets two_sets-IsCounted (omega arith) (omega arith) zero-ne
  where
    zero-ne : merge.p1 ≢ merge.p2
    zero-ne e = omega (arith, e)
