-- ===== src/Wlq/Collector/Tests.antt =====
-- Tests of the collector, and examples of its theorems, on bare results sets.
use mathlib.Core.List.Perm
use elastic_ppq.Common.{ℕ, ◌≡◌, refl, List, [], ◌∷◌, ◌++◌, Perm, arith}
use elastic_ppq.Rset.{Rset}
use elastic_ppq.Rset
use elastic_ppq.ResultsSet.{Derived}
use elastic_ppq.Query.TData.{resize}
use elastic_ppq.Wlq.Collector.{create, send_run, send_behind, buffer, svc, run}
use elastic_ppq.Wlq.Collector.Slots.{range, held, win_ids}
use elastic_ppq.Wlq.Collector.InOrder.{run-ids, run_complete}
use elastic_ppq.Wlq.Collector.Ordered.{IsFresh}

instance abbrev bare : Derived Rset
bare = record { base = λ s. s; with_base = λ s f. f }

abbrev window : ℕ → Rset
window id = Rset.create 1 id 1

-- three windows out of order
abbrev arrivals : List Rset
arrivals = window 2 ∷ window 0 ∷ window 1 ∷ []

run-arrivals : win_ids (run create arrivals).1 ≡ 0 ∷ 1 ∷ 2 ∷ []
unfolding run svc create buffer resize send_behind send_run Rset.create
run-arrivals = refl

arrivals-IsFresh : IsFresh [] arrivals
unfolding Rset.create
arrivals-IsFresh = (refl, omega arith, (refl, omega arith, (refl, omega arith, tt)))

arrivals-perm : Perm (win_ids arrivals) (range 0 3)
unfolding Rset.create
arrivals-perm = Perm.trans (Perm.swap 0 2 (1 ∷ [])) (Perm.cons 0 (Perm.swap 1 2 []))

run-ids_example :
    (win_ids (run create arrivals).1 ≡ range 0 (run create arrivals).0.next_win_id)
    × Perm ((run create arrivals).1 ++ held (run create arrivals).0.win_set) arrivals
run-ids_example = run-ids arrivals arrivals-IsFresh

run_complete_example :
    (win_ids (run create arrivals).1 ≡ range 0 3) × (held (run create arrivals).0.win_set ≡ [])
run_complete_example = run_complete arrivals 3 arrivals-IsFresh arrivals-perm
