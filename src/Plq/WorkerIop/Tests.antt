-- ===== src/Plq/WorkerIop/Tests.antt =====
-- Tests of the in-order PLQ worker with the skyline query, and an example of its theorem.
use elastic_ppq.Common.{
  ℕ, ◌+◌, ◌≤◌, ◌≡◌, refl, List, [], ◌∷◌, ◌++◌, arith, length, ◌==◌, if◌then◌else◌,
}
use elastic_ppq.Common.Int.{◌*ℤ◌, ◌+ℤ◌, ◌-ℤ◌}
use elastic_ppq.Double.{nat_double, ℕ-IsOrdered}
use elastic_ppq.Message.{Tuple, Kind, empty}
use elastic_ppq.Rset.{start_by_tuple}
use elastic_ppq.Rset
use elastic_ppq.Panes.{count_windows, ceil_div}
use elastic_ppq.Query.TData.{append, remove_from_index, pop_back, resize, get_size}
use elastic_ppq.Query.TData
use elastic_ppq.Query.SkySet.{
  weight, t_dom_scores, dom_t_scores, add_weights, add_dims, add_twice, SkySet, add_compute_tuple,
  update_skyline, settle, scan, scan_step,
}
use elastic_ppq.Query.SkySet
use elastic_ppq.Query.SkySet.Results.{Holds}
use elastic_ppq.Query.SkySet.Instance.{skyset_derived, skyset, skyset-IsResultsSet}
use elastic_ppq.ResultsSet.{ResultsSet}
use elastic_ppq.Plq.Worker.{Worker, lower_bound, new_pane, enter}
use elastic_ppq.Plq.Worker.Deque.{IsAscending, ids}
use elastic_ppq.Plq.WorkerIop.{fill, place, handle_tuple, run_tuples}
use elastic_ppq.Plq.WorkerIop.InOrder.{run_tuples-IsAscending}

instance abbrev query : ResultsSet ℕ (SkySet ℕ)
query = skyset 2

abbrev in_pane : ℕ → ℕ → ℕ → Tuple ℕ × (ℕ → ℕ)
in_pane pane x y = (
  record empty { kind = Kind.regular; pane_id = pane; d = λ i. if i == 0 then x else y },
  λ i. i + 40,
)

abbrev ordered : List (Tuple ℕ × (ℕ → ℕ))
ordered = in_pane 2 1 5 ∷ in_pane 2 4 4 ∷ in_pane 5 0 5 ∷ in_pane 6 3 3 ∷ []

abbrev idle : Worker (SkySet ℕ)
idle = record { wp = 3; sp = 2; pane_set = [] }

abbrev ended : Worker (SkySet ℕ) × List (SkySet ℕ)
ended = run_tuples idle [] ordered

ended-ids : (ids ended.1 ≡ 2 ∷ 5 ∷ []) × (ids ended.0.pane_set ≡ 6 ∷ [])
unfolding run_tuples handle_tuple place fill lower_bound enter new_pane count_windows ceil_div
    SkySet.create add_compute_tuple update_skyline settle scan scan_step weight t_dom_scores
    dom_t_scores add_weights add_dims add_twice TData.create Rset.create append remove_from_index
    pop_back resize start_by_tuple get_size empty ◌*ℤ◌ ◌+ℤ◌ ◌-ℤ◌
ended-ids = (refl, refl)

run_tuples-IsAscending_example :
    IsAscending (ids (ended.1 ++ ended.0.pane_set)) × (length ended.0.pane_set ≤ 1)
run_tuples-IsAscending_example =
    run_tuples-IsAscending (λ a xs. Holds 2 a.s xs)
      (skyset-IsResultsSet ℕ-IsOrdered 2 (omega arith)) 3 2 ordered
      (omega arith, (omega arith, (omega arith, (omega arith, tt))))
