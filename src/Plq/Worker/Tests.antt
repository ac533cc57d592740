-- ===== src/Plq/Worker/Tests.antt =====
-- Tests of the PLQ worker with the skyline query, and examples of its theorems.
use elastic_ppq.Common.{
  ℕ, ◌+◌, ◌≤◌, ◌<◌, ◌≡◌, ◌≢◌, ◌↔◌, refl, List, [], ◌∷◌, ◌++◌, Option, none, some, All, arith, ◌==◌,
  if◌then◌else◌,
}
use elastic_ppq.Common.Int.{◌*ℤ◌, ◌+ℤ◌, ◌-ℤ◌}
use elastic_ppq.Double.{nat_double, ℕ-IsOrdered}
use elastic_ppq.Message.{Tuple, Kind, empty}
use elastic_ppq.Rset.{start_by_tuple, start_by_set}
use elastic_ppq.Rset
use elastic_ppq.Panes.{count_windows, ceil_div}
use elastic_ppq.Query.TData.{append, remove_from_index, pop_back, resize, get_size}
use elastic_ppq.Query.TData
use elastic_ppq.Query.SkySet.{
  weight, t_dom_scores, dom_t_scores, add_weights, add_dims, add_twice, SkySet, add_compute_tuple,
  update_skyline, settle, scan, scan_step,
}
use elastic_ppq.Query.SkySet
use elastic_ppq.Query.SkySet.Results.{Holds}
use elastic_ppq.Query.SkySet.Instance.{skyset_derived, skyset, skyset-IsResultsSet}
use elastic_ppq.ResultsSet.{ResultsSet, IsDerived}
use elastic_ppq.Plq.Worker.{
  Worker, lower_bound, release, close_all, new_pane, handle_punct, handle_end, handle_new_inst,
  find_or_create, enter, handle_tuple, dispatch, svc, run,
}
use elastic_ppq.Plq.Worker.Deque.{IsAscending, ids, svc-IsAscending}
use elastic_ppq.Plq.Worker.Shares.{regulars, Served}
use elastic_ppq.Plq.Worker.Served.{run-Served}
use elastic_ppq.Plq.Worker.Once.{run-IsAscending}
use elastic_ppq.Plq.Worker.Closing.{handle_punct-ids, handle_new_inst-none_iff}

instance abbrev query : ResultsSet ℕ (SkySet ℕ)
query = skyset 2

abbrev message : Kind → ℕ → ℕ → ℕ → Tuple ℕ
message kind pane x y = record empty {
  kind = kind;
  pane_id = pane;
  ref_counter = 2;
  d = λ i. if i == 0 then x else y;
}

abbrev clock : ℕ → ℕ
clock i = i + 40

-- two panes, a punctuation that closes the first one, and the end
abbrev messages : List (Tuple ℕ × (ℕ → ℕ))
messages =
    (message Kind.regular 3 1 5, clock)
    ∷ (message Kind.regular 2 4 4, clock)
    ∷ (message Kind.regular 3 0 5, clock)
    ∷ (message Kind.punct 3 0 0, clock)
    ∷ (message Kind.ends 0 0 0, clock)
    ∷ []

abbrev idle : Worker (SkySet ℕ)
idle = record { wp = 3; sp = 2; pane_set = [] }

abbrev from_some : {A : Type 0} → A → Option A → A
from_some a none = a
from_some a (some x) = x

abbrev ended : Option (Worker (SkySet ℕ) × List (SkySet ℕ))
ended = run idle [] messages

abbrev end_state : Worker (SkySet ℕ) × List (SkySet ℕ)
end_state = from_some (idle, []) ended

ended-some : ended ≡ some end_state
unfolding run svc dispatch handle_tuple handle_punct handle_end find_or_create lower_bound enter
    close_all new_pane count_windows ceil_div SkySet.create add_compute_tuple update_skyline settle
    scan scan_step weight t_dom_scores dom_t_scores add_weights add_dims add_twice TData.create
    Rset.create append remove_from_index pop_back resize start_by_tuple start_by_set get_size
    release empty ◌*ℤ◌ ◌+ℤ◌ ◌-ℤ◌
ended-some = refl

-- Pane 2 goes out before pane 3, and nothing stays open.
end_state-ids : (ids end_state.1 ≡ 2 ∷ 3 ∷ []) × (end_state.0.pane_set ≡ [])
unfolding run svc dispatch handle_tuple handle_punct handle_end find_or_create lower_bound enter
    close_all new_pane count_windows ceil_div SkySet.create add_compute_tuple update_skyline settle
    scan scan_step weight t_dom_scores dom_t_scores add_weights add_dims add_twice TData.create
    Rset.create append remove_from_index pop_back resize start_by_tuple start_by_set get_size
    release empty ◌*ℤ◌ ◌+ℤ◌ ◌-ℤ◌
end_state-ids = (refl, refl)

run-Served_example :
    Served {W = ℕ}
      (λ a xs. Holds 2 a.s xs)
      (end_state.1 ++ end_state.0.pane_set)
      (regulars messages)
run-Served_example =
    run-Served (λ a xs. Holds 2 a.s xs) (skyset-IsResultsSet ℕ-IsOrdered 2 (omega arith)) 3 2
      messages end_state.0 end_state.1 ended-some

-- a worker with the open panes 2, 3 and 5
abbrev three_open : Worker (SkySet ℕ)
three_open = record idle {
  pane_set = SkySet.create 1 2 1 ∷ SkySet.create 1 3 1 ∷ SkySet.create 1 5 1 ∷ [];
}

three_open-IsAscending : IsAscending (ids three_open.pane_set)
unfolding SkySet.create Rset.create
three_open-IsAscending = ((omega arith, (omega arith, tt)), ((omega arith, tt), (tt, tt)))

abbrev kept_derived : IsDerived (SkySet ℕ)
kept_derived = (skyset-IsResultsSet ℕ-IsOrdered 2 (omega arith)).derived

handle_punct-ids_example :
    (ids (handle_punct three_open (message Kind.punct 4 0 0) clock).sent
        ++ ids (handle_punct three_open (message Kind.punct 4 0 0) clock).worker.pane_set
      ≡ 2 ∷ 3 ∷ 5 ∷ [])
    × All (λ n. n < 4) (ids (handle_punct three_open (message Kind.punct 4 0 0) clock).sent)
    × All
        (λ n. 4 ≤ n)
        (ids (handle_punct three_open (message Kind.punct 4 0 0) clock).worker.pane_set)
unfolding SkySet.create Rset.create
handle_punct-ids_example =
    handle_punct-ids kept_derived three_open (message Kind.punct 4 0 0) clock three_open-IsAscending

handle_new_inst-none_iff_example :
    (handle_new_inst three_open (message Kind.new_inst 4 0 0) ≡ none)
    ↔ All (λ n. n ≢ 4) (ids three_open.pane_set)
handle_new_inst-none_iff_example =
    handle_new_inst-none_iff kept_derived three_open (message Kind.new_inst 4 0 0)
      three_open-IsAscending

svc-IsAscending_example :
    IsAscending (ids (handle_punct three_open (message Kind.punct 4 0 0) clock).worker.pane_set)
svc-IsAscending_example =
    svc-IsAscending (λ a xs. Holds 2 a.s xs) (skyset-IsResultsSet ℕ-IsOrdered 2 (omega arith))
      three_open (message Kind.punct 4 0 0) clock
      (handle_punct three_open (message Kind.punct 4 0 0) clock) three_open-IsAscending
      (unfold svc dispatch empty in refl)

-- the messages without the end: nothing is late
abbrev in_time : List (Tuple ℕ × (ℕ → ℕ))
in_time =
    (message Kind.regular 3 1 5, clock)
    ∷ (message Kind.regular 2 4 4, clock)
    ∷ (message Kind.punct 3 0 0, clock)
    ∷ (message Kind.regular 3 0 5, clock)
    ∷ []

abbrev running : Worker (SkySet ℕ) × List (SkySet ℕ)
running = from_some (idle, []) (run idle [] in_time)

running-some : run idle [] in_time ≡ some running
unfolding run svc dispatch handle_tuple handle_punct find_or_create lower_bound enter close_all
    new_pane count_windows ceil_div SkySet.create add_compute_tuple update_skyline settle scan
    scan_step weight t_dom_scores dom_t_scores add_weights add_dims add_twice TData.create
    Rset.create append remove_from_index pop_back resize start_by_tuple start_by_set get_size
    release empty ◌*ℤ◌ ◌+ℤ◌ ◌-ℤ◌
running-some = refl

run-IsAscending_example : IsAscending (ids (running.1 ++ running.0.pane_set))
run-IsAscending_example =
    run-IsAscending (λ a xs. Holds 2 a.s xs) (skyset-IsResultsSet ℕ-IsOrdered 2 (omega arith)) 3 2
      in_time running.0 running.1 (omega arith, (omega arith, (tt, (omega arith, tt)))) running-some
