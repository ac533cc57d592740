-- ===== src/Plq/Sched/Tests.antt =====
-- Tests of the progress of the stream in the scheduler, with three workers, two of them activated.
use elastic_ppq.Common.{
  ℕ, ◌+◌, ◌-◌, ◌%◌, get_or, ◌≡◌, ◌≤◌, ◌<◌, refl, true, false, List, [], ◌∷◌, map, Option, none,
  some, arith, length, ltb, All, if◌then◌else◌,
}
use elastic_ppq.Double.{nat_double}
use elastic_ppq.Message.{Tuple, empty, create_lull, create_punctuation}
use elastic_ppq.Query.TData.{resize}
use elastic_ppq.Plq.Sched.{
  Sched, find_activated, first_found, get_rr_w, get_llw_w, switch_on, add_workers, extend,
  note_pane, send_lull, complete_pane, complete_panes, broadcast, punctuate_to,
  execute_stream_progress,
}
use elastic_ppq.Plq.Sched.Choice.{get_llw_w_lem}
use elastic_ppq.Plq.Sched.Progress.{execute_stream_progress_lem}
use elastic_ppq.Plq.Sched.Passing.{IsActivated, empty_panes, lulls}

abbrev sched : Sched
sched = record {
  nw_plq = 2;
  last_w = 1;
  next_pane_id = 0;
  activated_worker = true ∷ false ∷ true ∷ [];
  p_instances = 1 ∷ 0 ∷ [];
  pane_size = 5 ∷ 0 ∷ [];
  cm_panes_split = [];
  n_punc = 0;
  tuples_to_w = 0 ∷ 0 ∷ 0 ∷ [];
}

abbrev targets : Option (Sched × List (ℕ × Tuple ℕ)) → List (ℕ × ℕ)
targets none = []
targets (some r) = map (λ q. (q.0, q.1.pane_id)) r.1

-- Panes 1 and 2 are empty: their LULL messages go round, then the punctuation of pane 3 to both workers.
sched-targets :
    targets (execute_stream_progress 3 30 3 sched) ≡ (2, 1) ∷ (0, 2) ∷ (0, 3) ∷ (2, 3) ∷ []
unfolding execute_stream_progress punctuate_to broadcast complete_panes complete_pane send_lull
    note_pane extend get_rr_w first_found find_activated resize empty create_lull create_punctuation
sched-targets = refl

-- A worker that is activated cannot be added.
add_workers-activated : (w : ℕ) → add_workers 1 (0 ∷ w ∷ []) sched ≡ none
unfolding add_workers switch_on
add_workers-activated w = refl

execute_stream_progress_lem_example :
    (r : Sched × List (ℕ × Tuple ℕ)) × (execute_stream_progress 3 30 3 sched ≡ some r)
    × (lulls r.1 ≡ empty_panes sched.pane_size 0 3)
    × All (λ q. IsActivated sched q.0) r.1
    × (length r.0.cm_panes_split ≡ length sched.cm_panes_split + 3)
    × (r.0.next_pane_id ≡ (if ltb 3 0 then 0 else 3))
unfolding IsActivated
execute_stream_progress_lem_example = execute_stream_progress_lem 3 2 30 3 sched (omega arith) refl

-- Worker 2 has the shortest queue of those that are activated.
abbrev queue : ℕ → ℕ
queue w = 9 - w

get_llw_w_lem_example :
    (i : ℕ) × (get_llw_w 3 queue sched ≡ some (record sched { last_w = (i + 1) % 3 }, i))
    × (get_or sched.activated_worker i false ≡ true)
    × ((j : ℕ) → j < 3 → get_or sched.activated_worker j false ≡ true → queue i ≤ queue j)
get_llw_w_lem_example =
    get_llw_w_lem 3 0 queue sched (omega arith) refl (omega arith) (λ i. omega arith)
