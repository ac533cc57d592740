-- ===== src/Wlq/Emitter/Tests.antt =====
-- Tests of the WLQ emitter, and examples of its theorems, on bare results sets.
use elastic_ppq.Common.{◌≡◌, ◌↔◌, refl, true, List, [], ◌∷◌, Option, none, some, arith, length}
use elastic_ppq.Rset.{Rset}
use elastic_ppq.Rset
use elastic_ppq.ResultsSet.{Derived}
use elastic_ppq.Wlq.Emitter.{
  Task, WinDescr, sum_ins, split_last, new_descr, note_count, update_count, enqueue, make_update,
  update_task, make_merge, merge_task, phase, get_wtasks_to_schedule,
}
use elastic_ppq.Wlq.Emitter.Tasks.{pending}
use elastic_ppq.Wlq.Emitter.Finalize.{
  Life, Step, Reachable, Balanced, Reachable-Balanced, finalize_iff,
}

instance abbrev bare : Derived Rset
bare = record { base = λ s. s; with_base = λ s f. f }

-- the only partition of pane 0
abbrev part : Rset
part = Rset.create 1 0 1

-- window 0 of one pane, before and after the results set of its pane
abbrev window : WinDescr Rset
window = new_descr Rset.create 0 1 0

abbrev before : Life Rset
before = record { wd = window; arrived = 0; updating = 0; merging = 0 }

abbrev after : Life Rset
after = record before { wd = enqueue part window; arrived = 1 }

after-Reachable : Reachable after
after-Reachable =
    Reachable.stepped before after (Reachable.created Rset.create 0 1 0) (Step.arrive before part)

abbrev last_task : WinDescr Rset × Task Rset
last_task = make_update after.wd ([], part)

after-update_task : update_task after.wd ≡ some last_task
unfolding update_task split_last enqueue update_count new_descr
after-update_task = refl

after-sum_ins : sum_ins after.wd.cnt_ins ≡ some 1
unfolding sum_ins enqueue update_count new_descr note_count Rset.create
after-sum_ins = refl

finalize_iff_example :
    (last_task.1.finalize ≡ true)
    ↔ ((after.arrived ≡ 1) × (length last_task.0.pending_queue ≡ 0) × (after.merging ≡ 0))
finalize_iff_example =
    finalize_iff after last_task.0 last_task.1 1 after-Reachable after-update_task after-sum_ins
      (omega arith)

Reachable-Balanced_example : Balanced after
Reachable-Balanced_example = Reachable-Balanced after after-Reachable

-- a window with four results sets in its queue, and a finalized one
abbrev waiting : List (Option (WinDescr Rset))
waiting = none ∷ some (record window { pending_queue = part ∷ part ∷ part ∷ part ∷ [] }) ∷ []

-- One update and one merge are found, however many tasks are asked for.
waiting-tasks :
    (length (get_wtasks_to_schedule 5 waiting).1 ≡ 2)
    × (pending (get_wtasks_to_schedule 5 waiting).0 ≡ 1)
unfolding get_wtasks_to_schedule phase update_task merge_task make_update make_merge split_last
    new_descr
waiting-tasks = (refl, refl)
