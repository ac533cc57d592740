-- ===== src/Wlq/Emitter/Svc/Tests.antt =====
-- Tests of the WLQ emitter's `svc` on bare results sets, with two workers and windows of one pane.
use mathlib.Core.Option.{some-injective}
use elastic_ppq.Common.{
  ℕ, zero, suc, ◌<◌, ◌≡◌, refl, sym, subst, Bool, true, false, ◌++◌, List, [], ◌∷◌, Option, none,
  some, arith, get_or, and_then, map,
}
use elastic_ppq.Rset.{Rset}
use elastic_ppq.Rset
use elastic_ppq.ResultsSet.{Derived}
use elastic_ppq.Panes.{first_win, last_win, ceil_div}
use elastic_ppq.Wlq.Pool.{
  last_activated, is_idle, find_idle, count_idle, select_idle_worker, get_num_idle_workers, send_to,
  worker_back, wake_all, check_termination,
}
use elastic_ppq.Wlq.Emitter.{
  TaskType, Task, WinDescr, sum_ins, to_finalize, increment_completed_task, begin_update,
  complete_update, complete_merge, split_last, new_descr, note_count, update_count, enqueue,
  make_update, update_task, make_merge, merge_task, phase, get_wtasks_to_schedule,
}
use elastic_ppq.Wlq.Emitter.Svc.{
  WlqEmitter, Input, local_id, create, at_descr, new_descrs, grow, mark, send_task, send_all,
  drop_closed, drop_front, terminate, eosnotify, handle_feedback, complete_by, join_windows, arrive,
  handle_results, send_one, svc,
}
use elastic_ppq.Wlq.Emitter.Svc.Arriving.{Expected, one_more}
use elastic_ppq.Wlq.Emitter.Svc.Assigning.{at_rest, hand_out}
use elastic_ppq.Wlq.Emitter.Svc.Commands.{IsFinished}
use elastic_ppq.Wlq.Emitter.Svc.Reached.{no_tasks, create-IsRunning, Reachable, Reachable-svc}
use elastic_ppq.Wlq.Emitter.Svc.Running.{taken_back, Comes, svc-IsRunning}
use elastic_ppq.Wlq.Emitter.Svc.Invariant.{IsRunning}

instance abbrev pub bare : Derived Rset
bare = record { base = λ s. s; with_base = λ s f. f }

-- a partition of pane 0 that tells n
abbrev pub part : ℕ → Rset
part n = Rset.create 1 0 n

abbrev pub start : WlqEmitter Rset
start = create 2 2

abbrev pub update : Bool → Task Rset
update f = record {
  task_type = TaskType.win_update;
  p1 = part 1;
  p2 = part 1;
  win_id = 0;
  finalize = f;
}

-- the end of a run, and what was sent: the workers, and whether the task finalizes its window
abbrev run : List (Input Rset) → WlqEmitter Rset → Option (WlqEmitter Rset × List (ℕ × Bool))
run [] e = some (e, [])
run (i ∷ is) e =
    and_then (svc 2 Rset.create 1 1 i e)
      (λ r. and_then (run is r.0) (λ q. some (q.0, map (λ m. (m.0, m.1.finalize)) r.1 ++ q.1)))

abbrev seen : Option (WlqEmitter Rset × List (ℕ × Bool)) → List (ℕ × Bool) × Bool × ℕ × ℕ
seen none = ([], false, 0, 0)
seen (some r) = (r.1, r.0.wlq_terminated, r.0.first_win_id, r.0.n_pendingtasks)

-- Two partitions of pane 0 of which the second tells the number: worker 1 gets both in turn, with the
-- second task it finalizes window 0. The window leaves the deque with the next results set only, and the
-- second EOS ends the stage.
whole_run :
    seen (
      run
        (Input.results (part 0)
          ∷ Input.results (part 2)
          ∷ Input.feedback 1 (update false)
          ∷ Input.feedback 1 (update true)
          ∷ Input.eos
          ∷ Input.eos
          ∷ [])
        start)
    ≡ ((1, false) ∷ (1, true) ∷ [], true, 0, 0)
unfolding svc handle_results arrive join_windows grow new_descrs new_descr local_id first_win
    last_win ceil_div get_num_idle_workers count_idle is_idle get_wtasks_to_schedule phase
    update_task merge_task split_last make_update make_merge to_finalize sum_ins send_all
    select_idle_worker find_idle send_task mark at_descr begin_update send_to drop_front drop_closed
    handle_feedback complete_by complete_update complete_merge increment_completed_task worker_back
    send_one terminate check_termination wake_all eosnotify create last_activated enqueue
    update_count note_count Rset.create
whole_run = refl

pub named : (j : ℕ) → (bare.base (Rset.create 1 j 1)).id ≡ j
unfolding Rset.create
named j = refl

-- pane 0 in one partition, which is all of window 0
pub part-Expected : Expected 2 Rset.create 1 1 (λ _. 0) start (part 1)
unfolding create Rset.create first_win last_win ceil_div grow new_descrs new_descr local_id sum_ins
    update_count note_count
part-Expected = record {
  start = omega arith;
  small = omega arith;
  opened = λ m ge le lt. absurd (omega (arith, lt));
  promised = λ m wd ge le at c e. promised m wd at c e;
}
  where
    promised :
        (m : ℕ) (wd : WinDescr Rset)
        → get_or (grow Rset.create 1 1 0 0 []) m none ≡ some wd
        → (c : ℕ) → sum_ins (update_count wd (part 1)).cnt_ins ≡ some c
        → 0 < c
    promised zero wd at c e =
        let x : WinDescr Rset = new_descr Rset.create 0 1 0 in
        let told : some 1 ≡ some c =
          subst (λ z. sum_ins (update_count z (part 1)).cnt_ins ≡ some c)
            (sym (some-injective x wd at)) e in
        omega (arith, some-injective 1 c told)
    promised (suc m) wd at c e = absurd (cc)

svc-IsRunning_example :
    (r : WlqEmitter Rset × List (ℕ × Task Rset)) × (svc 2 Rset.create 1 1
        (Input.results (part 1))
        start
      ≡ some r)
    × IsRunning 2
        (one_more
          (first_win 1 1 (bare.base (part 1)).id)
          (last_win 1 (bare.base (part 1)).id)
          (λ _. 0))
        r.0
        (at_rest (hand_out r.1 (taken_back (Input.results (part 1)) (no_tasks Rset 2))))
    × (start.wlq_terminated ≡ false
        → r.0.wlq_terminated ≡ true
        → IsFinished r.0.descr_set
            (hand_out r.1 (taken_back (Input.results (part 1)) (no_tasks Rset 2))))
svc-IsRunning_example =
    svc-IsRunning 2 Rset.create 1 1 (omega arith) (omega arith) named (λ _. 0)
      (one_more (first_win 1 1 (bare.base (part 1)).id) (last_win 1 (bare.base (part 1)).id)
        (λ _. 0))
      start (no_tasks Rset 2) (Input.results (part 1))
      (Comes.from_plq (λ _. 0) start (no_tasks Rset 2) (part 1) part-Expected)
      (create-IsRunning Rset 2 2 (omega arith))

Reachable-svc_example :
    (r : WlqEmitter Rset × List (ℕ × Task Rset)) × (svc 2 Rset.create 1 1
        (Input.results (part 1))
        start
      ≡ some r)
    × Reachable 2 2 Rset.create 1 1
        (one_more
          (first_win 1 1 (bare.base (part 1)).id)
          (last_win 1 (bare.base (part 1)).id)
          (λ _. 0))
        r.0
        (hand_out r.1 (taken_back (Input.results (part 1)) (no_tasks Rset 2)))
    × (start.wlq_terminated ≡ false
        → r.0.wlq_terminated ≡ true
        → IsFinished r.0.descr_set
            (hand_out r.1 (taken_back (Input.results (part 1)) (no_tasks Rset 2))))
Reachable-svc_example =
    Reachable-svc 2 2 Rset.create 1 1 (omega arith) (omega arith) (omega arith) named (λ _. 0)
      (one_more (first_win 1 1 (bare.base (part 1)).id) (last_win 1 (bare.base (part 1)).id)
        (λ _. 0))
      start (no_tasks Rset 2) (Input.results (part 1)) Reachable.started
      (Comes.from_plq (λ _. 0) start (no_tasks Rset 2) (part 1) part-Expected)
