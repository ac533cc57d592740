-- ===== src/Wlq/Emitter/Svc/EndTests.antt =====
-- Tests of the end of the WLQ stage, with two workers and windows of one pane.
use elastic_ppq.Common.{
  ℕ, zero, suc, ◌≤◌, ◌<◌, ◌≡◌, ◌≢◌, refl, Bool, true, false, List, [], ◌∷◌, Option, none, some,
  arith, get_or, length, and_then,
}
use mathlib.Core.Option.{some-injective}
use elastic_ppq.Rset.{Rset}
use elastic_ppq.Rset
use elastic_ppq.Controller.{Reconf, is_reconf}
use elastic_ppq.Wlq.Pool
use elastic_ppq.Wlq.Pool.{
  worker_back, send_to, wake_all, check_termination, last_activated, deactivate,
  get_num_idle_workers, count_idle, is_idle, select_idle_worker, find_idle,
}
use elastic_ppq.Wlq.Emitter.{
  TaskType, Task, WinDescr, sum_ins, to_finalize, increment_completed_task, begin_update,
  complete_update, split_last, make_update, update_task, merge_task, phase, get_wtasks_to_schedule,
}
use elastic_ppq.Wlq.Emitter.Svc.{
  WlqEmitter, Input, local_id, at_descr, mark, send_task, terminate, eosnotify, handle_feedback,
  complete_by, send_one, svc, handle_reconf,
}
use elastic_ppq.Wlq.Emitter.Svc.Assigning.{at_rest, hand_out}
use elastic_ppq.Wlq.Emitter.Svc.Draining.{Drains}
use elastic_ppq.Wlq.Emitter.Svc.Invariant.{IsRunning}
use elastic_ppq.Wlq.Emitter.Svc.Places.{is_none}
use elastic_ppq.Wlq.Emitter.Svc.Steady.{IsSteady, svc-IsSteady}
use elastic_ppq.Wlq.Emitter.Svc.Tests.{bare, part, update, named}
use elastic_ppq.Wlq.Emitter.Svc.Running.{taken_back, Comes}
use elastic_ppq.Controller.Agree.{obey}
use elastic_ppq.Plq.Sched.{has}
use elastic_ppq.Plq.Sched.Stopping.{off}
use elastic_ppq.Wlq.Emitter.Svc.Traffic.{load, live, final, odd, updating}
use elastic_ppq.Wlq.Emitter.Svc.Measures.{measures_other}

-- Window 0 with two partitions: worker 1 updates with the one, the other waits.
abbrev busy_window : WinDescr Rset
busy_window = record {
  w = part 1;
  first_pane_id = 0;
  cnt_ins = some 2 ∷ [];
  cnt_tasks_com = 0;
  pending_queue = part 2 ∷ [];
  is_busy = true;
}

abbrev tasks : List (Option (Task Rset))
tasks = none ∷ some (update false) ∷ []

-- one EOS has come
abbrev near_end : WlqEmitter Rset
near_end = record {
  descr_set = some busy_window ∷ [];
  first_win_id = 0;
  pool = record {
    nw_wlq = 2;
    last_w = 1;
    worker_ready = true ∷ false ∷ [];
    activated_worker = true ∷ true ∷ [];
    n_ready_workers = 1;
  };
  n_pendingtasks = 1;
  eos_received = 1;
  wlq_terminated = false;
}

abbrev two : ℕ → ℕ
two zero = 2
two (suc k) = 0

near_end-IsRunning : IsRunning 2 two near_end (at_rest tasks)
unfolding load live final odd updating sum_ins Rset.create
near_end-IsRunning = record {
  size = refl;
  windows = (
    record {
      named = refl;
      sum = refl;
      promise = λ n h. omega (arith, some-injective 2 n h);
      unsent = refl;
      alone = λ pos. absurd (omega (arith, pos));
      busy = refl;
      single = omega arith;
    },
    tt,
  );
  past = λ k lt. absurd (omega (arith, lt));
  future = λ k ge.
      let (x, y, _, _) = measures_other k (update false) (λ e. omega (arith, ge, e)) in
      record {
        none_arrived = later k ge;
        sent_loads = omega (arith, x);
        todo_loads = refl;
        finals = omega (arith, y);
      };
  bound = omega arith;
  tasks = refl;
  ready = refl;
  idle = idle;
  wide = refl;
  turn = omega arith;
  sane = (refl, refl);
  found = tt;
}
  where
    later : (k : ℕ) → 1 ≤ k → two k ≡ 0
    later zero ge = absurd (omega (arith, ge))
    later (suc k) ge = refl

    idle : (i : ℕ) → i < 2 → get_or (true ∷ false ∷ []) i false ≡ is_none (get_or tasks i none)
    idle zero lt = refl
    idle (suc zero) lt = refl
    idle (suc (suc i)) lt = absurd (omega (arith, lt))

near_end-IsSteady : IsSteady 2 near_end tasks
near_end-IsSteady = record {
  settled = λ all. absurd (omega (arith, all));
  working = working;
  staff = 0;
  in_range = omega arith;
  staffed = refl;
}
  where
    working : (i : ℕ) → get_or tasks i none ≢ none → get_or (true ∷ true ∷ []) i false ≡ true
    working zero h = refl
    working (suc zero) h = refl
    working (suc (suc i)) h = absurd (h refl)

-- The other partition is sent with the first return, and finalizes the window.
abbrev nearer_end : WlqEmitter Rset
nearer_end = record near_end { descr_set = none ∷ []; n_pendingtasks = 0; eos_received = 2 }

abbrev last_task : Task Rset
last_task = record {
  task_type = TaskType.win_update;
  p1 = part 1;
  p2 = part 2;
  win_id = 0;
  finalize = true;
}

abbrev at_the_end : WlqEmitter Rset
at_the_end = record nearer_end {
  pool = record near_end.pool { worker_ready = true ∷ true ∷ []; n_ready_workers = 2 };
  wlq_terminated = true;
}

two_returns : Drains 2 2 (eosnotify 2 near_end) tasks at_the_end (none ∷ none ∷ [])
unfolding eosnotify terminate check_termination handle_feedback complete_by local_id at_descr
    complete_update increment_completed_task worker_back get_wtasks_to_schedule phase update_task
    merge_task split_last make_update to_finalize sum_ins send_one send_task mark begin_update
    send_to wake_all Rset.create
two_returns =
    Drains.returned 1 (eosnotify 2 near_end) tasks 1 (update false) (part 1)
      (nearer_end, (1, last_task) ∷ []) at_the_end (none ∷ none ∷ []) (omega arith) refl refl
      (Drains.returned 0 nearer_end (none ∷ some last_task ∷ []) 1 last_task (part 1)
        (at_the_end, []) at_the_end (none ∷ none ∷ []) (omega arith) refl refl
        (Drains.nothing at_the_end (none ∷ none ∷ [])))

-- The controller takes worker 0 away, which has no task.
svc-IsSteady_example :
    (r : WlqEmitter Rset × List (ℕ × Task Rset)) × (svc 2 Rset.create 1 1
        (Input.command (Reconf.remove (0 ∷ [])))
        near_end
      ≡ some r)
    × IsRunning 2 two r.0
        (at_rest (hand_out r.1 (taken_back (Input.command (Reconf.remove (0 ∷ []))) tasks)))
    × IsSteady 2 r.0 (hand_out r.1 (taken_back (Input.command (Reconf.remove (0 ∷ []))) tasks))
unfolding obey off has is_reconf
svc-IsSteady_example =
    svc-IsSteady 2 Rset.create 1 1 (omega arith) (omega arith) named two two near_end tasks
      (Input.command (Reconf.remove (0 ∷ [])))
      (Comes.from_controller two near_end tasks (Reconf.remove (0 ∷ [])) refl (refl, refl, tt))
      (working, 1, omega arith, refl) near_end-IsRunning near_end-IsSteady
  where
    working : (i : ℕ) → get_or tasks i none ≢ none → get_or (false ∷ true ∷ []) i false ≡ true
    working zero h = absurd (h refl)
    working (suc zero) h = refl
    working (suc (suc i)) h = absurd (h refl)

-- the tasks sent last, the results sets that wait, the EOS that came, the ready workers, and the end
abbrev end_state : Option (WlqEmitter Rset × List (ℕ × Task Rset)) → ℕ × ℕ × ℕ × ℕ × Bool
end_state none = (0, 0, 0, 0, false)
end_state (some r) =
    (length r.1, r.0.n_pendingtasks, r.0.eos_received, r.0.pool.n_ready_workers, r.0.wlq_terminated)

-- Worker 1 is taken away while it has a task, then the EOS and its feedback come. A results set waits and
-- worker 0 is idle, but no task is sent and the EOS is not propagated.
left_over :
    end_state (
      and_then (svc 2 Rset.create 1 1 (Input.command (Reconf.remove (1 ∷ []))) near_end) (λ r.
        and_then
          (svc 2 Rset.create 1 1 Input.eos r.0)
          (λ s. svc 2 Rset.create 1 1 (Input.feedback 1 (update false)) s.0)))
    ≡ (0, 1, 2, 2, false)
unfolding svc handle_reconf Pool.remove_workers deactivate eosnotify terminate check_termination
    handle_feedback complete_by local_id at_descr complete_update increment_completed_task
    worker_back get_wtasks_to_schedule phase update_task merge_task split_last make_update
    to_finalize sum_ins
left_over = refl
