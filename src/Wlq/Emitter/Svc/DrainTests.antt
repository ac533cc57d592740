-- ===== src/Wlq/Emitter/Svc/DrainTests.antt =====
-- A short run of the WLQ stage to its end, with two workers and windows of one pane.
use elastic_ppq.Common.{
  ℕ, ◌+◌, ◌<◌, ◌≡◌, refl, ◌↔◌, true, false, List, [], ◌∷◌, Option, none, some, arith, get_or,
}
use elastic_ppq.Rset.{Rset}
use elastic_ppq.Rset
use elastic_ppq.Wlq.Pool.{
  worker_back, send_to, wake_all, check_termination, last_activated, get_num_idle_workers,
  count_idle, is_idle, select_idle_worker, find_idle,
}
use elastic_ppq.Wlq.Emitter.{
  Task, sum_ins, to_finalize, begin_update, split_last, make_update, update_task, merge_task, phase,
  get_wtasks_to_schedule, new_descr, note_count, update_count, enqueue,
}
use elastic_ppq.Wlq.Emitter.Svc.{
  create, WlqEmitter, Input, local_id, at_descr, mark, send_task, terminate, eosnotify,
  handle_feedback, complete_by, send_one, svc, handle_results, arrive, join_windows, grow,
  new_descrs, send_all, drop_front, drop_closed,
}
use elastic_ppq.Wlq.Emitter.Svc.Draining.{Drains}
use elastic_ppq.Wlq.Emitter.Svc.Ended.{Undisturbed, Undisturbed-terminated}
use elastic_ppq.Wlq.Emitter.Svc.Reached.{no_tasks}
use elastic_ppq.Wlq.Emitter.Svc.Arriving.{one_more}
use elastic_ppq.Panes.{first_win, last_win, ceil_div}
use elastic_ppq.Wlq.Emitter.Svc.Feeding.{remaining}
use elastic_ppq.Wlq.Emitter.Svc.Tests.{bare, part, update, named, start, part-Expected}
use elastic_ppq.Wlq.Emitter.Svc.Running.{Comes}

-- One results set comes, which is all of window 0, and then the first EOS.
abbrev one_sent : WlqEmitter Rset
one_sent = record {
  descr_set = [];
  first_win_id = 1;
  pool = record {
    nw_wlq = 2;
    last_w = 1;
    worker_ready = true ∷ false ∷ [];
    activated_worker = true ∷ true ∷ [];
    n_ready_workers = 1;
  };
  n_pendingtasks = 0;
  eos_received = 0;
  wlq_terminated = false;
}

abbrev first_eos : WlqEmitter Rset
first_eos = record one_sent { eos_received = 1 }

abbrev done : WlqEmitter Rset
done = record one_sent {
  pool = record one_sent.pool { worker_ready = true ∷ true ∷ []; n_ready_workers = 2 };
  eos_received = 2;
  wlq_terminated = true;
}

abbrev one_task : List (Option (Task Rset))
one_task = none ∷ some (update true) ∷ []

abbrev all_free : List (Option (Task Rset))
all_free = none ∷ none ∷ []

abbrev once : ℕ → ℕ
once =
    one_more (first_win 1 1 (bare.base (part 1)).id) (last_win 1 (bare.base (part 1)).id) (λ _. 0)

first_sent :
    svc 2 Rset.create 1 1 (Input.results (part 1)) start ≡ some (one_sent, (1, update true) ∷ [])
unfolding svc handle_results arrive join_windows grow new_descrs new_descr local_id first_win
    last_win ceil_div get_num_idle_workers count_idle is_idle get_wtasks_to_schedule phase
    update_task merge_task split_last make_update to_finalize sum_ins send_all select_idle_worker
    find_idle send_task mark at_descr begin_update send_to drop_front drop_closed create
    last_activated enqueue update_count note_count Rset.create
first_sent = refl

first_eos-svc : svc 2 Rset.create 1 1 Input.eos one_sent ≡ some (first_eos, [])
unfolding svc eosnotify terminate check_termination
first_eos-svc = refl

first_eos-Undisturbed : Undisturbed 2 2 Rset.create 1 1 once first_eos one_task
first_eos-Undisturbed =
    Undisturbed.stepped once once one_sent one_task Input.eos (first_eos, [])
      (Undisturbed.stepped (λ _. 0) once start (no_tasks Rset 2) (Input.results (part 1))
        (one_sent, (1, update true) ∷ []) Undisturbed.started
        (Comes.from_plq (λ _. 0) start (no_tasks Rset 2) (part 1) part-Expected) tt first_sent)
      (Comes.at_end once one_sent one_task) tt first_eos-svc

one_return : Drains 2 1 (eosnotify 2 first_eos) one_task done all_free
unfolding eosnotify terminate check_termination handle_feedback complete_by worker_back
    get_wtasks_to_schedule phase send_one wake_all
one_return =
    Drains.returned 0 (eosnotify 2 first_eos) one_task 1 (update true) (part 1) (done, []) done
      all_free (omega arith) refl refl (Drains.nothing done all_free)

Undisturbed-terminated_example :
    (1 + remaining done all_free ≡ remaining first_eos one_task)
    × (0 < remaining done all_free
        → (w : ℕ) × (t : Task Rset) × (w < 2)
          × (get_or all_free w none ≡ some t)
          × ((m : Rset)
              → (r : WlqEmitter Rset × List (ℕ × Task Rset)) × (handle_feedback 2 w
                    (record t { p1 = m })
                    done
                  ≡ some r)))
    × ((done.wlq_terminated ≡ true) ↔ (remaining done all_free ≡ 0))
Undisturbed-terminated_example =
    Undisturbed-terminated 2 2 Rset.create 1 1 (omega arith) (omega arith) (omega arith)
      (omega arith) named once first_eos one_task 1 done all_free first_eos-Undisturbed refl refl
      one_return
