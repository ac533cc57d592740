-- ===== src/Wlq/Emitter/Svc.antt =====
-- `WLQ_Emitter::svc` and `eosnotify` of include/wlq.hpp: what the emitter does with a message of each of
-- its sources. `none` is `abort()` or the use of a null pointer; the pairs of the result are the workers
-- and the tasks that they are sent. Differences of identifiers wrap around at 2^64, counters do not get
-- that far. EOS was propagated to the workers when `wlq_terminated` is set; where a feedback does that,
-- the code's `svc` returns no value, and what it is taken for is not modelled.
pub mod Traffic
pub mod Measures
pub mod Choosing
pub mod Taking
pub mod Places
pub mod Invariant
pub mod Moved
pub mod Sending
pub mod Assigning
pub mod Searching
pub mod Back
pub mod Returning
pub mod Growing
pub mod Arriving
pub mod Joining
pub mod Commands
pub mod Feeding
pub mod Settling
pub mod Running
pub mod Steady
pub mod Draining
pub mod Ended
pub mod Reached
mod Tests
mod EndTests
mod DrainTests
use elastic_ppq.Common.{
  ℕ, zero, suc, ◌+◌, ◌-◌, ◌*◌, ◌%◌, ◌^◌, Bool, true, false, List, [], ◌∷◌, ◌++◌, Option, none, some,
  length, get_or, set, replicate, leb, and_then, if◌then◌else◌,
}
use elastic_ppq.ResultsSet.{Derived}
use elastic_ppq.Panes.{first_win, last_win}
use elastic_ppq.Controller.{Reconf}
use elastic_ppq.Wlq.Pool
use elastic_ppq.Wlq.Pool.{
  Pool, last_activated, select_idle_worker, get_num_idle_workers, send_to, worker_back, add_workers,
  check_termination,
}
use elastic_ppq.Wlq.Emitter.{
  TaskType, Task, WinDescr, begin_update, complete_update, complete_merge, new_descr, enqueue,
  get_wtasks_to_schedule,
}

pub record WlqEmitter (S : Type 0) : Type 0 where
  pub descr_set : List (Option (WinDescr S))
  pub first_win_id : ℕ
  pub pool : Pool
  pub n_pendingtasks : ℕ
  pub eos_received : ℕ
  pub wlq_terminated : Bool

-- The messages: a results set from the PLQ stage, a task that comes back from worker w, a command of the
-- elastic controller, and the EOS of a PLQ worker.
pub data Input (S : Type 0) : Type 0 where
  results : S → Input S
  feedback : ℕ → Task S → Input S
  command : Reconf → Input S
  eos : Input S

abbrev pub Step : Type 0 → Type 0
Step S = Option (WlqEmitter S × List (ℕ × Task S))

-- the place in the deque of a window
unfoldable pub local_id : ℕ → ℕ → ℕ
local_id first_win_id win_id = (win_id + 2 ^ 64 - first_win_id) % 2 ^ 64

module _ {S : Type 0} where
  unfoldable pub create : ℕ → ℕ → WlqEmitter S
  create num nw_wlq = record {
    descr_set = [];
    first_win_id = 0;
    pool = record {
      nw_wlq = nw_wlq;
      last_w = 0;
      worker_ready = replicate num true;
      activated_worker = last_activated num nw_wlq;
      n_ready_workers = num;
    };
    n_pendingtasks = 0;
    eos_received = 0;
    wlq_terminated = false;
  }

  -- a change of the descriptor at a place of the deque
  unfoldable pub at_descr :
      (WinDescr S → WinDescr S)
      → ℕ
      → List (Option (WinDescr S))
      → Option (List (Option (WinDescr S)))
  at_descr f i [] = none
  at_descr f zero (none ∷ l) = none
  at_descr f zero (some wd ∷ l) = some (some (f wd) ∷ l)
  at_descr f (suc i) (o ∷ l) = and_then (at_descr f i l) (λ r. some (o ∷ r))

  -- n new descriptors from the window `id` on
  unfoldable pub new_descrs : (ℕ → ℕ → ℕ → S) → ℕ → ℕ → ℕ → ℕ → List (Option (WinDescr S))
  new_descrs new_set wp sp id zero = []
  new_descrs new_set wp sp id (suc n) =
      some (new_descr new_set id wp (sp * id)) ∷ new_descrs new_set wp sp (id + 1) n

  -- the deque, made long enough for the window last_win
  unfoldable pub grow :
      (ℕ → ℕ → ℕ → S) → ℕ → ℕ → ℕ → ℕ → List (Option (WinDescr S)) → List (Option (WinDescr S))
  grow new_set wp sp first_win_id last l =
      l
      ++ new_descrs new_set wp sp (length l + first_win_id)
          (local_id first_win_id last + 1 - length l)

  -- the change of the window's descriptor when its task is sent
  unfoldable pub mark :
      TaskType → ℕ → List (Option (WinDescr S)) → Option (List (Option (WinDescr S)))
  mark TaskType.win_update i l = at_descr begin_update i l
  mark TaskType.merge i l = some l

  -- what `svc` and `sendTaskToWorker` do with a task and its worker
  unfoldable pub send_task : Task S → ℕ → WlqEmitter S → Option (WlqEmitter S)
  send_task t w e =
      let i = local_id e.first_win_id t.win_id in
      and_then (mark t.task_type i e.descr_set) (λ l. some (record e {
        descr_set = if t.finalize then set l i none else l;
        pool = send_to e.pool w;
        n_pendingtasks = e.n_pendingtasks - 1;
      }))

  -- the loop over the tasks that were found
  unfoldable pub send_all : ℕ → List (Task S) → WlqEmitter S → Step S
  send_all num [] e = some (e, [])
  send_all num (t ∷ ts) e = and_then (select_idle_worker num e.pool) (λ q.
      and_then (send_task t q.1 (record e { pool = q.0 }))
        (λ e'. and_then (send_all num ts e') (λ r. some (r.0, (q.1, t) ∷ r.1))))

  -- the loop that takes the finalized windows off the front
  unfoldable pub drop_closed : ℕ → List (Option (WinDescr S)) → ℕ × List (Option (WinDescr S))
  drop_closed first [] = (first, [])
  drop_closed first (none ∷ l) = drop_closed (first + 1) l
  drop_closed first (some wd ∷ l) = (first, some wd ∷ l)

  unfoldable pub drop_front : WlqEmitter S → WlqEmitter S
  drop_front e =
      let r = drop_closed e.first_win_id e.descr_set in
      record e { first_win_id = r.0; descr_set = r.1 }

  unfoldable pub terminate : ℕ → WlqEmitter S → WlqEmitter S
  terminate num e =
      let r = check_termination num e.eos_received e.n_pendingtasks e.pool in
      record e { pool = r.0; wlq_terminated = if r.1 then true else e.wlq_terminated }

  unfoldable pub eosnotify : ℕ → WlqEmitter S → WlqEmitter S
  eosnotify num e = terminate num (record e { eos_received = e.eos_received + 1 })

  unfoldable pub handle_reconf : Reconf → WlqEmitter S → Step S
  handle_reconf Reconf.no_reconf e = none
  handle_reconf (Reconf.add ws) e =
      and_then (add_workers (length ws) ws e.pool) (λ p. some (record e { pool = p }, []))
  handle_reconf (Reconf.remove ws) e =
      and_then (Pool.remove_workers (length ws) ws e.pool) (λ p. some (record e { pool = p }, []))

  -- what a task that is done changes in its window, by its type and whether it finalized the window
  unfoldable pub complete_by :
      TaskType → Bool → S → ℕ → List (Option (WinDescr S)) → Option (List (Option (WinDescr S)))
  complete_by TaskType.win_update false p1 i l = at_descr complete_update i l
  complete_by TaskType.win_update true p1 i l = some l
  complete_by TaskType.merge f p1 i l = at_descr (complete_merge p1) i l

module _ {S : Type 0} ⦃b : Derived S⦄ where
  -- the loop over n windows from place i on that a results set joins
  unfoldable pub join_windows :
      S → ℕ → ℕ → List (Option (WinDescr S)) → Option (List (Option (WinDescr S)))
  join_windows p zero zero l = some l
  join_windows p zero (suc n) [] = none
  join_windows p zero (suc n) (none ∷ l) = none
  join_windows p zero (suc n) (some wd ∷ l) =
      and_then (join_windows p zero n l) (λ r. some (some (enqueue p wd) ∷ r))
  join_windows p (suc i) n [] = if leb n 0 then some [] else none
  join_windows p (suc i) n (o ∷ l) = and_then (join_windows p i n l) (λ r. some (o ∷ r))

  -- the two loops that a results set of the PLQ stage starts with
  unfoldable pub arrive : (ℕ → ℕ → ℕ → S) → ℕ → ℕ → S → WlqEmitter S → Option (WlqEmitter S)
  arrive new_set wp sp p e =
      let q = (b.base p).id in
      let from = local_id e.first_win_id (first_win wp sp q) in
      let n = local_id e.first_win_id (last_win sp q) + 1 - from in
      and_then
        (join_windows p from n (grow new_set wp sp e.first_win_id (last_win sp q) e.descr_set))
        (λ l. some (record e { descr_set = l; n_pendingtasks = e.n_pendingtasks + n }))

  unfoldable pub handle_results : ℕ → (ℕ → ℕ → ℕ → S) → ℕ → ℕ → S → WlqEmitter S → Step S
  handle_results num new_set wp sp p e = and_then (arrive new_set wp sp p e) (λ a.
      let r = get_wtasks_to_schedule (get_num_idle_workers num a.pool) a.descr_set in
      and_then (send_all num r.1 (record a { descr_set = r.0 })) (λ s. some (drop_front s.0, s.1)))

  -- the task that was found for the worker, if one was
  unfoldable pub send_one : ℕ → List (Task S) → WlqEmitter S → Step S
  send_one w [] e = some (e, [])
  send_one w (t ∷ ts) e = and_then (send_task t w e) (λ e'. some (e', (w, t) ∷ []))

  unfoldable pub handle_feedback : ℕ → ℕ → Task S → WlqEmitter S → Step S
  handle_feedback num w t e =
      and_then
        (complete_by t.task_type t.finalize t.p1 (local_id e.first_win_id t.win_id) e.descr_set)
        (λ l.
          let back = record e { descr_set = l; pool = worker_back e.pool w } in
          let r = get_wtasks_to_schedule 1 l in
          and_then
            (if get_or e.pool.activated_worker w false
              then send_one w r.1 (record back { descr_set = r.0 })
              else some (back, []))
            (λ s. some (terminate num s.0, s.1)))

  unfoldable pub svc : ℕ → (ℕ → ℕ → ℕ → S) → ℕ → ℕ → Input S → WlqEmitter S → Step S
  svc num new_set wp sp (Input.results p) e = handle_results num new_set wp sp p e
  svc num new_set wp sp (Input.feedback w t) e = handle_feedback num w t e
  svc num new_set wp sp (Input.command r) e = handle_reconf r e
  svc num new_set wp sp Input.eos e = some (eosnotify num e, [])
