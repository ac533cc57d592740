-- ===== src/Wlq/Worker.antt =====
-- `WLQ_Worker::svc` of include/wlq.hpp. The results sets are objects that the windows share, with
-- reference counters: a store has them by address, and a task has their addresses. `none` is the use of
-- an object that is deleted. The worker's statistics but the two counters of tasks are left out.
pub mod Counted
pub mod Uses
mod Tests
use elastic_ppq.Common.{
  ℕ, ◌+◌, ◌-◌, ◌%◌, ◌^◌, Bool, true, false, ◌&&◌, Option, none, some, ◌==◌, and_then, if◌then◌else◌,
}
use elastic_ppq.ResultsSet.{Derived, ResultsSet}
use elastic_ppq.Wlq.Emitter.{TaskType, Task}

-- The objects by address; the next one is made at `next`.
pub record Store (S : Type 0) : Type 0 where
  pub next : ℕ
  pub cell : ℕ → Option S

abbrev pub put : {S : Type 0} → ℕ → Option S → Store S → Store S
put r o st = record st { cell = λ q. if q == r then o else st.cell q }

-- the private counters of the worker
pub record WlqWorker : Type 0 where
  pub rcv_wtasks : ℕ
  pub rcv_win_finalized : ℕ

-- What a call leaves: the worker, the objects, the task that goes back to the emitter, and the window
-- that goes to the collector.
pub record Outcome (S : Type 0) : Type 0 where
  pub worker : WlqWorker
  pub store : Store S
  pub back : Task ℕ
  pub result : Option ℕ

unfoldable pub is_update : TaskType → Bool
is_update TaskType.win_update = true
is_update TaskType.merge = false

module _ {S : Type 0} ⦃b : Derived S⦄ where
  -- the object after `decreaseRefCounter`, and deleted if the counter was 1
  unfoldable pub released : S → Option S
  released s =
      if (b.base s).ref_counter == 1
      then none
      else some (
          b.with_base s
            (record (b.base s) { ref_counter = ((b.base s).ref_counter + 2 ^ 64 - 1) % 2 ^ 64 }))

  unfoldable pub release : ℕ → Store S → Option (Store S)
  release r st = and_then (st.cell r) (λ s. some (put r (released s) st))

  module _ (W : Type 0) ⦃q : ResultsSet W S⦄ where
    -- p1 takes p2 in
    unfoldable pub add_set : ℕ → ℕ → ℕ → Store S → Option (Store S)
    add_set now p1 p2 st =
        and_then (st.cell p1) (λ s1.
          and_then (st.cell p2) (λ s2. some (put p1 (some (q.add_compute_set s1 s2 now)) st)))

    -- the two branches: the objects afterwards, and the first results set of the task
    unfoldable pub execute : ℕ → TaskType → ℕ → ℕ → Store S → Option (Store S × ℕ)
    execute now TaskType.win_update p1 p2 st =
        and_then (add_set now p1 p2 st) (λ st1. and_then (release p2 st1) (λ st2. some (st2, p1)))
    execute now TaskType.merge p1 p2 st =
        let p3 = st.next in
        let st0 : Store S = put p3 (some (q.create 1 0 1)) (record st { next = p3 + 1 }) in
        and_then (add_set now p3 p1 st0) (λ st1. and_then (add_set now p3 p2 st1) (λ st2.
          and_then (release p1 st2) (λ st3. and_then (release p2 st3) (λ st4. some (st4, p3)))))

    unfoldable pub svc : ℕ → Task ℕ → WlqWorker → Store S → Option (Outcome S)
    svc now t w st =
        let last = is_update t.task_type && t.finalize in
        and_then (execute now t.task_type t.p1 t.p2 st) (λ r. some (record {
          worker = record {
            rcv_wtasks = w.rcv_wtasks + 1;
            rcv_win_finalized = if last then w.rcv_win_finalized + 1 else w.rcv_win_finalized;
          };
          store = r.0;
          back = record t { p1 = r.1 };
          result = if last then some r.1 else none;
        }))
