-- ===== src/Wlq/Emitter.antt =====
-- `WLQ_Task_t` and `class WLQ_Emitter` of include/wlq.hpp: the window descriptors, the choice of tasks
-- and workers, and the messages of the three sources. `num` is NUM_WORKER_THREADS. A task that is sent
-- to a worker is an output; `none` for a whole step is `abort()`. A counter of -1 is `none`.
pub mod Tasks
pub mod Finalize
pub mod Svc
mod Tests
use elastic_ppq.Common.{
  ℕ, zero, suc, ◌+◌, ◌-◌, ◌*◌, ◌%◌, ◌^◌, Bool, true, false, not, ◌&&◌, List, [], ◌∷◌, ◌++◌, Option,
  none, some, map, length, get_or, set, take, drop, replicate, ltb, leb, ◌==◌, and_then,
  if◌then◌else◌,
}
use elastic_ppq.Rset.{Rset}
use elastic_ppq.ResultsSet.{Derived}
use elastic_ppq.Panes.{first_win, last_win}

-- `enum type_wtask_t`
pub data TaskType : Type 0 where
  win_update merge : TaskType

-- `struct WLQ_Task_t`
pub record Task (S : Type 0) : Type 0 where
  pub task_type : TaskType
  pub p1 : S
  pub p2 : S
  pub win_id : ℕ
  pub finalize : Bool

-- `struct Win_Descr_t`
pub record WinDescr (S : Type 0) : Type 0 where
  pub w : S
  pub first_pane_id : ℕ
  pub cnt_ins : List (Option ℕ)
  pub cnt_tasks_com : ℕ
  pub pending_queue : List S
  pub is_busy : Bool

-- the loop of `toFinalize` over the panes of a window; `none` if a number of partitions is not known
unfoldable pub sum_ins : List (Option ℕ) → Option ℕ
sum_ins [] = some 0
sum_ins (none ∷ l) = none
sum_ins (some n ∷ l) = and_then (sum_ins l) (λ m. some (n + m))

abbrev pub is_next : ℕ → Option ℕ → Bool
is_next n none = false
is_next n (some sum) = sum == n + 1

module _ {S : Type 0} where
  unfoldable pub to_finalize : WinDescr S → Bool
  to_finalize wd = is_next wd.cnt_tasks_com (sum_ins wd.cnt_ins)

  unfoldable pub increment_completed_task : WinDescr S → WinDescr S
  increment_completed_task wd = record wd { cnt_tasks_com = wd.cnt_tasks_com + 1 }

  -- what `svc` does with the window of a WIN_UPDATE task that it sends
  unfoldable pub begin_update : WinDescr S → WinDescr S
  begin_update wd = record wd { is_busy = true }

  -- what `svc` does with the window of a WIN_UPDATE task that is done and did not finalize it
  unfoldable pub complete_update : WinDescr S → WinDescr S
  complete_update wd = increment_completed_task (record wd { is_busy = false })

  -- what `svc` does with the window of a MERGE task that is done: p1 is the merged results set
  unfoldable pub complete_merge : S → WinDescr S → WinDescr S
  complete_merge p1 wd =
      increment_completed_task (record wd { pending_queue = wd.pending_queue ++ p1 ∷ [] })

  abbrev pub push_front : S → Option (List S × S) → List S × S
  push_front s none = ([], s)
  push_front s (some (rest, l)) = (s ∷ rest, l)

  -- `back` and `pop_back`
  unfoldable pub split_last : List S → Option (List S × S)
  split_last [] = none
  split_last (s ∷ ss) = some (push_front s (split_last ss))

  -- the constructor of a descriptor, given that of the results sets
  unfoldable pub new_descr : (ℕ → ℕ → ℕ → S) → ℕ → ℕ → ℕ → WinDescr S
  new_descr new_set id wp first = record {
    w = new_set 1 id 1;
    first_pane_id = first;
    cnt_ins = replicate wp none;
    cnt_tasks_com = 0;
    pending_queue = [];
    is_busy = false;
  }

-- the counter of the pane is set once, by the first partition that knows it
unfoldable pub note_count : Option ℕ → ℕ → Option ℕ
note_count none n = if ltb 0 n then some n else none
note_count (some m) n = some m

module _ {S : Type 0} ⦃b : Derived S⦄ where
  unfoldable pub update_count : WinDescr S → S → WinDescr S
  update_count wd p =
      let lp_id : ℕ = ((b.base p).id + 2 ^ 64 - wd.first_pane_id) % 2 ^ 64 in
      record wd {
        cnt_ins =
            set wd.cnt_ins lp_id
              (note_count (get_or wd.cnt_ins lp_id none) (b.base p).no_instances);
      }

  -- A results set that joins a window: what the loop over its windows does with the descriptor.
  unfoldable pub enqueue : S → WinDescr S → WinDescr S
  enqueue p wd =
      let counted = update_count wd p in
      record counted { pending_queue = counted.pending_queue ++ p ∷ [] }

  -- a WIN_UPDATE task with the last results set of the queue
  unfoldable pub make_update : WinDescr S → List S × S → WinDescr S × Task S
  make_update wd (rest, p) = (
    record wd { pending_queue = rest },
    record {
      task_type = TaskType.win_update;
      p1 = wd.w;
      p2 = p;
      win_id = (b.base wd.w).id;
      finalize = to_finalize wd;
    },
  )

  -- Phase 1 on one descriptor: a WIN_UPDATE task, if there is one
  unfoldable pub update_task : WinDescr S → Option (WinDescr S × Task S)
  update_task wd =
      if wd.is_busy
      then none
      else and_then (split_last wd.pending_queue) (λ q. some (make_update wd q))

  -- a MERGE task with the last results sets of the queue
  unfoldable pub make_merge : WinDescr S → S → List S × S → WinDescr S × Task S
  make_merge wd p1 (rest, p2) = (
    record wd { pending_queue = rest },
    record {
      task_type = TaskType.merge;
      p1 = p1;
      p2 = p2;
      win_id = (b.base wd.w).id;
      finalize = false;
    },
  )

  -- Phase 2 on one descriptor: a MERGE task, if it has two results sets
  unfoldable pub merge_task : WinDescr S → Option (WinDescr S × Task S)
  merge_task wd =
      and_then (split_last wd.pending_queue)
        (λ q. and_then (split_last q.0) (λ q'. some (make_merge wd q.1 q')))

  -- a task that was found, or none, and the loop over the other descriptors
  abbrev pub found :
      WinDescr S
      → Option (WinDescr S × Task S)
      → List (Option (WinDescr S)) × List (Task S)
      → List (Option (WinDescr S)) × List (Task S)
      → List (Option (WinDescr S)) × List (Task S)
  found wd none others fewer = (some wd ∷ others.0, others.1)
  found wd (some (wd', t)) others fewer = (some wd' ∷ fewer.0, t ∷ fewer.1)

  -- the loop of a phase over the descriptors, up to n tasks
  unfoldable pub phase :
      (WinDescr S → Option (WinDescr S × Task S))
      → ℕ
      → List (Option (WinDescr S))
      → List (Option (WinDescr S)) × List (Task S)
  phase f zero l = (l, [])
  phase f (suc n) [] = ([], [])
  phase f (suc n) (none ∷ l) = let rest = phase f (suc n) l in (none ∷ rest.0, rest.1)
  phase f (suc n) (some wd ∷ l) =
      let others = phase f (suc n) l in let fewer = phase f n l in found wd (f wd) others fewer

  unfoldable pub get_wtasks_to_schedule :
      ℕ → List (Option (WinDescr S)) → List (Option (WinDescr S)) × List (Task S)
  get_wtasks_to_schedule n_tasks l =
      let one = phase update_task n_tasks l in
      let two = phase merge_task (n_tasks - length one.1) one.0 in (two.0, one.1 ++ two.1)
