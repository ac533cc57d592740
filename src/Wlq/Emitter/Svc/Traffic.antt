-- ===== src/Wlq/Emitter/Svc/Traffic.antt =====
-- What the proofs about `WLQ_Emitter::svc` keep of the tasks: those that the workers have, one at most
-- each, those that are found and not sent yet, and how both stand to the windows.
use elastic_ppq.Common.{
  ℕ, zero, suc, ◌+◌, ◌≤◌, ◌<◌, ◌≡◌, ◌≢◌, sym, ◌∙◌, subst, Bool, not, ◌&&◌, List, [], ◌∷◌, Option,
  none, some, arith, get_or, set, length, ◌==◌, if◌then◌else◌,
}
use elastic_ppq.ResultsSet.{Derived}
use elastic_ppq.Wlq.Emitter.{TaskType, Task, WinDescr, sum_ins}

-- The results sets that a task has taken out of a queue, and those that it brings back.
abbrev pub takes : TaskType → ℕ
takes TaskType.win_update = 1
takes TaskType.merge = 2

abbrev pub returns : TaskType → ℕ
returns TaskType.win_update = 0
returns TaskType.merge = 1

abbrev pub update_by : TaskType → ℕ
update_by TaskType.win_update = 1
update_by TaskType.merge = 0

pub update_by_small : (c : TaskType) → update_by c ≤ 1
update_by_small TaskType.win_update = omega arith
update_by_small TaskType.merge = omega arith

abbrev pub odd_by : TaskType → Bool → ℕ
odd_by TaskType.win_update f = 0
odd_by TaskType.merge f = if f then 1 else 0

-- The tasks that workers have, by worker, and those that are found and not sent yet.
pub record Traffic (S : Type 0) : Type 0 where
  pub sent : List (Option (Task S))
  pub todo : List (Task S)

module _ {S : Type 0} where
  abbrev pub of_maybe : (Task S → ℕ) → Option (Task S) → ℕ
  of_maybe f none = 0
  of_maybe f (some t) = f t

  -- a measure of the tasks that workers have
  abbrev pub held : (Task S → ℕ) → List (Option (Task S)) → ℕ
  held f [] = 0
  held f (o ∷ ws) = of_maybe f o + held f ws

  -- a measure of the tasks of a list
  abbrev pub total : (Task S → ℕ) → List (Task S) → ℕ
  total f [] = 0
  total f (t ∷ ts) = f t + total f ts

  -- of the tasks of window k: the results sets, the updates, the tasks that finalize it, and the others
  unfoldable pub load : ℕ → Task S → ℕ
  load k t = if t.win_id == k then takes t.task_type else 0

  unfoldable pub updating : ℕ → Task S → ℕ
  updating k t = if t.win_id == k then update_by t.task_type else 0

  unfoldable pub final : ℕ → Task S → ℕ
  final k t = if (t.win_id == k) && t.finalize then 1 else 0

  unfoldable pub live : ℕ → Task S → ℕ
  live k t = if (t.win_id == k) && not t.finalize then 1 else 0

  -- a MERGE task that finalizes its window, which there is not
  unfoldable pub odd : Task S → ℕ
  odd t = odd_by t.task_type t.finalize

  -- Two states of the traffic that no window k tells apart.
  pub record Same (a c : Traffic S) (k : ℕ) : Type 0 where
    pub loads : held (load k) a.sent ≡ held (load k) c.sent
    pub lives : held (live k) a.sent ≡ held (live k) c.sent
    pub finals : held (final k) a.sent ≡ held (final k) c.sent
    pub next : total (load k) a.todo ≡ total (load k) c.todo
    pub last : total (final k) a.todo ≡ total (final k) c.todo
    pub updates : held (updating k) a.sent ≡ held (updating k) c.sent
    pub next_updates : total (updating k) a.todo ≡ total (updating k) c.todo

  -- Of a window that is not open, no worker has a task that comes back to it, and none is found.
  pub record Closed (a : Traffic S) (k : ℕ) : Type 0 where
    pub lives : held (live k) a.sent ≡ 0
    pub loads : total (load k) a.todo ≡ 0

  pub Closed-same : (a c : Traffic S) (k : ℕ) → Same a c k → Closed a k → Closed c k
  Closed-same a c k s v = record { lives = sym s.lives ∙ v.lives; loads = sym s.next ∙ v.loads }

  -- No results set of window k has arrived.
  pub record Future (arrived : ℕ → ℕ) (a : Traffic S) (k : ℕ) : Type 0 where
    pub none_arrived : arrived k ≡ 0
    pub sent_loads : held (load k) a.sent ≡ 0
    pub todo_loads : total (load k) a.todo ≡ 0
    pub finals : held (final k) a.sent ≡ 0

module _ {S : Type 0} ⦃b : Derived S⦄ where
  -- An open window: of its results sets that arrived, each is worked off, waits, or is with a task;
  -- once the numbers of partitions are known no more have arrived; while the task is found that
  -- finalizes the window, all but one are worked off; a worker has an update of the window exactly if
  -- it is busy, and of the workers' and the found ones there is one update at most.
  pub record Open (arrived : ℕ → ℕ) (a : Traffic S) (k : ℕ) (wd : WinDescr S) : Type 0 where
    pub named : (b.base wd.w).id ≡ k
    pub sum :
        arrived k
        ≡ wd.cnt_tasks_com + length wd.pending_queue + held (load k) a.sent + total (load k) a.todo
    pub promise : (n : ℕ) → sum_ins wd.cnt_ins ≡ some n → arrived k ≤ n
    pub unsent : held (final k) a.sent ≡ 0
    pub alone : 0 < total (final k) a.todo → arrived k ≤ wd.cnt_tasks_com + 1
    pub busy : held (updating k) a.sent ≡ (if wd.is_busy then 1 else 0)
    pub single : held (updating k) a.sent + total (updating k) a.todo ≤ 1

  -- a place of the deque, for window k
  abbrev pub Slot : (ℕ → ℕ) → Traffic S → ℕ → Option (WinDescr S) → Type 0
  Slot arrived a k none = Closed a k
  Slot arrived a k (some wd) = Open arrived a k wd

  -- the windows from k on
  abbrev pub Windows : (ℕ → ℕ) → Traffic S → ℕ → List (Option (WinDescr S)) → Type 0
  Windows arrived a k [] = Unit
  Windows arrived a k (o ∷ l) = Slot arrived a k o × Windows arrived a (k + 1) l

  pub Open-same :
      (arrived : ℕ → ℕ) (a c : Traffic S) (k : ℕ) (wd : WinDescr S)
      → Same a c k
      → Open arrived a k wd
      → Open arrived c k wd
  Open-same arrived a c k wd s v = record {
    named = v.named;
    sum = omega (arith, v.sum, s.loads, s.next);
    promise = v.promise;
    unsent = omega (arith, v.unsent, s.finals);
    alone = λ pos. v.alone (omega (arith, pos, s.last));
    busy = sym s.updates ∙ v.busy;
    single = omega (arith, v.single, s.updates, s.next_updates);
  }

  pub Slot-same :
      (arrived : ℕ → ℕ) (a c : Traffic S) (k : ℕ) (o : Option (WinDescr S))
      → Same a c k
      → Slot arrived a k o
      → Slot arrived c k o
  Slot-same arrived a c k none s v = Closed-same a c k s v
  Slot-same arrived a c k (some wd) s v = Open-same arrived a c k wd s v

  pub Windows-same :
      (arrived : ℕ → ℕ) (a c : Traffic S) (k : ℕ) (l : List (Option (WinDescr S)))
      → ((j : ℕ) → k ≤ j → j < k + length l → Same a c j)
      → Windows arrived a k l
      → Windows arrived c k l
  Windows-same arrived a c k [] s v = tt
  Windows-same arrived a c k (o ∷ l) s (v, vs) = (
    Slot-same arrived a c k o (s k (omega arith) (omega arith)) v,
    Windows-same arrived a c (k + 1) l (λ j ge lt. s j (omega (arith, ge)) (omega (arith, lt))) vs,
  )

  -- one place of the deque
  pub Windows-at :
      (arrived : ℕ → ℕ) (a : Traffic S) (k i : ℕ) (l : List (Option (WinDescr S)))
      → Windows arrived a k l
      → i < length l
      → Slot arrived a (k + i) (get_or l i none)
  Windows-at arrived a k i [] v lt = absurd (omega (arith, lt))
  Windows-at arrived a k zero (o ∷ l) (v, vs) lt = subst (λ j. Slot arrived a j o) (omega arith) v
  Windows-at arrived a k (suc i) (o ∷ l) (v, vs) lt =
      subst (λ j. Slot arrived a j (get_or l i none)) (omega arith)
        (Windows-at arrived a (k + 1) i l vs (omega (arith, lt)))

  -- A change of one window.
  pub Windows-set :
      (arrived : ℕ → ℕ) (a c : Traffic S) (k i : ℕ) (o : Option (WinDescr S))
      (l : List (Option (WinDescr S)))
      → ((j : ℕ) → j ≢ k + i → Same a c j)
      → Slot arrived c (k + i) o
      → Windows arrived a k l
      → Windows arrived c k (set l i o)
  Windows-set arrived a c k i o [] s x v = tt
  Windows-set arrived a c k zero o (y ∷ l) s x (v, vs) = (
    subst (λ j. Slot arrived c j o) (omega arith) x,
    Windows-same arrived a c (k + 1) l (λ j ge lt. s j (λ e. omega (arith, e, ge))) vs,
  )
  Windows-set arrived a c k (suc i) o (y ∷ l) s x (v, vs) = (
    Slot-same arrived a c k y (s k (λ e. omega (arith, e))) v,
    Windows-set arrived a c (k + 1) i o l (λ j ne. s j (λ e. ne (omega (arith, e))))
        (subst (λ j. Slot arrived c j o) (omega arith) x) vs,
  )
