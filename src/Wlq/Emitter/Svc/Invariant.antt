-- ===== src/Wlq/Emitter/Svc/Invariant.antt =====
-- How the emitter and the tasks of the workers fit, between the messages of `WLQ_Emitter::svc`.
use native.Mathlib.Nat.{mod-eq_of_lt, add-mod_right}
use elastic_ppq.Common.{
  ℕ, ◌+◌, ◌-◌, ◌%◌, ◌^◌, ◌≤◌, ◌<◌, ◌≡◌, refl, ap, ◌∙◌, false, none, arith, get_or, length,
}
use elastic_ppq.ResultsSet.{Derived}
use elastic_ppq.Wlq.Emitter.{TaskType}
use elastic_ppq.Wlq.Emitter.Tasks.{pending}
use elastic_ppq.Wlq.Emitter.Svc.{WlqEmitter, local_id}
use elastic_ppq.Wlq.Emitter.Svc.Taking.{Within}
use elastic_ppq.Wlq.Emitter.Svc.Places.{is_none, free}
use elastic_ppq.Wlq.Emitter.Svc.Traffic.{
  held, total, takes, returns, odd, Traffic, Closed, Future, Windows,
}

pub takes-returns : (c : TaskType) → takes c ≡ returns c + 1
takes-returns TaskType.win_update = refl
takes-returns TaskType.merge = refl

pub local_id_lem : (first k : ℕ) → first ≤ k → k < 2 ^ 64 → local_id first k ≡ k - first
unfolding local_id
local_id_lem first k le lt =
    ap (λ x. x % 2 ^ 64) (omega (arith, le))
    ∙ add-mod_right (k - first) (2 ^ 64)
    ∙ mod-eq_of_lt (omega (arith, lt))

module _ {S : Type 0} ⦃b : Derived S⦄ (num : ℕ) (arrived : ℕ → ℕ) where
  -- The emitter and the traffic fit: the windows are sound, the counter of pending tasks is the number of
  -- results sets that wait or that a task takes or brings back, and the workers that are ready are those
  -- without a task.
  pub record IsRunning (e : WlqEmitter S) (a : Traffic S) : Type 0 where
    pub size : length a.sent ≡ num
    pub windows : Windows arrived a e.first_win_id e.descr_set
    pub past : (k : ℕ) → k < e.first_win_id → Closed a k
    pub future : (k : ℕ) → e.first_win_id + length e.descr_set ≤ k → Future arrived a k
    pub bound : e.first_win_id + length e.descr_set ≤ 2 ^ 64
    pub tasks :
        e.n_pendingtasks
        ≡ pending e.descr_set
          + total (λ t. takes t.task_type) a.todo
          + held (λ t. returns t.task_type) a.sent
    pub ready : e.pool.n_ready_workers ≡ free a.sent
    pub idle :
        (i : ℕ) → i < num → get_or e.pool.worker_ready i false ≡ is_none (get_or a.sent i none)
    pub wide : length e.pool.worker_ready ≡ num
    pub turn : e.pool.last_w < num
    pub sane : (held odd a.sent ≡ 0) × (total odd a.todo ≡ 0)
    pub found : Within e.first_win_id (e.first_win_id + length e.descr_set) a.todo
