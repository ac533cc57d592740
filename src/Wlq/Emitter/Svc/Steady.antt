-- ===== src/Wlq/Emitter/Svc/Steady.antt =====
-- Whether results sets wait in the WLQ emitter while no worker works.
use elastic_ppq.Common.{
  ℕ, zero, suc, ◌+◌, ◌≤◌, ◌⊎◌, ◌<◌, ◌≡◌, ◌≢◌, refl, ap, ◌∙◌, inl, inr, Bool, true, false, ◌&&◌,
  List, [], ◌∷◌, Option, none, some, get_or, set, ◌==◌, Bool-cases,
}
use elastic_ppq.ResultsSet.{Derived}
use elastic_ppq.Controller.Agree.{obey}
use elastic_ppq.Wlq.Pool.{wake_all, check_termination}
use elastic_ppq.Wlq.Emitter.{Task}
use elastic_ppq.Wlq.Emitter.Tasks.{pending}
use elastic_ppq.Wlq.Emitter.Svc.{WlqEmitter, Input, terminate, eosnotify, svc}
use elastic_ppq.Wlq.Emitter.Svc.Assigning.{at_rest, hand_out}
use elastic_ppq.Wlq.Emitter.Svc.Commands.{
  IsRunning-pool, handle_reconf-IsRunning, terminate-IsRunning,
}
use elastic_ppq.Wlq.Emitter.Svc.Feeding.{Fed, handle_feedback-Fed}
use elastic_ppq.Wlq.Emitter.Svc.Places.{free}
use elastic_ppq.Wlq.Emitter.Svc.Invariant.{IsRunning}
use elastic_ppq.Wlq.Emitter.Svc.Running.{taken_back, Comes, handle_results-IsRunning}

-- While no worker has a task no results set waits, a worker with a task is activated, and one worker at
-- least is.
pub record IsSteady {S : Type 0} (num : ℕ) (e : WlqEmitter S) (ws : List (Option (Task S)))
    : Type 0 where
  pub settled : free ws ≡ num → pending e.descr_set ≡ 0
  pub working : (i : ℕ) → get_or ws i none ≢ none → get_or e.pool.activated_worker i false ≡ true
  pub staff : ℕ
  pub in_range : staff < num
  pub staffed : get_or e.pool.activated_worker staff false ≡ true

wake_all-stays :
    (active : List Bool) (i : ℕ)
    → get_or active i false ≡ true
    → get_or (wake_all active) i false ≡ true
unfolding wake_all
wake_all-stays [] i on = on
wake_all-stays (a ∷ active) zero on = refl
wake_all-stays (a ∷ active) (suc i) on = wake_all-stays active i on

module _ {S : Type 0} (num : ℕ) where
  -- A command after which every worker with a task is activated, and some worker is.
  abbrev pub IsConsiderate : Input S → WlqEmitter S → List (Option (Task S)) → Type 0
  IsConsiderate (Input.results p) e ws = Unit
  IsConsiderate (Input.feedback w t) e ws = Unit
  IsConsiderate (Input.command r) e ws =
      ((i : ℕ) → get_or ws i none ≢ none → get_or (obey r e.pool.activated_worker) i false ≡ true)
      × (i : ℕ) × (i < num)
      × (get_or (obey r e.pool.activated_worker) i false ≡ true)
  IsConsiderate Input.eos e ws = Unit

  pub terminate-IsSteady :
      (e : WlqEmitter S) (ws : List (Option (Task S)))
      → IsSteady num e ws
      → IsSteady num (terminate num e) ws
  unfolding terminate check_termination
  terminate-IsSteady e ws v =
      let done =
        (e.eos_received == num) && (e.n_pendingtasks == 0) && (e.pool.n_ready_workers == num) in
      let active = e.pool.activated_worker in
      elim (Bool-cases done) [
        | inl d ↦ rw d (record {
          settled = v.settled;
          working = λ i h. wake_all-stays active i (v.working i h);
          staff = v.staff;
          in_range = v.in_range;
          staffed = wake_all-stays active v.staff v.staffed;
        })
        | inr d ↦ rw d (record {
          settled = v.settled;
          working = v.working;
          staff = v.staff;
          in_range = v.in_range;
          staffed = v.staffed;
        })
      ]

  -- Who has a task after a message had one before it, or got one as an activated worker.
  after_given :
      (e : WlqEmitter S) (ws ws' : List (Option (Task S))) (active : List Bool)
      → active ≡ e.pool.activated_worker
      → IsSteady num e ws
      → ((j : ℕ)
          → get_or ws' j none ≢ none
          → (get_or ws j none ≢ none) ⊎ (get_or e.pool.activated_worker j false ≡ true))
      → (j : ℕ) → get_or ws' j none ≢ none
      → get_or active j false ≡ true
  after_given e ws ws' active same v given j h =
      ap (λ a. get_or a j false) same ∙ elim (given j h) [ inl x ↦ v.working j x | inr on ↦ on ]

module _ {S : Type 0} ⦃b : Derived S⦄ (num : ℕ) (arrived : ℕ → ℕ) where
  pub Fed-IsSteady :
      (e s : WlqEmitter S) (ws ws' : List (Option (Task S))) (w : ℕ)
      → IsSteady num e ws
      → get_or ws w none ≢ none
      → Fed num arrived e ws w s ws'
      → IsSteady num s ws'
  Fed-IsSteady e s ws ws' w v has x = record {
    settled = x.settled (v.working w has);
    working = after_given num e ws ws' s.pool.activated_worker x.active v x.given;
    staff = v.staff;
    in_range = v.in_range;
    staffed = ap (λ a. get_or a v.staff false) x.active ∙ v.staffed;
  }

module _ {S : Type 0} ⦃b : Derived S⦄ (num : ℕ) (new_set : ℕ → ℕ → ℕ → S) (wp sp : ℕ) (pos : 0 < sp)
    (wide : sp ≤ wp) (named : (j : ℕ) → (b.base (new_set 1 j 1)).id ≡ j) where
  -- With windows of wp panes that begin every sp panes, 0 < sp ≤ wp, and a controller whose commands
  -- leave every worker activated that has a task, and some worker at least: every message that can come
  -- is served without an abort, and after it no results set waits while no worker has a task, the workers
  -- with a task are activated, and some worker is, if this was so before.
  pub svc-IsSteady :
      (arrived arrived' : ℕ → ℕ) (e : WlqEmitter S) (ws : List (Option (Task S))) (i : Input S)
      → Comes num new_set wp sp arrived e ws i arrived'
      → IsConsiderate num i e ws
      → IsRunning num arrived e (at_rest ws)
      → IsSteady num e ws
      → (r : WlqEmitter S × List (ℕ × Task S)) × (svc num new_set wp sp i e ≡ some r)
        × IsRunning num arrived' r.0 (at_rest (hand_out r.1 (taken_back i ws)))
        × IsSteady num r.0 (hand_out r.1 (taken_back i ws))
  unfolding svc eosnotify
  svc-IsSteady _ _ _ _ _ (Comes.from_plq arrived e ws p x) kind v y =
      let (r, f, z, vr) =
        handle_results-IsRunning num arrived new_set wp sp e ws p pos wide named v x in
      (
        r,
        f,
        vr,
        record {
          settled = z.settled y.staff y.in_range y.staffed;
          working =
              after_given num e ws (hand_out r.1 ws) r.0.pool.activated_worker z.active y z.given;
          staff = y.staff;
          in_range = y.in_range;
          staffed = ap (λ a. get_or a y.staff false) z.active ∙ y.staffed;
        },
      )
  svc-IsSteady _ _ _ _ _ (Comes.from_worker arrived e ws w t m lt has) kind v y =
      let (s, out, f, x) = handle_feedback-Fed num arrived e ws w t m v lt has in
      let ws' = hand_out out (set ws w none) in
      (
        (terminate num s, out),
        f,
        (terminate-IsRunning num arrived s ws' x.running).0,
        terminate-IsSteady num s ws' (Fed-IsSteady num arrived e s ws ws' w y (λ z. cc) x),
      )
  svc-IsSteady _ _ _ _ _ (Comes.from_controller arrived e ws r reconf obeys) kind v y =
      let (e', f, same, active, kept_set, vr) =
        handle_reconf-IsRunning num arrived e r ws reconf obeys v in
      let (kept, i, lt, on) = kind in
      (
        (e', []),
        f,
        vr,
        record {
          settled = λ all. ap pending kept_set ∙ y.settled all;
          working = λ j h. ap (λ a. get_or a j false) active ∙ kept j h;
          staff = i;
          in_range = lt;
          staffed = ap (λ a. get_or a i false) active ∙ on;
        },
      )
  svc-IsSteady _ _ _ _ _ (Comes.at_end arrived e ws) kind v y =
      let e1 : WlqEmitter S = record e { eos_received = e.eos_received + 1 } in
      let v1 =
        IsRunning-pool num arrived e (at_rest ws) e.pool.nw_wlq (e.eos_received + 1)
          e.pool.activated_worker e.wlq_terminated v in
      (
        (terminate num e1, []),
        refl,
        (terminate-IsRunning num arrived e1 ws v1).0,
        terminate-IsSteady num e1 ws (record {
          settled = y.settled;
          working = y.working;
          staff = y.staff;
          in_range = y.in_range;
          staffed = y.staffed;
        }),
      )
