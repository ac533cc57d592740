-- ===== src/Wlq/Emitter/Svc/Commands.antt =====
-- The commands of the elastic controller, and the end of the stream.
use elastic_ppq.Common.{
  ℕ, ◌+◌, ◌-◌, ◌≡◌, refl, ◌∙◌, inl, inr, Bool, true, false, ◌&&◌, List, [], ◌∷◌, Option, none, some,
  arith, get_or, set, length, length-set, get_or-set_other, ◌==◌, Bool-cases,
}
use elastic_ppq.ResultsSet.{Derived}
use elastic_ppq.Controller.{Reconf, is_reconf}
use elastic_ppq.Controller.Agree.{CanStart, on, CanObey, obey}
use elastic_ppq.Plq.Sched.{has}
use elastic_ppq.Plq.Sched.Stopping.{CanStop, CanStop-set, off}
use elastic_ppq.Wlq.Pool
use elastic_ppq.Wlq.Pool.{Pool, activate, deactivate, add_workers, wake_all, check_termination}
use elastic_ppq.Wlq.Emitter.{Task, WinDescr}
use elastic_ppq.Wlq.Emitter.Tasks.{pending}
use elastic_ppq.Wlq.Emitter.Svc.{WlqEmitter, terminate, handle_reconf}
use elastic_ppq.Wlq.Emitter.Svc.Assigning.{at_rest}
use elastic_ppq.Wlq.Emitter.Svc.Places.{free-all}
use elastic_ppq.Wlq.Emitter.Svc.Invariant.{IsRunning}
use elastic_ppq.Wlq.Emitter.Svc.Traffic.{Traffic}

CanStart-set :
    (w : ℕ) (ws : List ℕ) (active : List Bool)
    → has w ws ≡ false
    → CanStart ws active
    → CanStart ws (set active w true)
unfolding has
CanStart-set w [] active h c = tt
CanStart-set w (v ∷ ws) active h (a, lt, b, c) = (
  get_or-set_other active w v true false (ground (arith, h)) ∙ a,
  omega (arith, lt, length-set active w true),
  b,
  CanStart-set w ws active (ground (arith, h)) c,
)

activate-some :
    (ws : List ℕ) (p : Pool)
    → CanStart ws p.activated_worker
    → activate ws p ≡ some (record p { activated_worker = on ws p.activated_worker })
unfolding activate on
activate-some [] p c = refl
activate-some (w ∷ ws) p (a, lt, b, c) = rw a (
    activate-some ws (record p { activated_worker = set p.activated_worker w true })
      (CanStart-set w ws p.activated_worker b c))

deactivate-some :
    (ws : List ℕ) (p : Pool)
    → CanStop ws p.activated_worker
    → deactivate ws p ≡ some (record p { activated_worker = off ws p.activated_worker })
unfolding deactivate off
deactivate-some [] p c = refl
deactivate-some (w ∷ ws) p (a, b, c) = rw a (
    deactivate-some ws (record p { activated_worker = set p.activated_worker w false })
      (CanStop-set w ws p.activated_worker b c))

-- Nothing waits, and no worker has a task.
pub record IsFinished {S : Type 0} (l : List (Option (WinDescr S))) (ws : List (Option (Task S)))
    : Type 0 where
  pub nothing_waits : pending l ≡ 0
  pub none_held : (i : ℕ) → get_or ws i none ≡ none

module _ {S : Type 0} ⦃b : Derived S⦄ (num : ℕ) (arrived : ℕ → ℕ) (e : WlqEmitter S) where
  -- Which workers are activated is free, and so are the last four fields.
  pub IsRunning-pool :
      (a : Traffic S) (nw eos : ℕ) (active : List Bool) (ended : Bool)
      → IsRunning num arrived e a
      → IsRunning num arrived
          (record e {
            pool = record e.pool { nw_wlq = nw; activated_worker = active };
            eos_received = eos;
            wlq_terminated = ended;
          })
          a
  IsRunning-pool a nw eos active ended v = record {
    size = v.size;
    windows = v.windows;
    past = v.past;
    future = v.future;
    bound = v.bound;
    tasks = v.tasks;
    ready = v.ready;
    idle = v.idle;
    wide = v.wide;
    turn = v.turn;
    sane = v.sane;
    found = v.found;
  }

  pub handle_reconf-IsRunning :
      (r : Reconf) (ws : List (Option (Task S)))
      → is_reconf r ≡ true
      → CanObey r e.pool.activated_worker
      → IsRunning num arrived e (at_rest ws)
      → (e' : WlqEmitter S) × (handle_reconf r e ≡ some (e', []))
        × (e'.wlq_terminated ≡ e.wlq_terminated)
        × (e'.pool.activated_worker ≡ obey r e.pool.activated_worker)
        × (e'.descr_set ≡ e.descr_set)
        × IsRunning num arrived e' (at_rest ws)
  unfolding handle_reconf add_workers Pool.remove_workers is_reconf obey
  handle_reconf-IsRunning Reconf.no_reconf ws t c v = absurd (cc)
  handle_reconf-IsRunning (Reconf.add l) ws t c v =
      let n = e.pool.nw_wlq + length l in
      (
        record e {
          pool = record e.pool { nw_wlq = n; activated_worker = on l e.pool.activated_worker };
        },
        rw (activate-some l (record e.pool { nw_wlq = n }) c) refl,
        refl,
        refl,
        refl,
        IsRunning-pool (at_rest ws) n e.eos_received (on l e.pool.activated_worker) e.wlq_terminated
            v,
      )
  handle_reconf-IsRunning (Reconf.remove l) ws t c v =
      let n = e.pool.nw_wlq - length l in
      (
        record e {
          pool = record e.pool { nw_wlq = n; activated_worker = off l e.pool.activated_worker };
        },
        rw (deactivate-some l (record e.pool { nw_wlq = n }) c) refl,
        refl,
        refl,
        refl,
        IsRunning-pool (at_rest ws) n e.eos_received (off l e.pool.activated_worker)
            e.wlq_terminated v,
      )

  pub terminate-IsRunning :
      (ws : List (Option (Task S)))
      → IsRunning num arrived e (at_rest ws)
      → IsRunning num arrived (terminate num e) (at_rest ws)
        × (e.wlq_terminated ≡ false
            → (terminate num e).wlq_terminated ≡ true
            → IsFinished e.descr_set ws)
  unfolding terminate check_termination
  terminate-IsRunning ws v =
      let done =
        (e.eos_received == num) && (e.n_pendingtasks == 0) && (e.pool.n_ready_workers == num) in
      elim (Bool-cases done) [
        | inl d ↦ rw d (
          IsRunning-pool (at_rest ws) e.pool.nw_wlq e.eos_received
              (wake_all e.pool.activated_worker) true v,
          λ _ _. record {
            nothing_waits = ground (arith, d, v.tasks);
            none_held = λ i. free-all ws i (ground (arith, d, v.ready, v.size));
          },
        )
        | inr d ↦ rw d (v, λ f t. absurd (cc))
      ]
