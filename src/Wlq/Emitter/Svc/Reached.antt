-- ===== src/Wlq/Emitter/Svc/Reached.antt =====
-- The states that the emitter reaches from its start.
use mathlib.Core.Option.{some-injective}
use elastic_ppq.Common.{
  ℕ, zero, suc, ◌≤◌, ◌<◌, ◌≡◌, refl, sym, ◌∙◌, subst, true, false, List, Option, none, some, arith,
  get_or, length-replicate, replicate,
}
use elastic_ppq.ResultsSet.{Derived}
use elastic_ppq.Wlq.Emitter.{Task}
use elastic_ppq.Wlq.Emitter.Svc.{WlqEmitter, Input, create, svc}
use elastic_ppq.Wlq.Emitter.Svc.Assigning.{at_rest, hand_out}
use elastic_ppq.Wlq.Emitter.Svc.Commands.{IsFinished}
use elastic_ppq.Wlq.Emitter.Svc.Places.{is_none, free}
use elastic_ppq.Wlq.Emitter.Svc.Running.{taken_back, Comes, svc-IsRunning}
use elastic_ppq.Wlq.Emitter.Svc.Invariant.{IsRunning}
use elastic_ppq.Wlq.Emitter.Svc.Traffic.{held}

module _ (S : Type 0) where
  abbrev pub no_tasks : ℕ → List (Option (Task S))
  no_tasks num = replicate num none

  held-no_tasks : (f : Task S → ℕ) (num : ℕ) → held f (no_tasks num) ≡ 0
  held-no_tasks f zero = refl
  held-no_tasks f (suc num) = omega (arith, held-no_tasks f num)

  free-no_tasks : (num : ℕ) → free (no_tasks num) ≡ num
  free-no_tasks zero = refl
  free-no_tasks (suc num) = omega (arith, free-no_tasks num)

  ready_at_start :
      (num i : ℕ)
      → i < num
      → get_or (replicate num true) i false ≡ is_none (get_or (no_tasks num) i none)
  ready_at_start zero i lt = absurd (omega (arith, lt))
  ready_at_start (suc num) zero lt = refl
  ready_at_start (suc num) (suc i) lt = ready_at_start num i (omega (arith, lt))

module _ (S : Type 0) ⦃b : Derived S⦄ (num nw : ℕ) (pos : 0 < num) where
  pub create-IsRunning : IsRunning num (λ _. 0) (create num nw) (at_rest (no_tasks S num))
  unfolding create
  create-IsRunning = record {
    size = length-replicate num none;
    windows = tt;
    past = λ k lt. absurd (omega (arith, lt));
    future = λ k ge. record {
      none_arrived = refl;
      sent_loads = held-no_tasks S _ num;
      todo_loads = refl;
      finals = held-no_tasks S _ num;
    };
    bound = omega arith;
    tasks = omega (arith, held-no_tasks S _ num);
    ready = sym (free-no_tasks S num);
    idle = ready_at_start S num;
    wide = length-replicate num true;
    turn = pos;
    sane = (held-no_tasks S _ num, refl);
    found = tt;
  }

module _ {S : Type 0} ⦃b : Derived S⦄ (num nw : ℕ) (new_set : ℕ → ℕ → ℕ → S) (wp sp : ℕ) where
  -- the states from the start on, with the results sets that have arrived and the tasks of the workers
  pub data Reachable : (ℕ → ℕ) → WlqEmitter S → List (Option (Task S)) → Type 0 where
    started : Reachable (λ _. 0) (create num nw) (no_tasks S num)
    stepped :
        (arrived arrived' : ℕ → ℕ) (e : WlqEmitter S) (ws : List (Option (Task S))) (i : Input S)
        (r : WlqEmitter S × List (ℕ × Task S))
        → Reachable arrived e ws
        → Comes num new_set wp sp arrived e ws i arrived'
        → svc num new_set wp sp i e ≡ some r
        → Reachable arrived' r.0 (hand_out r.1 (taken_back i ws))

  module _ (pos : 0 < num) (sp_pos : 0 < sp) (wide : sp ≤ wp)
      (named : (j : ℕ) → (b.base (new_set 1 j 1)).id ≡ j) where
    Reachable-IsRunning :
        (arrived : ℕ → ℕ) (e : WlqEmitter S) (ws : List (Option (Task S)))
        → Reachable arrived e ws
        → IsRunning num arrived e (at_rest ws)
    Reachable-IsRunning _ _ _ started = create-IsRunning S num nw pos
    Reachable-IsRunning _ _ _ (stepped arrived arrived' e ws i r h c f) =
        let (r', f', v, _) =
          svc-IsRunning num new_set wp sp sp_pos wide named arrived arrived' e ws i c
            (Reachable-IsRunning arrived e ws h) in
        subst (λ z. IsRunning num arrived' z.0 (at_rest (hand_out z.1 (taken_back i ws))))
          (some-injective r' r (sym f' ∙ f)) v

    -- From its start on, with a worker at least and windows of wp panes that begin every sp panes,
    -- 0 < sp ≤ wp, the emitter serves every message that can come without an abort; and when it
    -- propagates the EOS, no results set waits and no worker has a task.
    pub Reachable-svc :
        (arrived arrived' : ℕ → ℕ) (e : WlqEmitter S) (ws : List (Option (Task S))) (i : Input S)
        → Reachable arrived e ws
        → Comes num new_set wp sp arrived e ws i arrived'
        → (r : WlqEmitter S × List (ℕ × Task S)) × (svc num new_set wp sp i e ≡ some r)
          × Reachable arrived' r.0 (hand_out r.1 (taken_back i ws))
          × (e.wlq_terminated ≡ false
              → r.0.wlq_terminated ≡ true
              → IsFinished r.0.descr_set (hand_out r.1 (taken_back i ws)))
    Reachable-svc arrived arrived' e ws i h c =
        let (r, f, _, done) =
          svc-IsRunning num new_set wp sp sp_pos wide named arrived arrived' e ws i c
            (Reachable-IsRunning arrived e ws h) in
        (r, f, stepped arrived arrived' e ws i r h c f, done)
