-- ===== src/Wlq/Emitter/Svc/Ended.antt =====
-- The end of the WLQ stage, seen from its start.
use mathlib.Core.Option.{some-injective}
use elastic_ppq.Common.{
  ℕ, zero, suc, ◌+◌, ◌-◌, ◌≤◌, ◌<◌, ◌≡◌, refl, sym, ◌∙◌, subst, ◌↔◌, true, false, List, ◌++◌,
  Option, none, some, arith, get_or, replicate,
}
use elastic_ppq.ResultsSet.{Derived}
use elastic_ppq.Wlq.Pool.{last_activated}
use elastic_ppq.Wlq.Emitter.{Task}
use elastic_ppq.Wlq.Emitter.Svc.{WlqEmitter, Input, create, svc, eosnotify, handle_feedback}
use elastic_ppq.Wlq.Emitter.Svc.Assigning.{at_rest, hand_out}
use elastic_ppq.Wlq.Emitter.Svc.Draining.{Drains, Drains-terminated}
use elastic_ppq.Wlq.Emitter.Svc.Feeding.{remaining}
use elastic_ppq.Wlq.Emitter.Svc.Invariant.{IsRunning}
use elastic_ppq.Wlq.Emitter.Svc.Reached.{no_tasks, create-IsRunning}
use elastic_ppq.Wlq.Emitter.Svc.Running.{taken_back, Comes}
use elastic_ppq.Wlq.Emitter.Svc.Steady.{IsSteady, IsConsiderate, svc-IsSteady}

none_at_start : (S : Type 0) (num i : ℕ) → get_or (no_tasks S num) i none ≡ none
none_at_start S zero i = refl
none_at_start S (suc num) zero = refl
none_at_start S (suc num) (suc i) = none_at_start S num i

-- the last one of n workers that are not activated and nw that are
last_on :
    (n nw i : ℕ)
    → i + 1 ≡ n + nw
    → 0 < nw
    → get_or (replicate n false ++ replicate nw true) i false ≡ true
last_on zero zero i e pos = absurd (omega (arith, pos))
last_on zero (suc nw) zero e pos = refl
last_on zero (suc zero) (suc i) e pos = absurd (omega (arith, e))
last_on zero (suc (suc nw)) (suc i) e pos = last_on zero (suc nw) i (omega (arith, e)) (omega arith)
last_on (suc n) nw zero e pos = absurd (omega (arith, e, pos))
last_on (suc n) nw (suc i) e pos = last_on n nw i (omega (arith, e)) pos

module _ (S : Type 0) (num nw : ℕ) (pos : 0 < nw) (fits : nw ≤ num) where
  create-IsSteady : IsSteady num (create {S = S} num nw) (no_tasks S num)
  unfolding create last_activated
  create-IsSteady = record {
    settled = λ all. refl;
    working = λ i h. absurd (h (none_at_start S num i));
    staff = num - 1;
    in_range = omega (arith, pos, fits);
    staffed = last_on (num - nw) nw (num - 1) (omega (arith, pos, fits)) pos;
  }

module _ {S : Type 0} ⦃b : Derived S⦄ (num nw : ℕ) (new_set : ℕ → ℕ → ℕ → S) (wp sp : ℕ) where
  -- the states from the start on, where the commands of the controller disturb no worker with a task
  pub data Undisturbed : (ℕ → ℕ) → WlqEmitter S → List (Option (Task S)) → Type 0 where
    started : Undisturbed (λ _. 0) (create num nw) (no_tasks S num)
    stepped :
        (arrived arrived' : ℕ → ℕ) (e : WlqEmitter S) (ws : List (Option (Task S))) (i : Input S)
        (r : WlqEmitter S × List (ℕ × Task S))
        → Undisturbed arrived e ws
        → Comes num new_set wp sp arrived e ws i arrived'
        → IsConsiderate num i e ws
        → svc num new_set wp sp i e ≡ some r
        → Undisturbed arrived' r.0 (hand_out r.1 (taken_back i ws))

  module _ (pos : 0 < nw) (fits : nw ≤ num) (sp_pos : 0 < sp) (wide : sp ≤ wp)
      (named : (j : ℕ) → (b.base (new_set 1 j 1)).id ≡ j) where
    Undisturbed-IsSteady :
        (arrived : ℕ → ℕ) (e : WlqEmitter S) (ws : List (Option (Task S)))
        → Undisturbed arrived e ws
        → IsRunning num arrived e (at_rest ws) × IsSteady num e ws
    Undisturbed-IsSteady _ _ _ Undisturbed.started =
        (create-IsRunning S num nw (omega (arith, pos, fits)), create-IsSteady S num nw pos fits)
    Undisturbed-IsSteady _ _ _ (Undisturbed.stepped arrived arrived' e ws i r h c kind f) =
        let (v, y) = Undisturbed-IsSteady arrived e ws h in
        let (r', f', v', y') =
          svc-IsSteady num new_set wp sp sp_pos wide named arrived arrived' e ws i c kind v y in
        subst
          (λ z.
            IsRunning num arrived' z.0 (at_rest (hand_out z.1 (taken_back i ws)))
            × IsSteady num z.0 (hand_out z.1 (taken_back i ws)))
          (some-injective r' r (sym f' ∙ f)) (v', y')

    -- Let the stage start with an activated worker and windows of wp panes that begin every sp panes,
    -- 0 < sp ≤ wp, and let the controller's commands leave every worker activated that has a task, and
    -- some worker at least. After any messages that can come, let the emitter get the last EOS, with
    -- the EOS not propagated yet, and n tasks come back after it. Then there are n results sets fewer to work off; while any remain a worker
    -- has a task, and its return is handled without an abort; and the EOS is propagated exactly if none
    -- remain. So the stage ends after as many returns as results sets remained at the last EOS.
    pub Undisturbed-terminated :
        (arrived : ℕ → ℕ) (e : WlqEmitter S) (ws : List (Option (Task S))) (n : ℕ)
        (e' : WlqEmitter S) (ws' : List (Option (Task S)))
        → Undisturbed arrived e ws
        → e.eos_received + 1 ≡ num
        → e.wlq_terminated ≡ false
        → Drains num n (eosnotify num e) ws e' ws'
        → (n + remaining e' ws' ≡ remaining e ws)
          × (0 < remaining e' ws'
              → (w : ℕ) × (t : Task S) × (w < num)
                × (get_or ws' w none ≡ some t)
                × ((m : S)
                    → (r : WlqEmitter S × List (ℕ × Task S)) × (handle_feedback num w
                          (record t { p1 = m })
                          e'
                        ≡ some r)))
          × ((e'.wlq_terminated ≡ true) ↔ (remaining e' ws' ≡ 0))
    Undisturbed-terminated arrived e ws n e' ws' h eos no_end d =
        let (v, y) = Undisturbed-IsSteady arrived e ws h in
        Drains-terminated num arrived e ws n e' ws' v y eos no_end d
