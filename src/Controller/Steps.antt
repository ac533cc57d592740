-- ===== src/Controller/Steps.antt =====
-- A control step, and what the two emitters find when its reconfigurations reach them.
use elastic_ppq.Common.{
  ℕ, ◌+◌, ◌-◌, ◌^◌, ◌<◌, ◌≡◌, ◌≢◌, refl, sym, subst, inl, inr, Bool, false, ◌||◌, List, [], ◌∷◌,
  some, arith, length, ◌==◌, ltb, Bool-cases, if◌then◌else◌,
}
use elastic_ppq.Controller.{
  Owner, Resource, same_owner, acquire_resources, Reconf, add_if, get_reconf, new_degree,
  Controller, is_reconf, control_step,
}
use elastic_ppq.Controller.Acquire.{acquire_resources-Passed}
use elastic_ppq.Controller.Release.{release_resources-Passed}
use elastic_ppq.Controller.Agree.{
  CanStart, on, CanObey, obey, Agrees, Agrees-other, no_owner-other, added, removed,
}

-- The reconfiguration of one stage can be obeyed, and keeps the agreement with each stage.
record Reconfigured (pool : List Resource) (o : Owner) (nw : ℕ) (active : List Bool)
    (r : List Resource × Reconf) : Type 0 where
  obeys : CanObey r.1 active
  agrees : Agrees r.0 o (new_degree nw r.1) (obey r.1 active)
  others :
      (p : Owner) (n : ℕ) (l : List Bool)
      → same_owner o p ≡ false
      → p ≢ Owner.no_owner
      → Agrees pool p n l
      → Agrees r.0 p n l

add_if-CanObey :
    (ws : List ℕ) (active : List Bool) → CanStart ws active → CanObey (add_if ws) active
unfolding add_if
add_if-CanObey [] active h = tt
add_if-CanObey (w ∷ ws) active h = h

new_degree-add_if : (nw : ℕ) (ws : List ℕ) → new_degree nw (add_if ws) ≡ nw + length ws
unfolding new_degree add_if
new_degree-add_if nw [] = omega arith
new_degree-add_if nw (w ∷ ws) = refl

obey-add_if : (ws : List ℕ) (active : List Bool) → obey (add_if ws) active ≡ on ws active
unfolding obey add_if on
obey-add_if [] active = refl
obey-add_if (w ∷ ws) active = refl

get_reconf-Reconfigured :
    (queues : ℕ → ℕ → ℕ) (pool : List Resource) (o : Owner) (nw new_nw : ℕ) (active : List Bool)
    → ((i k : ℕ) → queues i k < 2 ^ 64 - 1)
    → o ≢ Owner.no_owner
    → Agrees pool o nw active
    → (r : List Resource × Reconf) × (get_reconf queues o nw new_nw pool ≡ some r)
      × Reconfigured pool o nw active r
unfolding get_reconf obey new_degree
get_reconf-Reconfigured queues pool o nw new_nw active short ne g =
    elim (Bool-cases (new_nw == nw)) [
      | inl h ↦ (
        (pool, Reconf.no_reconf),
        rw h refl,
        record { obeys = tt; agrees = g; others = λ p n l a b c. c },
      )
      | inr h ↦ elim (Bool-cases (ltb new_nw nw)) [
        | inl less ↦
            let (r, e, v, len) =
              release_resources-Passed queues o (nw - new_nw) pool short ne
                (omega (arith, g.degree)) in
            let (can, agrees) = removed pool o nw active ne g r v in
            (
              (r.0, Reconf.remove r.1),
              rw h (rw less (rw e refl)),
              record {
                obeys = can;
                agrees = agrees;
                others = λ p n l a b c.
                    Agrees-other pool o Owner.no_owner p r n l v a (no_owner-other p b) c;
              },
            )
        | inr more ↦
            let r = acquire_resources (new_nw - nw) o pool in
            let (v, _) = acquire_resources-Passed (new_nw - nw) o pool in
            let (can, agrees) = added pool o nw active ne g r v in
            (
              (r.0, add_if r.1),
              rw h (rw more refl),
              record {
                obeys = add_if-CanObey r.1 active can;
                agrees =
                    subst (λ k. Agrees r.0 o k (obey (add_if r.1) active))
                      (sym (new_degree-add_if nw r.1))
                      (subst (λ l. Agrees r.0 o (nw + length r.1) l) (sym (obey-add_if r.1 active))
                        agrees);
                others = λ p n l a b c.
                    Agrees-other pool Owner.no_owner o p r n l v (no_owner-other p b) a c;
              },
            )
      ]
    ]

-- The controller agrees with the activated workers of both stages.
pub record IsAgreed (c : Controller) (plq_active wlq_active : List Bool) : Type 0 where
  pub plq : Agrees c.pool Owner.plq c.nw_plq plq_active
  pub wlq : Agrees c.pool Owner.wlq c.nw_wlq wlq_active

plq-ne : Owner.plq ≢ Owner.no_owner
plq-ne h = cc

wlq-ne : Owner.wlq ≢ Owner.no_owner
wlq-ne h = cc

apart_plq : same_owner Owner.plq Owner.wlq ≡ false
unfolding same_owner
apart_plq = refl

apart_wlq : same_owner Owner.wlq Owner.plq ≡ false
unfolding same_owner
apart_wlq = refl

-- Where the controller agrees with the two emitters on the activated workers, and all queues are of a
-- length below the largest `size_t`, a control step does not abort, whatever degrees the strategy wants
-- and whether or not the PLQ has terminated. Each emitter can
-- obey its reconfiguration: the workers to add are not activated, those to remove are, and none is
-- named twice. After both have obeyed the controller agrees with them again, also on both degrees.
pub control_step-IsAgreed :
    (plq_queues wlq_queues : ℕ → ℕ → ℕ) (new_nws : ℕ × ℕ) (plq_terminated : Bool) (c : Controller)
    (plq_active wlq_active : List Bool)
    → ((i k : ℕ) → plq_queues i k < 2 ^ 64 - 1)
    → ((i k : ℕ) → wlq_queues i k < 2 ^ 64 - 1)
    → IsAgreed c plq_active wlq_active
    → (c' : Controller) × (p : Reconf) × (q : Reconf) × (control_step plq_queues wlq_queues new_nws
          plq_terminated c
        ≡ some (c', p, q))
      × CanObey p plq_active
      × CanObey q wlq_active
      × IsAgreed c' (obey p plq_active) (obey q wlq_active)
unfolding control_step
control_step-IsAgreed plq_queues wlq_queues new_nws plq_terminated c plq_active wlq_active short
      short' g =
    let new_plq = if plq_terminated then 0 else new_nws.0 in
    let (r, e, v) =
      get_reconf-Reconfigured plq_queues c.pool Owner.plq c.nw_plq new_plq plq_active short plq-ne
        g.plq in
    let other = v.others Owner.wlq c.nw_wlq wlq_active apart_plq wlq-ne g.wlq in
    let (s, f, w) =
      get_reconf-Reconfigured wlq_queues r.0 Owner.wlq c.nw_wlq new_nws.1 wlq_active short' wlq-ne
        other in
    let after =
      w.others Owner.plq (new_degree c.nw_plq r.1) (obey r.1 plq_active) apart_wlq plq-ne
        v.agrees in
    (
      record {
        nw_plq = new_degree c.nw_plq r.1;
        nw_wlq = new_degree c.nw_wlq s.1;
        pool = s.0;
        n_reconf = c.n_reconf + (if is_reconf r.1 || is_reconf s.1 then 1 else 0);
      },
      r.1,
      s.1,
      rw e (rw f refl),
      v.obeys,
      w.obeys,
      record { plq = after; wlq = w.agrees },
    )
