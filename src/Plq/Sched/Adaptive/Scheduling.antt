-- ===== src/Plq/Sched/Adaptive/Scheduling.antt =====
-- A tuple that `Adaptive_Sched` schedules, by every branch of `sched_to_worker`.
use native.Mathlib.Nat.{mod-lt}
use elastic_ppq.Plq.Sched.Adaptive.Counting.{des_base, base_of, Prepared, prepare-Prepared}
use elastic_ppq.Plq.Sched.Adaptive.Branches.{
  IsReady, resume_pane-IsSound, continue_pane-IsSound, open_pane-IsSound, split_pane-IsSound,
}
use elastic_ppq.Common.{
  ℕ, ◌+◌, ◌-◌, ◌%◌, ◌^◌, ◌≤◌, ◌<◌, ◌≡◌, ◌≢◌, refl, sym, ap, ◌∙◌, subst, inl, inr, Bool, true, false,
  List, [], ◌++◌, append-nil, some, arith, get_or, ◌==◌, Bool-cases,
}
use elastic_ppq.Double.{Double}
use elastic_ppq.Message.{Tuple, Kind}
use elastic_ppq.Plq.Sched.{add_size, has}
use elastic_ppq.Plq.Sched.Choice.{get_llw_w_lem}
use elastic_ppq.Plq.Sched.Informed.{IsTold, IsTold-silent}
use elastic_ppq.Plq.Sched.Adaptive.{
  Adaptive, Stats, pane_des, set_base, extend_all, open_pane, resume_pane, grow_pane, sched_by,
}
use elastic_ppq.Plq.Sched.Adaptive.Sound.{view, IsSound}

module _ {R W : Type 0} (num : ℕ) where
  Prepared-IsReady :
      (p : ℕ) (s e : Adaptive R) (hist : List (ℕ × Tuple W))
      → IsSound num s hist
      → s.base.next_pane_id ≤ p
      → Prepared num p s e
      → IsReady num p e hist
  unfolding pane_des
  Prepared-IsReady p s e hist v ge x =
      let held : (q w : ℕ)
          → s.base.next_pane_id ≤ q
          → has w (pane_des num q e).w_ids ≡ true
          → get_or e.base.activated_worker w false ≡ true =
        λ q w le h.
          subst (λ l. get_or l w false ≡ true) (sym x.active)
            ((v.good q le).held w (subst (λ d. has w d.w_ids ≡ true) (x.des q) h)) in
      record {
        sized = x.sized;
        told = subst (IsTold (view num e)) (append-nil hist) (
            IsTold-silent {v = view num s} {v' = view num e} [] v.told (omega (arith, x.next))
              (λ q le. x.inst q) (λ q w le h. subst (λ d. has w d.w_ids ≡ true) (x.des q) h) tt);
        inside = x.inside;
        counted = omega (arith, x.size);
        held = λ w h. held p w ge h;
        rest = λ q le ne.
            let g = v.good q (omega (arith, le, x.next)) in
            record {
              held = λ w h. held q w (omega (arith, le, x.next)) h;
              none_yet = λ z w h.
                  g.none_yet (sym (x.sizes q ne) ∙ z) w
                    (subst (λ d. has w d.w_ids ≡ true) (x.des q) h);
              in_use = λ pos.
                  subst (λ d. (a : ℕ) × (d.a_worker ≡ some a) × (has a d.w_ids ≡ true))
                    (sym (x.des q)) (g.in_use (subst (λ m. 0 < m) (x.sizes q ne) pos));
            };
      }

  -- Only the round has gone on.
  turned :
      (p : ℕ) (e : Adaptive R) (hist : List (ℕ × Tuple W)) (i : ℕ)
      → {w : ℕ} → w < num
      → IsReady num p e hist
      → IsReady num p (set_base (record e.base { last_w = (i + 1) % num }) e) hist
  unfolding set_base pane_des
  turned p e hist i lt v = record {
    sized = record {
      sized = v.sized.sized;
      sizes = v.sized.sizes;
      turn = mod-lt (i + 1) (omega (arith, lt));
    };
    told = v.told;
    inside = v.inside;
    counted = v.counted;
    held = v.held;
    rest = λ q le ne.
        let g = v.rest q le ne in
        record { held = g.held; none_yet = g.none_yet; in_use = g.in_use };
  }

  grow_pane-IsSound :
      ⦃o : Double W⦄ (t : Tuple W) (w : ℕ) (s : Adaptive R) (hist : List (ℕ × Tuple W))
      → IsReady num t.pane_id s hist
      → t.kind ≡ Kind.regular
      → get_or s.base.activated_worker w false ≡ true
      → (r : Adaptive R × List (ℕ × Tuple W)) × (grow_pane num t w s ≡ some r)
        × IsSound num r.0 (hist ++ r.1)
  unfolding grow_pane
  grow_pane-IsSound t w s hist v k act =
      elim (Bool-cases (has w (pane_des num t.pane_id s).w_ids)) [
        | inl old ↦ (resume_pane num t w s, rw old refl, resume_pane-IsSound num t w s hist v k old)
        | inr new ↦ let (r, f, z) = split_pane-IsSound num t w s hist v k act in (r, rw new f, z)
      ]

  -- With an activated worker and queues of a length below the largest `size_t`, a tuple of an open pane
  -- is scheduled without an abort, whatever the threshold says. Afterwards, if it was so before, every
  -- holder of an open pane is activated and was told last how many instances the pane has, the active
  -- worker of a pane with tuples is one of its holders, and a pane without tuples has none.
  pub sched_by-IsSound :
      ⦃o : Double W⦄ (w : ℕ) (queue : ℕ → ℕ) (small : ℕ → Stats R → Bool) (t : Tuple W)
      (s : Adaptive R) (hist : List (ℕ × Tuple W))
      → IsSound num s hist
      → w < num
      → get_or s.base.activated_worker w false ≡ true
      → ((i : ℕ) → queue i < 2 ^ 64 - 1)
      → t.kind ≡ Kind.regular
      → s.base.next_pane_id ≤ t.pane_id
      → (r : Adaptive R × List (ℕ × Tuple W)) × (sched_by num queue small t s ≡ some r)
        × IsSound num r.0 (hist ++ r.1)
  unfolding sched_by
  sched_by-IsSound w queue small t s hist v lt act short k ge =
      let p = t.pane_id in
      let e = set_base (add_size p (extend_all num p s).base) (extend_all num p s) in
      let x = prepare-Prepared num p s v.sized in
      let ready = Prepared-IsReady p s e hist v ge x in
      let here = v.good p ge in
      let (i, found, a, _) =
        get_llw_w_lem num w queue e.base lt
          (subst (λ l. get_or l w false ≡ true) (sym x.active) act) x.sized.turn short in
      let e' = set_base (record e.base { last_w = (i + 1) % num }) e in
      let a' =
        subst (λ b. get_or b.activated_worker i false ≡ true)
          (sym (base_of num (record e.base { last_w = (i + 1) % num }) e)) a in
      let ready' : IsReady num p e' hist = turned p e hist i lt ready in
      elim (Bool-cases (get_or e.base.pane_size p 0 == 1)) [
        | inl one ↦
            let fresh : (y : ℕ) → has y (pane_des num p e').w_ids ≢ true = λ y h.
              here.none_yet (ground (arith, one, x.size)) y
                (subst (λ d. has y d.w_ids ≡ true) (des_base num p _ e ∙ x.des p) h) in
            (
              open_pane num t i e',
              rw one (rw found refl),
              open_pane-IsSound num t i e' hist ready' k fresh a',
            )
        | inr more ↦
            let (j, active, old) = here.in_use (ground (arith, more, x.size)) in
            elim (Bool-cases (small (pane_des num p e).a_tuples e.stats)) [
              | inl yes_small ↦
                  let active' : (pane_des num p e).a_worker ≡ some j =
                    ap (λ d. d.a_worker) (x.des p) ∙ active in
                  let (r, f, z) =
                    continue_pane-IsSound num t j e hist ready k (pane_des num p e).a_worker active'
                      active' (subst (λ d. has j d.w_ids ≡ true) (sym (x.des p)) old) in
                  (r, rw more (rw yes_small f), z)
              | inr large ↦
                  let (r, f, z) = grow_pane-IsSound t i e' hist ready' k a' in
                  (r, rw more (rw large (rw found f)), z)
            ]
      ]
