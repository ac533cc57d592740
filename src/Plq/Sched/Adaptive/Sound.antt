-- ===== src/Plq/Sched/Adaptive/Sound.antt =====
-- What `Adaptive_Sched` keeps of every open pane, and a change of one pane.
use elastic_ppq.Common.{
  ℕ, ◌≤◌, ◌<◌, ◌≡◌, ◌≢◌, sym, ap, ◌∙◌, subst, inl, inr, ◌⊎◌, true, false, List, [], ◌∷◌, ◌++◌, map,
  some, arith, get_or, length, length-set, get_or-set_other, get_or-set_self,
}
use elastic_ppq.Message.{Tuple}
use elastic_ppq.Plq.Sched.{Sched, has}
use elastic_ppq.Plq.Sched.Informed.{View, IsTold, notice, IsTold-join}
use elastic_ppq.Plq.Sched.Adaptive.{PaneDes, Adaptive, pane_des, set_des, set_base, new_des}

module _ {R : Type 0} (num : ℕ) where
  abbrev pub holders : Adaptive R → ℕ → List ℕ
  unfolding pane_des
  holders s p = (pane_des num p s).w_ids

  abbrev pub view : Adaptive R → View
  unfolding pane_des
  view s = record {
    next = s.base.next_pane_id;
    active = λ w. get_or s.base.activated_worker w false;
    inst = λ p. get_or s.base.p_instances p 0;
    holders = λ p. (pane_des num p s).w_ids;
  }

  -- The vectors are of one length, and the round is at a worker.
  pub record IsSized (s : Adaptive R) : Type 0 where
    pub sized : length s.pv ≡ length s.base.p_instances
    pub sizes : length s.base.pane_size ≡ length s.base.p_instances
    pub turn : s.base.last_w < num

  -- The workers that hold the pane are activated; a pane without tuples has none, and the active
  -- worker of another is one of them.
  pub record IsGood (s : Adaptive R) (p : ℕ) : Type 0 where
    pub held :
        (w : ℕ)
        → has w (pane_des num p s).w_ids ≡ true
        → get_or s.base.activated_worker w false ≡ true
    pub none_yet : get_or s.base.pane_size p 0 ≡ 0 → (w : ℕ) → has w (pane_des num p s).w_ids ≢ true
    pub in_use :
        0 < get_or s.base.pane_size p 0
        → (a : ℕ) × ((pane_des num p s).a_worker ≡ some a) × (has a (pane_des num p s).w_ids ≡ true)

  pub record IsSound {W : Type 0} (s : Adaptive R) (hist : List (ℕ × Tuple W)) : Type 0 where
    pub sized : IsSized s
    pub told : IsTold (view s) hist
    pub good : (p : ℕ) → s.base.next_pane_id ≤ p → IsGood s p

  -- The fields of the base class, where a change of pane p makes its number of instances n.
  pub record IsBase (p n : ℕ) (s : Adaptive R) (b : Sched) : Type 0 where
    pub next : b.next_pane_id ≡ s.base.next_pane_id
    pub active : b.activated_worker ≡ s.base.activated_worker
    pub turn : b.last_w < num
    pub panes : length b.p_instances ≡ length s.base.p_instances
    pub sizes : b.pane_size ≡ s.base.pane_size
    pub here : get_or b.p_instances p 0 ≡ n
    pub others : (q : ℕ) → q ≢ p → get_or b.p_instances q 0 ≡ get_or s.base.p_instances q 0

  module _ (p n : ℕ) (s : Adaptive R) (b : Sched) (d : PaneDes) (v : IsSized s)
      (x : IsBase p n s b) where
    pub changed-IsSized : IsSized (set_des p d (set_base b s))
    unfolding set_des set_base
    changed-IsSized = record {
      sized = length-set s.pv p d ∙ v.sized ∙ sym x.panes;
      sizes = ap length x.sizes ∙ v.sizes ∙ sym x.panes;
      turn = x.turn;
    }

    pub changed-des : p < length s.pv → pane_des num p (set_des p d (set_base b s)) ≡ d
    unfolding set_des set_base pane_des
    changed-des lt = get_or-set_self s.pv p d (new_des num) lt

    pub changed-des_other :
        (q : ℕ) → q ≢ p → pane_des num q (set_des p d (set_base b s)) ≡ pane_des num q s
    unfolding set_des set_base pane_des
    changed-des_other q ne = get_or-set_other s.pv p q d (new_des num) ne

    pub changed_other : (q : ℕ) → q ≢ p → IsGood s q → IsGood (set_des p d (set_base b s)) q
    unfolding set_des set_base
    changed_other q ne g =
        let same = changed-des_other q ne in
        record {
          held = λ w h.
              subst (λ l. get_or l w false ≡ true) (sym x.active)
                (g.held w (subst (λ e. has w e.w_ids ≡ true) same h));
          none_yet = λ z w h.
              g.none_yet (sym (ap (λ l. get_or l q 0) x.sizes) ∙ z) w
                (subst (λ e. has w e.w_ids ≡ true) same h);
          in_use = λ pos.
              subst (λ e. (a : ℕ) × (e.a_worker ≡ some a) × (has a e.w_ids ≡ true)) (sym same)
                (g.in_use (subst (λ l. 0 < get_or l q 0) x.sizes pos));
        }

    pub changed_here :
        p < length s.pv
        → 0 < get_or s.base.pane_size p 0
        → ((w : ℕ) → has w d.w_ids ≡ true → get_or s.base.activated_worker w false ≡ true)
        → (a : ℕ) → d.a_worker ≡ some a
        → has a d.w_ids ≡ true
        → IsGood (set_des p d (set_base b s)) p
    unfolding set_des set_base
    changed_here lt pos act a e h =
        let same = changed-des lt in
        record {
          held = λ w k.
              subst (λ l. get_or l w false ≡ true) (sym x.active)
                (act w (subst (λ e. has w e.w_ids ≡ true) same k));
          none_yet = λ z. absurd (omega (arith, pos, z, ap (λ l. get_or l p 0) x.sizes));
          in_use = λ _.
              subst (λ e. (a : ℕ) × (e.a_worker ≡ some a) × (has a e.w_ids ≡ true)) (sym same)
                (a, e, h);
        }

    -- The messages of the change: a multicast to holders of the pane, and one to worker w.
    pub changed-IsTold :
        {W : Type 0} {hist : List (ℕ × Tuple W)} (w : ℕ) (u t : Tuple W) (ws : List ℕ)
        → IsTold (view s) hist
        → p < length s.pv
        → u.pane_id ≡ p
        → u.no_instances ≡ n
        → notice u.kind ≡ true
        → t.pane_id ≡ p
        → t.no_instances ≡ n
        → notice t.kind ≡ true
        → ((y : ℕ)
            → has y d.w_ids ≡ true
            → (has y ws ≡ true)
              ⊎ ((y ≡ w)
                  ⊎ ((has y (pane_des num p s).w_ids ≡ true)
                      × (n ≡ get_or s.base.p_instances p 0))))
        → IsTold
            (view (set_des p d (set_base b s)))
            (hist ++ (map (λ y. (y, u)) ws ++ ((w, t) ∷ [])))
    unfolding set_des set_base pane_des
    changed-IsTold w u t ws told lt a c k a' c' k' sub =
        IsTold-join {v = view s} {v' = view (set_des p d (set_base b s))} p w u t ws told
          (omega (arith, x.next)) a (c ∙ sym x.here) k a' (c' ∙ sym x.here) k' x.others
          (λ q y ge ne h. subst (λ e. has y e.w_ids ≡ true) (changed-des_other q ne) h)
          (λ y h. elim (sub y (subst (λ e. has y e.w_ids ≡ true) (changed-des lt) h)) [
            | inl g ↦ inl g
            | inr (inl g) ↦ inr (inl g)
            | inr (inr (g, i)) ↦ inr (inr (g, x.here ∙ i))
          ])
