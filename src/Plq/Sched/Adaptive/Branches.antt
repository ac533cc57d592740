-- ===== src/Plq/Sched/Adaptive/Branches.antt =====
-- The branches of `sched_to_worker`, given the worker.
use elastic_ppq.Common.{
  ℕ, ◌+◌, ◌≤◌, ◌<◌, ◌≡◌, ◌≢◌, refl, sym, ap, subst, inl, inr, ◌⊎◌, true, false, List, [], ◌∷◌, ◌++◌,
  map, Option, some, arith, ℕ_discrete, get_or, set, length, length-set, get_or-set_other,
  get_or-set_self,
}
use elastic_ppq.Double.{Double}
use elastic_ppq.Message.{Tuple, Kind, empty, create_newinst}
use elastic_ppq.Plq.Sched.{Sched, add_tuple_to, set_instances, has, multicast_newinst_to_w}
use elastic_ppq.Plq.Sched.Informed.{IsTold, notice, has-append, has-singleton, has_last}
use elastic_ppq.Plq.Sched.Stopping.{has-All, multicast-true}
use elastic_ppq.Plq.Sched.Adaptive.{
  PaneDes, Adaptive, pane_des, set_des, set_base, deliver, open_pane, continue_pane, resume_pane,
  split_pane,
}
use elastic_ppq.Plq.Sched.Adaptive.Sound.{
  view, IsSized, IsGood, IsSound, IsBase, changed-IsSized, changed_other, changed_here,
  changed-IsTold,
}

module _ {R W : Type 0} (num : ℕ) where
  -- A state that has counted a tuple of pane p, and has still to choose its worker.
  pub record IsReady (p : ℕ) (s : Adaptive R) (hist : List (ℕ × Tuple W)) : Type 0 where
    pub sized : IsSized num s
    pub told : IsTold (view num s) hist
    pub inside : p < length s.pv
    pub counted : 0 < get_or s.base.pane_size p 0
    pub held :
        (w : ℕ)
        → has w (pane_des num p s).w_ids ≡ true
        → get_or s.base.activated_worker w false ≡ true
    pub rest : (q : ℕ) → s.base.next_pane_id ≤ q → q ≢ p → IsGood num s q

  pub change-IsSound :
      (p n w : ℕ) (s : Adaptive R) (b : Sched) (d : PaneDes) (hist : List (ℕ × Tuple W))
      (u t : Tuple W) (ws : List ℕ)
      → IsReady p s hist
      → IsBase num p n s b
      → u.pane_id ≡ p
      → u.no_instances ≡ n
      → notice u.kind ≡ true
      → t.pane_id ≡ p
      → t.no_instances ≡ n
      → notice t.kind ≡ true
      → ((y : ℕ)
          → has y d.w_ids ≡ true
          → ((y ≡ w) × (get_or s.base.activated_worker y false ≡ true))
            ⊎ ((has y (pane_des num p s).w_ids ≡ true)
                × ((has y ws ≡ true) ⊎ (n ≡ get_or s.base.p_instances p 0))))
      → (a : ℕ) → d.a_worker ≡ some a
      → has a d.w_ids ≡ true
      → IsSound num (set_des p d (set_base b s)) (hist ++ (map (λ y. (y, u)) ws ++ ((w, t) ∷ [])))
  unfolding set_des set_base
  change-IsSound p n w s b d hist u t ws v x ua uc uk ta tc tk sub a e h = record {
    sized = changed-IsSized num p n s b d v.sized x;
    told = changed-IsTold num p n s b d v.sized x w u t ws v.told v.inside ua uc uk ta tc tk (λ y g.
        elim (sub y g) [
          | inl (k, _) ↦ inr (inl k)
          | inr (k, inl z) ↦ inl z
          | inr (k, inr z) ↦ inr (inr (k, z))
        ]);
    good = λ q ge. elim (ℕ_discrete q p) [
      | yes k ↦ subst (IsGood num (set_des p d (set_base b s))) (sym k) (
          changed_here num p n s b d v.sized x v.inside v.counted
            (λ y g. elim (sub y g) [ inl (_, z) ↦ z | inr (k, _) ↦ v.held y k ]) a e h)
      | no ne ↦ changed_other num p n s b d v.sized x q ne (v.rest q (omega (arith, ge, x.next)) ne)
    ];
  }

  module _ (t : Tuple W) (w : ℕ) (s : Adaptive R) (hist : List (ℕ × Tuple W))
      (v : IsReady t.pane_id s hist) (k : t.kind ≡ Kind.regular) where
    base_as_is :
        IsBase num t.pane_id (get_or s.base.p_instances t.pane_id 0) s (add_tuple_to w s.base)
    unfolding add_tuple_to
    base_as_is = record {
      next = refl;
      active = refl;
      turn = v.sized.turn;
      panes = refl;
      sizes = refl;
      here = refl;
      others = λ q ne. refl;
    }

    base_with :
        (n : ℕ) → IsBase num t.pane_id n s (add_tuple_to w (set_instances t.pane_id n s.base))
    unfolding add_tuple_to set_instances
    base_with n = record {
      next = refl;
      active = refl;
      turn = v.sized.turn;
      panes = length-set s.base.p_instances t.pane_id n;
      sizes = refl;
      here =
          get_or-set_self s.base.p_instances t.pane_id n 0 (omega (arith, v.inside, v.sized.sized));
      others = λ q ne. get_or-set_other s.base.p_instances t.pane_id q n 0 ne;
    }

    pub resume_pane-IsSound :
        has w (pane_des num t.pane_id s).w_ids ≡ true
        → IsSound num (resume_pane num t w s).0 (hist ++ (resume_pane num t w s).1)
    unfolding resume_pane deliver set_des set_base add_tuple_to notice pane_des
    resume_pane-IsSound old =
        let p = t.pane_id in
        let d = pane_des num p s in
        let e : PaneDes = record d {
          a_tuples = get_or d.i_sizes w 0 + 1;
          a_worker = some w;
          i_sizes = set d.i_sizes w (get_or d.i_sizes w 0 + 1);
        } in
        let r : Tuple W = record t { no_instances = get_or s.base.p_instances p 0 } in
        change-IsSound p (get_or s.base.p_instances p 0) w s (add_tuple_to w s.base) e hist r r [] v
          base_as_is refl refl (rw k refl) refl refl (rw k refl) (λ y g. inr (g, inr refl)) w refl
          old

    pub continue_pane-IsSound :
        (a : Option ℕ)
        → a ≡ some w
        → (pane_des num t.pane_id s).a_worker ≡ some w
        → has w (pane_des num t.pane_id s).w_ids ≡ true
        → (r : Adaptive R × List (ℕ × Tuple W)) × (continue_pane num t a s ≡ some r)
          × IsSound num r.0 (hist ++ r.1)
    unfolding continue_pane deliver set_des set_base add_tuple_to notice pane_des
    continue_pane-IsSound a same act old =
        let p = t.pane_id in
        let d = pane_des num p s in
        let e : PaneDes = record d {
          a_tuples = d.a_tuples + 1;
          i_sizes = set d.i_sizes w (get_or d.i_sizes w 0 + 1);
        } in
        let r : Tuple W = record t { no_instances = get_or s.base.p_instances p 0 } in
        (
          deliver t w (set_des p e s),
          ap (λ z. continue_pane num t z s) same,
          change-IsSound p (get_or s.base.p_instances p 0) w s (add_tuple_to w s.base) e hist r r []
              v base_as_is refl refl (rw k refl) refl refl (rw k refl) (λ y g. inr (g, inr refl)) w
              act old,
        )

    pub open_pane-IsSound :
        ((y : ℕ) → has y (pane_des num t.pane_id s).w_ids ≢ true)
        → get_or s.base.activated_worker w false ≡ true
        → IsSound num (open_pane num t w s).0 (hist ++ (open_pane num t w s).1)
    unfolding open_pane deliver set_des set_base add_tuple_to set_instances notice pane_des
    open_pane-IsSound fresh act =
        let p = t.pane_id in
        let d = pane_des num p s in
        let e : PaneDes = record {
          a_tuples = 1;
          a_worker = some w;
          w_ids = d.w_ids ++ (w ∷ []);
          i_sizes = set d.i_sizes w 1;
        } in
        let b = add_tuple_to w (set_instances p 1 s.base) in
        let r : Tuple W = record t { no_instances = get_or b.p_instances p 0 } in
        let x = base_with 1 in
        let only : (y : ℕ) → has y (d.w_ids ++ (w ∷ [])) ≡ true → y ≡ w = λ y g.
          elim (has-append y d.w_ids (w ∷ []) g) [
            | inl z ↦ absurd (fresh y z)
            | inr z ↦ has-singleton y w z
          ] in
        change-IsSound p 1 w s b e hist r r [] v x refl x.here (rw k refl) refl x.here (rw k refl)
          (λ y g. inl (only y g, rw (only y g) act)) w refl (has_last w d.w_ids)

    pub split_pane-IsSound :
        ⦃o : Double W⦄
        → get_or s.base.activated_worker w false ≡ true
        → (r : Adaptive R × List (ℕ × Tuple W)) × (split_pane num t w s ≡ some r)
          × IsSound num r.0 (hist ++ r.1)
    unfolding split_pane deliver set_des set_base add_tuple_to set_instances multicast_newinst_to_w
        create_newinst notice pane_des
    split_pane-IsSound ⦃o⦄ act =
        let p = t.pane_id in
        let d = pane_des num p s in
        let n = get_or s.base.p_instances p 0 + 1 in
        let b = set_instances p n s.base in
        let e : PaneDes = record d {
          a_tuples = 1;
          a_worker = some w;
          i_sizes = set d.i_sizes w 1;
          w_ids = d.w_ids ++ (w ∷ []);
        } in
        let u : Tuple W = create_newinst empty p (get_or b.p_instances p 0) (length d.w_ids) in
        let r : Tuple W = record t { no_instances = get_or b.p_instances p 0 } in
        let l : List (ℕ × Tuple W) = map (λ y. (y, u)) d.w_ids in
        let z = deliver t w (set_des p e (set_base b s)) in
        let x = base_with n in
        (
          (z.0, l ++ z.1),
          rw
              (multicast-true u d.w_ids b
                (has-All (λ y. get_or s.base.activated_worker y false ≡ true) d.w_ids v.held))
              refl,
          change-IsSound p n w s (add_tuple_to w b) e hist u r d.w_ids v x refl x.here refl refl
              x.here (rw k refl)
              (λ y g. elim (has-append y d.w_ids (w ∷ []) g) [
                | inl f ↦ inr (f, inl f)
                | inr f ↦ let same = has-singleton y w f in inl (same, rw same act)
              ])
              w refl (has_last w d.w_ids),
        )
