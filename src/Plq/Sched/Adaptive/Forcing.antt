-- ===== src/Plq/Sched/Adaptive/Forcing.antt =====
-- The panes that `removeWorkers` of `Adaptive_Sched` looks at, one by one.
use native.Mathlib.Nat.{mod-lt}
use elastic_ppq.Common.{
  ℕ, ◌+◌, ◌-◌, ◌%◌, ◌^◌, ◌<◌, ◌≡◌, refl, sym, subst, inl, inr, ◌⊎◌, true, false, List, [], ◌∷◌,
  ◌++◌, map, some, arith, get_or, set, length, length-set, get_or-set_other, get_or-set_self,
  Bool-cases,
}
use elastic_ppq.Double.{Double}
use elastic_ppq.Message.{Tuple, empty, create_emptypane, create_newinst}
use elastic_ppq.Plq.Sched.{set_instances, has, multicast_newinst_to_w}
use elastic_ppq.Plq.Sched.Choice.{get_llw_w_lem}
use elastic_ppq.Plq.Sched.Informed.{IsTold, notice, has-append, has-singleton, has_last}
use elastic_ppq.Plq.Sched.Stopping.{has-All, has-keep, keep-has, multicast-true}
use elastic_ppq.Plq.Sched.Adaptive.{
  PaneDes, Adaptive, pane_des, set_des, set_base, still_activated, is_lost, prune, force, repair,
}
use elastic_ppq.Plq.Sched.Adaptive.Sound.{view, IsSized, IsBase, changed-IsTold}
use elastic_ppq.Plq.Sched.Adaptive.Mending.{is_lost-false, Kept, Mended, changed-Mended, quiet}

module _ {R : Type 0} (num : ℕ) where
  turned :
      (p : ℕ) (s : Adaptive R) (i : ℕ)
      → IsSized num s
      → IsBase num p (get_or s.base.p_instances p 0) s (record s.base { last_w = (i + 1) % num })
  turned p s i v = record {
    next = refl;
    active = refl;
    turn = mod-lt (i + 1) (omega (arith, v.turn));
    panes = refl;
    sizes = refl;
    here = refl;
    others = λ q ne. refl;
  }

  turned_with :
      (p n : ℕ) (s : Adaptive R) (i : ℕ)
      → IsSized num s
      → p < length s.pv
      → IsBase num p n s (set_instances p n (record s.base { last_w = (i + 1) % num }))
  unfolding set_instances
  turned_with p n s i v lt = record {
    next = refl;
    active = refl;
    turn = mod-lt (i + 1) (omega (arith, v.turn));
    panes = length-set s.base.p_instances p n;
    sizes = refl;
    here = get_or-set_self s.base.p_instances p n 0 (omega (arith, lt, v.sized));
    others = λ q ne. get_or-set_other s.base.p_instances p q n 0 ne;
  }

module _ {R W : Type 0} (num : ℕ) where
  module _ ⦃o : Double W⦄ where
    -- The forced partition, for an activated worker i that the search found.
    force-Mended :
        (p i : ℕ) (s : Adaptive R) (d : PaneDes) (hist : List (ℕ × Tuple W))
        → Mended num s p hist
        → p < length s.pv
        → ((y : ℕ)
            → has y d.w_ids ≡ true
            → (has y (pane_des num p s).w_ids ≡ true)
              × (get_or s.base.activated_worker y false ≡ true))
        → get_or s.base.activated_worker i false ≡ true
        → (r : Adaptive R × List (ℕ × Tuple W)) × (force num p i d
              (set_base (record s.base { last_w = (i + 1) % num }) s)
            ≡ some r)
          × Kept s r.0
          × Mended num r.0 (p + 1) (hist ++ r.1)
    unfolding force set_base set_des set_instances multicast_newinst_to_w create_newinst
        create_emptypane notice
    force-Mended p i s d hist m lt sub act =
        let b = record s.base { last_w = (i + 1) % num } in
        elim (Bool-cases (has i d.w_ids)) [
          | inl old ↦
              let e : PaneDes = record d { a_worker = some i; a_tuples = get_or d.i_sizes p 0 } in
              let x = turned num p s i m.sized in
              let n = get_or s.base.p_instances p 0 in
              let told = quiet num p n s b e m x lt refl (λ y h. (sub y h).0) in
              let (kept, mended) =
                changed-Mended num p n s b e m x lt (hist ++ []) told (λ y h. (sub y h).1) i refl
                  old in
              ((set_des p e (set_base b s), []), rw old refl, kept, mended)
          | inr new ↦
              let n = get_or s.base.p_instances p 0 + 1 in
              let b' = set_instances p n b in
              let e : PaneDes = record {
                a_worker = some i;
                a_tuples = 0;
                i_sizes = set d.i_sizes i 0;
                w_ids = d.w_ids ++ (i ∷ []);
              } in
              let k = get_or b'.p_instances p 0 in
              let u : Tuple W = create_newinst empty p k (length d.w_ids) in
              let t : Tuple W = create_emptypane empty p k in
              let l : List (ℕ × Tuple W) = map (λ y. (y, u)) d.w_ids in
              let x = turned_with num p n s i m.sized lt in
              let hist' : List (ℕ × Tuple W) = hist ++ (l ++ ((i, t) ∷ [])) in
              let among : (y : ℕ) → has y e.w_ids ≡ true → (has y d.w_ids ≡ true) ⊎ (y ≡ i) = λ y h.
                elim (has-append y d.w_ids (i ∷ []) h) [
                  | inl g ↦ inl g
                  | inr g ↦ inr (has-singleton y i g)
                ] in
              let told : IsTold (view num (set_des p e (set_base b' s))) hist' =
                changed-IsTold num p n s b' e m.sized x i u t d.w_ids m.told lt refl x.here refl
                  refl x.here refl
                  (λ y h. elim (among y h) [ inl g ↦ inl g | inr g ↦ inr (inl g) ]) in
              let (kept, mended) =
                changed-Mended num p n s b' e m x lt hist' told
                  (λ y h. elim (among y h) [
                    | inl g ↦ (sub y g).1
                    | inr g ↦ subst (λ z. get_or s.base.activated_worker z false ≡ true) (sym g) act
                  ])
                  i refl (has_last i d.w_ids) in
              (
                (set_des p e (set_base b' s), l ++ ((i, t) ∷ [])),
                rw new (
                    rw
                      (multicast-true u d.w_ids b' (
                        has-All (λ y. get_or s.base.activated_worker y false ≡ true) d.w_ids
                          (λ y h. (sub y h).1)))
                      refl),
                kept,
                mended,
              )
        ]

    pub repair-Mended :
        (p w : ℕ) (queue : ℕ → ℕ) (s : Adaptive R) (hist : List (ℕ × Tuple W))
        → Mended num s p hist
        → p < length s.pv
        → w < num
        → get_or s.base.activated_worker w false ≡ true
        → ((i : ℕ) → queue i < 2 ^ 64 - 1)
        → (r : Adaptive R × List (ℕ × Tuple W)) × (repair num queue p
              (prune s.base.activated_worker (pane_des num p s))
              s
            ≡ some r)
          × Kept s r.0
          × Mended num r.0 (p + 1) (hist ++ r.1)
    unfolding repair prune still_activated set_base set_des
    repair-Mended p w queue s hist m lt wn act short =
        let active = s.base.activated_worker in
        let old = pane_des num p s in
        let d = prune active old in
        let sub : (y : ℕ)
            → has y d.w_ids ≡ true
            → (has y old.w_ids ≡ true) × (get_or active y false ≡ true) =
          λ y h. has-keep active old.w_ids y h in
        elim (Bool-cases (is_lost active d.a_worker d.w_ids)) [
          | inl lost ↦
              let (i, found, a, _) = get_llw_w_lem num w queue s.base wn act m.sized.turn short in
              let (r, e, kept, mended) = force-Mended p i s d hist m lt sub a in
              (r, rw lost (rw found e), kept, mended)
          | inr fine ↦
              let (a, e, h) = m.in_use p (omega arith) lt in
              let fine' : is_lost active (some a) d.w_ids ≡ false =
                subst (λ z. is_lost active z d.w_ids ≡ false) e fine in
              let on = is_lost-false active a d.w_ids fine' in
              let n = get_or s.base.p_instances p 0 in
              let x : IsBase num p n s s.base = record {
                next = refl;
                active = refl;
                turn = m.sized.turn;
                panes = refl;
                sizes = refl;
                here = refl;
                others = λ q ne. refl;
              } in
              let (kept, mended) =
                changed-Mended num p n s s.base d m x lt (hist ++ [])
                  (quiet num p n s s.base d m x lt refl (λ y h. (sub y h).0)) (λ y h. (sub y h).1) a
                  e (keep-has active old.w_ids a h on) in
              ((set_des p d s, []), rw fine refl, kept, mended)
        ]
