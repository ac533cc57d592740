-- ===== src/Plq/Sched/TbRr/Removing.antt =====
-- The workers of the open panes after workers were stopped.
use elastic_ppq.Common.{
  ℕ, zero, suc, ◌+◌, ◌-◌, ◌%◌, ◌≤◌, ◌<◌, ◌≡◌, refl, sym, ◌∙◌, subst, keep, inl, inr, true, false,
  List, [], ◌∷◌, ◌++◌, map, append_assoc, append-nil, some, arith, ℕ_discrete, get_or, set, length,
  length-set, get_or-set_other, get_or-set_self, get_or_behind, ltb, Bool-cases,
}
use elastic_ppq.Double.{Double}
use elastic_ppq.Message.{Tuple, empty, create_emptypane, create_flush}
use elastic_ppq.Plq.Sched.{set_instances, has, multicast_flush_to_w, Removal}
use elastic_ppq.Plq.Sched.Passing.{IsActivated, get_rr_w_lem}
use elastic_ppq.Plq.Sched.Informed.{
  IsTold, notice, has-singleton, has_self, IsTold-silent, IsTold-cast,
}
use elastic_ppq.Plq.Sched.Stopping.{
  CanStop, off, off_other, off_in, switch_off-some, has-All, has-keep, keep-has, nobody, silent,
  multicast-false,
}
use elastic_ppq.Plq.Sched.TbRr.{TbRr, still_activated, repair, repair_all, remove_workers}
use elastic_ppq.Plq.Sched.TbRr.Sound.{view, IsSound, HeldBelow}
use elastic_ppq.Plq.Sched.TbRr.Repairing.{Repaired, Kept, Repaired-before, Kept-join, Kept-one}

record Mended {W : Type 0} (s : TbRr) (i : ℕ) (hist : List (ℕ × Tuple W)) : Type 0 where
  sized : length s.p_workers ≡ length s.base.p_instances
  told : IsTold (view s) hist
  below : HeldBelow s i

has_first : (v : ℕ) (ws : List ℕ) → has v (v ∷ ws) ≡ true
unfolding has
has_first v ws = ground arith

module _ {W : Type 0} ⦃o : Double W⦄ (num w : ℕ) (lt : w < num) where
  repair-Mended :
      (p : ℕ) (ws : List ℕ) (s : TbRr) (hist : List (ℕ × Tuple W))
      → Mended s p hist
      → p < length s.p_workers
      → get_or s.base.activated_worker w false ≡ true
      → ws ≡ keep (λ x. get_or s.base.activated_worker x false) (get_or s.p_workers p [])
      → (r : TbRr × List (ℕ × Tuple W)) × (repair num p ws s ≡ some r)
        × Kept p (p + 1) s r.0
        × Mended r.0 (p + 1) (hist ++ r.1)
  unfolding repair set_instances create_emptypane notice IsActivated
  repair-Mended p (v ∷ ws) s hist m ins act is =
      let active = s.base.activated_worker in
      let sub : (x : ℕ)
          → has x (v ∷ ws) ≡ true
          → (has x (get_or s.p_workers p []) ≡ true) × (get_or active x false ≡ true) =
        λ x h. has-keep active (get_or s.p_workers p []) x (subst (λ l. has x l ≡ true) is h) in
      let s' : TbRr = record s { p_workers = set s.p_workers p (v ∷ ws) } in
      let got : get_or s'.p_workers p [] ≡ v ∷ ws = get_or-set_self s.p_workers p (v ∷ ws) [] ins in
      let fewer : (q x : ℕ)
          → has x (get_or s'.p_workers q []) ≡ true
          → has x (get_or s.p_workers q []) ≡ true =
        λ q x h. elim (ℕ_discrete q p) [
          | yes e ↦
              subst (λ z. has x (get_or s.p_workers z []) ≡ true) (sym e)
                (sub x (
                  subst (λ l. has x l ≡ true) got
                    (subst (λ z. has x (get_or s'.p_workers z []) ≡ true) e h))).0
          | no ne ↦ subst (λ l. has x l ≡ true) (get_or-set_other s.p_workers p q (v ∷ ws) [] ne) h
        ] in
      (
        (s', []),
        refl,
        Kept-one p s s' refl refl (length-set s.p_workers p (v ∷ ws))
            (λ q ne. record {
              holders = get_or-set_other s.p_workers p q (v ∷ ws) [] ne;
              instances = refl;
            })
            (inl (record {
              worker = v;
              holds = (sub v (has_first v ws)).0;
              on = (sub v (has_first v ws)).1;
              holders = got ∙ is;
              instances = refl;
            })),
        record {
          sized = length-set s.p_workers p (v ∷ ws) ∙ m.sized;
          told =
              IsTold-silent {v = view s} {v' = view s'} [] m.told (omega arith) (λ q ge. refl)
                (λ q x ge h. fewer q x h) tt;
          below = λ q x ge le h. elim (ℕ_discrete q p) [
            | yes e ↦
                (sub x (
                  subst (λ l. has x l ≡ true) got
                    (subst (λ z. has x (get_or s'.p_workers z []) ≡ true) e h))).1
            | no ne ↦ m.below q x ge (omega (arith, le, ne)) (fewer q x h)
          ];
        },
      )
  repair-Mended p [] s hist m ins act is =
      let active = s.base.activated_worker in
      let n = get_or s.base.p_instances p 0 + 1 in
      let b = record s.base { p_instances = set s.base.p_instances p n } in
      let (i, found, a) = get_rr_w_lem num w b lt act in
      let s' : TbRr = record {
        base = record b { last_w = (i + 1) % num };
        p_workers = set s.p_workers p (i ∷ []);
      } in
      let u : Tuple W = create_emptypane empty p (get_or b.p_instances p 0) in
      let only : (x : ℕ) → has x (get_or s'.p_workers p []) ≡ true → x ≡ i = λ x h.
        has-singleton x i
          (subst (λ l. has x l ≡ true) (get_or-set_self s.p_workers p (i ∷ []) [] ins) h) in
      (
        (s', (i, u) ∷ []),
        rw found refl,
        Kept-one p s s' refl refl (length-set s.p_workers p (i ∷ []))
            (λ q ne. record {
              holders = get_or-set_other s.p_workers p q (i ∷ []) [] ne;
              instances = get_or-set_other s.base.p_instances p q n 0 ne;
            })
            (inr (record {
              lost = λ x h. elim (Bool-cases (get_or active x false)) [
                | inr off ↦ off
                | inl on ↦ absurd (
                    nobody x (
                      subst (λ l. has x l ≡ true) (sym is)
                        (keep-has active (get_or s.p_workers p []) x h on)))
              ];
              worker = i;
              on = a;
              holders = get_or-set_self s.p_workers p (i ∷ []) [] ins;
              instances = get_or-set_self s.base.p_instances p n 0 (omega (arith, ins, m.sized));
            })),
        record {
          sized =
              length-set s.p_workers p (i ∷ []) ∙ m.sized ∙ sym (length-set s.base.p_instances p n);
          told =
              IsTold-cast {v = view s} {v' = view s'} p u (i ∷ []) m.told (omega arith) refl refl
                refl (λ q ne. get_or-set_other s.base.p_instances p q n 0 ne)
                (λ q x ge ne h.
                  subst (λ l. has x l ≡ true) (get_or-set_other s.p_workers p q (i ∷ []) [] ne) h)
                (λ x h. inl (rw (only x h) (has_self i)));
          below = λ q x ge le h. elim (ℕ_discrete q p) [
            | yes e ↦
                let here = only x (subst (λ z. has x (get_or s'.p_workers z []) ≡ true) e h) in
                subst (λ z. get_or s.base.activated_worker z false ≡ true) (sym here) a
            | no ne ↦
                m.below q x ge (omega (arith, le, ne))
                  (subst (λ l. has x l ≡ true) (get_or-set_other s.p_workers p q (i ∷ []) [] ne) h)
          ];
        },
      )

  repair_all-Mended :
      (p n : ℕ) (s : TbRr) (hist : List (ℕ × Tuple W))
      → Mended s p hist
      → (0 < n → p + n ≤ length s.p_workers)
      → get_or s.base.activated_worker w false ≡ true
      → (r : TbRr × List (ℕ × Tuple W)) × (repair_all num p n s ≡ some r)
        × Kept p (p + n) s r.0
        × Mended r.0 (p + n) (hist ++ r.1)
  unfolding repair_all still_activated
  repair_all-Mended p zero s hist m le act = (
    (s, []),
    refl,
    record {
      active = refl;
      next = refl;
      panes = refl;
      outside = λ q out. record { holders = refl; instances = refl };
      inside = λ q ge less. absurd (omega (arith, ge, less));
    },
    record {
      sized = m.sized;
      told = subst (IsTold (view s)) (sym (append-nil hist)) m.told;
      below = λ q x ge lt h. m.below q x ge (omega (arith, lt)) h;
    },
  )
  repair_all-Mended p (suc n) s hist m le act =
      let (r, e, k, m1) =
        repair-Mended p (still_activated s.base.activated_worker (get_or s.p_workers p [])) s hist m
          (omega (arith, le (omega arith))) act refl in
      let (q, e', k', m2) =
        repair_all-Mended (p + 1) n r.0 (hist ++ r.1) m1
          (λ _. omega (arith, le (omega arith), k.panes))
          (subst (λ l. get_or l w false ≡ true) (sym k.active) act) in
      (
        (q.0, r.1 ++ q.1),
        rw e (rw e' refl),
        Kept-join p n s r.0 q.0 k k',
        record {
          sized = m2.sized;
          told = subst (IsTold (view q.0)) (append_assoc hist r.1 q.1) m2.told;
          below = λ j x ge lt h. m2.below j x ge (omega (arith, lt)) h;
        },
      )

  -- When workers that are activated and pairwise different are stopped and an activated one stays, the
  -- scheduler does not abort. Of each open pane of the vectors that an activated worker still holds, just
  -- these holders stay, and its instances; each other one gets one activated worker as its only holder,
  -- for one instance more. Each holder of an open pane is activated and was told last how many instances
  -- the pane has, if this was so before, and no stopped worker is activated.
  pub remove_workers-IsSound :
      (n : ℕ) (w_ids : List ℕ) (s : TbRr) (hist : List (ℕ × Tuple W))
      → IsSound s hist
      → CanStop w_ids s.base.activated_worker
      → get_or s.base.activated_worker w false ≡ true
      → has w w_ids ≡ false
      → (r : Removal W TbRr) × (remove_workers num n w_ids s ≡ some r)
        × IsSound r.state (hist ++ (r.flushes ++ r.repairs))
        × ((p : ℕ)
            → s.base.next_pane_id ≤ p
            → p < length s.p_workers
            → Repaired r.state.base.activated_worker s r.state p)
        × ((x : ℕ) → has x w_ids ≡ true → get_or r.state.base.activated_worker x false ≡ false)
  unfolding remove_workers multicast_flush_to_w create_flush notice
  remove_workers-IsSound n w_ids s hist v can act stays =
      let active = off w_ids s.base.activated_worker in
      let b = record s.base { nw_plq = s.base.nw_plq - n; activated_worker = active } in
      let s1 : TbRr = record s { base = b } in
      let u : Tuple W = create_flush empty (length w_ids) s.base.next_pane_id in
      let flushes : List (ℕ × Tuple W) = map (λ x. (x, u)) w_ids in
      let first = s.base.next_pane_id in
      let count = length s.p_workers - first in
      let m : Mended s1 first (hist ++ flushes) = record {
        sized = v.sized;
        told =
            IsTold-silent {v = view s} {v' = view s1} flushes v.told (omega arith) (λ q ge. refl)
              (λ q x ge h. h) (silent u w_ids refl);
        below = λ q x ge le h. absurd (omega (arith, ge, le));
      } in
      let (r, e, k, z) =
        repair_all-Mended first count s1 (hist ++ flushes) m (λ pos. omega (arith, pos))
          (off_other w_ids s.base.activated_worker w stays ∙ act) in
      (
        record { state = r.0; flushes = flushes; stopped = w_ids; repairs = r.1 },
        rw (switch_off-some w_ids (record s.base { nw_plq = s.base.nw_plq - n }) can) (
            rw
              (multicast-false u w_ids b (
                has-All (λ x. get_or active x false ≡ false) w_ids
                  (λ x h. off_in w_ids s.base.activated_worker x h)))
              (rw e refl)),
        record {
          sized = z.sized;
          told = subst (IsTold (view r.0)) (append_assoc hist flushes r.1) z.told;
          held = λ p x ge h. elim (Bool-cases (ltb p (length s.p_workers))) [
            | inl q ↦ z.below p x ge (ground (arith, q, ge, k.next)) h
            | inr q ↦ absurd (
                nobody x (
                  subst (λ l. has x l ≡ true)
                    (get_or_behind r.0.p_workers p [] (ground (arith, q, k.panes))) h))
          ];
        },
        λ p ge less.
            subst (λ l. Repaired l s r.0 p) (sym k.active)
              (Repaired-before active s s1 r.0 p (record { holders = refl; instances = refl })
                (k.inside p ge (omega (arith, less, ge)))),
        λ x h.
            subst (λ l. get_or l x false ≡ false) (sym k.active)
              (off_in w_ids s.base.activated_worker x h),
      )
