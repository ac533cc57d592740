-- ===== src/Plq/Sched/Adaptive/Removing.antt =====
-- Stopping workers with `Adaptive_Sched`: the loop of `removeWorkers` over the open panes.
use elastic_ppq.Common.{
  ℕ, zero, suc, ◌+◌, ◌-◌, ◌^◌, ◌≤◌, ◌<◌, ◌≡◌, ◌≢◌, refl, sym, ◌∙◌, subst, inl, inr, true, false,
  List, [], ◌++◌, map, append_assoc, append-nil, some, arith, get_or, length, get_or_behind, ltb,
  Bool-cases,
}
use elastic_ppq.Double.{Double}
use elastic_ppq.Message.{Tuple, empty, create_flush}
use elastic_ppq.Plq.Sched.{has, multicast_flush_to_w, Removal}
use elastic_ppq.Plq.Sched.Informed.{IsTold, notice, IsTold-silent}
use elastic_ppq.Plq.Sched.Stopping.{
  CanStop, off, off_other, off_in, switch_off-some, has-All, nobody, silent, multicast-false,
}
use elastic_ppq.Plq.Sched.Adaptive.{
  Adaptive, pane_des, set_base, new_des, repair_all, remove_workers,
}
use elastic_ppq.Plq.Sched.Adaptive.Sound.{view, IsGood, IsSound}
use elastic_ppq.Plq.Sched.Adaptive.Forcing.{repair-Mended}
use elastic_ppq.Plq.Sched.Adaptive.Mending.{Kept, Mended}

module _ {R : Type 0} (num : ℕ) where
  -- A pane behind the vectors has no workers and no tuples.
  behind : (s : Adaptive R) (q : ℕ) → length s.base.pane_size ≤ q → length s.pv ≤ q → IsGood num s q
  unfolding pane_des new_des
  behind s q le le' =
      let des = get_or_behind s.pv q (new_des num) le' in
      let nobody' : (x : ℕ) → has x (pane_des num q s).w_ids ≢ true =
        λ x h. nobody x (subst (λ d. has x d.w_ids ≡ true) des h) in
      record {
        held = λ x h. absurd (nobody' x h);
        none_yet = λ z x. nobody' x;
        in_use = λ pos. absurd (omega (arith, pos, get_or_behind s.base.pane_size q 0 le));
      }

module _ {R W : Type 0} ⦃o : Double W⦄ (num w : ℕ) (queues : ℕ → ℕ → ℕ) (lt : w < num)
    (short : (p i : ℕ) → queues p i < 2 ^ 64 - 1) where
  repair_all-Mended :
      (p n : ℕ) (s : Adaptive R) (hist : List (ℕ × Tuple W))
      → Mended num s p hist
      → (0 < n → p + n ≤ length s.pv)
      → get_or s.base.activated_worker w false ≡ true
      → (r : Adaptive R × List (ℕ × Tuple W)) × (repair_all num queues p n s ≡ some r)
        × Kept s r.0
        × Mended num r.0 (p + n) (hist ++ r.1)
  unfolding repair_all
  repair_all-Mended p zero s hist m le act = (
    (s, []),
    refl,
    record { active = refl; next = refl; panes = refl },
    record {
      sized = m.sized;
      told = subst (IsTold (view num s)) (sym (append-nil hist)) m.told;
      below = λ q ge lt. m.below q ge (omega (arith, lt));
      counted = λ q ge. m.counted q (omega (arith, ge));
      in_use = λ q ge. m.in_use q (omega (arith, ge));
    },
  )
  repair_all-Mended p (suc n) s hist m le act =
      let (r, e, k, m1) =
        repair-Mended num p w (queues p) s hist m (omega (arith, le (omega arith))) lt act
          (short p) in
      let (q, e', k', m2) =
        repair_all-Mended (p + 1) n r.0 (hist ++ r.1) m1
          (λ _. omega (arith, le (omega arith), k.panes))
          (subst (λ l. get_or l w false ≡ true) (sym k.active) act) in
      (
        (q.0, r.1 ++ q.1),
        rw e (rw e' refl),
        record {
          active = k'.active ∙ k.active;
          next = k'.next ∙ k.next;
          panes = k'.panes ∙ k.panes;
        },
        record {
          sized = m2.sized;
          told = subst (IsTold (view num q.0)) (append_assoc hist r.1 q.1) m2.told;
          below = λ j ge lt. m2.below j ge (omega (arith, lt));
          counted = λ j ge. m2.counted j (omega (arith, ge));
          in_use = λ j ge. m2.in_use j (omega (arith, ge));
        },
      )

  -- When workers that are activated and pairwise different are stopped, an activated one stays, the
  -- queues are of a length below the largest `size_t` and every open pane of the vectors has a tuple, the
  -- scheduler does not abort: each open pane that lost its active worker gets an activated one, every
  -- holder of an open pane is activated and was told last how many instances the pane has, and no
  -- stopped worker is activated.
  pub remove_workers-IsSound_adaptive :
      (n : ℕ) (w_ids : List ℕ) (s : Adaptive R) (hist : List (ℕ × Tuple W))
      → IsSound num s hist
      → ((q : ℕ) → s.base.next_pane_id ≤ q → q < length s.pv → 0 < get_or s.base.pane_size q 0)
      → CanStop w_ids s.base.activated_worker
      → get_or s.base.activated_worker w false ≡ true
      → has w w_ids ≡ false
      → (r : Removal W (Adaptive R)) × (remove_workers num queues n w_ids s ≡ some r)
        × IsSound num r.state (hist ++ (r.flushes ++ r.repairs))
        × ((x : ℕ) → has x w_ids ≡ true → get_or r.state.base.activated_worker x false ≡ false)
  unfolding remove_workers multicast_flush_to_w create_flush notice set_base pane_des
  remove_workers-IsSound_adaptive n w_ids s hist v full can act stays =
      let active = off w_ids s.base.activated_worker in
      let b = record s.base { nw_plq = s.base.nw_plq - n; activated_worker = active } in
      let s1 : Adaptive R = record s { base = b } in
      let u : Tuple W = create_flush empty (length w_ids) s.base.next_pane_id in
      let flushes : List (ℕ × Tuple W) = map (λ x. (x, u)) w_ids in
      let first = s.base.next_pane_id in
      let count = length s.pv - first in
      let m : Mended num s1 first (hist ++ flushes) = record {
        sized = record { sized = v.sized.sized; sizes = v.sized.sizes; turn = v.sized.turn };
        told =
            IsTold-silent {v = view num s} {v' = view num s1} flushes v.told (omega arith)
              (λ q ge. refl) (λ q x ge h. h) (silent u w_ids refl);
        below = λ q ge le. absurd (omega (arith, ge, le));
        counted = full;
        in_use = λ q ge le. (v.good q ge).in_use (full q ge le);
      } in
      let (r, e, k, z) =
        repair_all-Mended first count s1 (hist ++ flushes) m (λ pos. omega (arith, pos))
          (off_other w_ids s.base.activated_worker w stays ∙ act) in
      (
        record { state = r.0; flushes = flushes; stopped = w_ids; repairs = r.1 },
        rw (switch_off-some w_ids (record s.base { nw_plq = s.base.nw_plq - n }) can) (
            rw
              (multicast-false u w_ids b (
                has-All (λ x. get_or active x false ≡ false) w_ids
                  (λ x h. off_in w_ids s.base.activated_worker x h)))
              (rw e refl)),
        record {
          sized = z.sized;
          told = subst (IsTold (view num r.0)) (append_assoc hist flushes r.1) z.told;
          good = λ q ge. elim (Bool-cases (ltb q (length s.pv))) [
            | inl a ↦ z.below q ge (ground (arith, a, ge, k.next))
            | inr a ↦
                let far : length r.0.pv ≤ q = ground (arith, a, k.panes) in
                behind num r.0 q (omega (arith, far, z.sized.sized, z.sized.sizes)) far
          ];
        },
        λ x h.
            subst (λ l. get_or l x false ≡ false) (sym k.active)
              (off_in w_ids s.base.activated_worker x h),
      )
