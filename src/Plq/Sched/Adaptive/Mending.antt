-- ===== src/Plq/Sched/Adaptive/Mending.antt =====
-- What `removeWorkers` of `Adaptive_Sched` keeps from pane to pane.
use elastic_ppq.Common.{
  ℕ, ◌+◌, ◌≤◌, ◌<◌, ◌≡◌, sym, ◌∙◌, subst, Bool, true, false, List, [], ◌∷◌, ◌++◌, some, arith,
  ℕ_discrete, get_or, length, length-set,
}
use elastic_ppq.Message.{Tuple}
use elastic_ppq.Plq.Sched.{Sched, has}
use elastic_ppq.Plq.Sched.Informed.{IsTold, IsTold-silent}
use elastic_ppq.Plq.Sched.Adaptive.{PaneDes, Adaptive, pane_des, set_des, set_base, is_lost}
use elastic_ppq.Plq.Sched.Adaptive.Sound.{
  view, IsSized, IsGood, IsBase, changed-IsSized, changed-des, changed-des_other, changed_other,
  changed_here,
}

pub is_lost-false :
    (active : List Bool) (a : ℕ) (ws : List ℕ)
    → is_lost active (some a) ws ≡ false
    → get_or active a false ≡ true
unfolding is_lost
is_lost-false active a [] e = absurd (cc)
is_lost-false active a (w ∷ ws) e = ground (arith, e)

-- What a part of the loop leaves as it was.
pub record Kept {R : Type 0} (s r : Adaptive R) : Type 0 where
  pub active : r.base.activated_worker ≡ s.base.activated_worker
  pub next : r.base.next_pane_id ≡ s.base.next_pane_id
  pub panes : length r.pv ≡ length s.pv

module _ {R W : Type 0} (num : ℕ) where
  -- The panes below i are mended, those from i on have tuples and an active worker, maybe a stopped one.
  pub record Mended (s : Adaptive R) (i : ℕ) (hist : List (ℕ × Tuple W)) : Type 0 where
    pub sized : IsSized num s
    pub told : IsTold (view num s) hist
    pub below : (q : ℕ) → s.base.next_pane_id ≤ q → q < i → IsGood num s q
    pub counted : (q : ℕ) → i ≤ q → q < length s.pv → 0 < get_or s.base.pane_size q 0
    pub in_use :
        (q : ℕ)
        → i ≤ q
        → q < length s.pv
        → (a : ℕ) × ((pane_des num q s).a_worker ≡ some a) × (has a (pane_des num q s).w_ids ≡ true)

  module _ (p n : ℕ) (s : Adaptive R) (b : Sched) (d : PaneDes) {hist : List (ℕ × Tuple W)}
      (m : Mended s p hist) (x : IsBase num p n s b) (lt : p < length s.pv) where
    pub changed-Mended :
        (hist' : List (ℕ × Tuple W))
        → IsTold (view num (set_des p d (set_base b s))) hist'
        → ((w : ℕ) → has w d.w_ids ≡ true → get_or s.base.activated_worker w false ≡ true)
        → (a : ℕ) → d.a_worker ≡ some a
        → has a d.w_ids ≡ true
        → Kept s (set_des p d (set_base b s)) × Mended (set_des p d (set_base b s)) (p + 1) hist'
    unfolding set_des set_base
    changed-Mended hist' told act a e h =
        let r = set_des p d (set_base b s) in
        let pos = m.counted p (omega arith) lt in
        (
          record { active = x.active; next = x.next; panes = length-set s.pv p d },
          record {
            sized = changed-IsSized num p n s b d m.sized x;
            told = told;
            below = λ q ge le. elim (ℕ_discrete q p) [
              | yes k ↦
                  subst (IsGood num r) (sym k)
                    (changed_here num p n s b d m.sized x lt pos act a e h)
              | no ne ↦
                  changed_other num p n s b d m.sized x q ne
                    (m.below q (omega (arith, ge, x.next)) (omega (arith, le, ne)))
            ];
            counted = λ q ge le.
                subst (λ l. 0 < get_or l q 0) (sym x.sizes)
                  (m.counted q (omega (arith, ge)) (omega (arith, le, length-set s.pv p d)));
            in_use = λ q ge le.
                subst (λ e. (a : ℕ) × (e.a_worker ≡ some a) × (has a e.w_ids ≡ true))
                  (sym (changed-des_other num p n s b d m.sized x q (omega (arith, ge))))
                  (m.in_use q (omega (arith, ge)) (omega (arith, le, length-set s.pv p d)));
          },
        )

    -- A change without messages, after which the pane has no holder that it had not.
    pub quiet :
        n ≡ get_or s.base.p_instances p 0
        → ((y : ℕ) → has y d.w_ids ≡ true → has y (pane_des num p s).w_ids ≡ true)
        → IsTold (view num (set_des p d (set_base b s))) (hist ++ [])
    unfolding set_des set_base pane_des
    quiet same fewer =
        let r = set_des p d (set_base b s) in
        IsTold-silent {v = view num s} {v' = view num r} [] m.told (omega (arith, x.next))
          (λ q ge. elim (ℕ_discrete q p) [
            | yes k ↦
                subst (λ z. get_or b.p_instances z 0 ≡ get_or s.base.p_instances z 0) (sym k)
                  (x.here ∙ same)
            | no ne ↦ x.others q ne
          ])
          (λ q y ge h. elim (ℕ_discrete q p) [
            | yes k ↦
                subst (λ z. has y (pane_des num z s).w_ids ≡ true) (sym k)
                  (fewer y (
                    subst (λ e. has y e.w_ids ≡ true) (changed-des num p n s b d m.sized x lt)
                      (subst (λ z. has y (pane_des num z r).w_ids ≡ true) k h)))
            | no ne ↦
                subst (λ e. has y e.w_ids ≡ true) (changed-des_other num p n s b d m.sized x q ne) h
          ])
          tt
