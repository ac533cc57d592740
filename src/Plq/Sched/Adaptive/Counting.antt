-- ===== src/Plq/Sched/Adaptive/Counting.antt =====
-- The table with the pane of a tuple, and the tuple counted.
use elastic_ppq.Common.{
  ℕ, ◌+◌, ◌≤◌, ◌<◌, ◌≡◌, ◌≢◌, refl, sym, ap, ◌∙◌, inl, inr, arith, get_or, length, length-set,
  get_or-set_other, get_or-set_self, leb, Bool-cases,
}
use elastic_ppq.Query.TData.{resize}
use elastic_ppq.Plq.Sched.{Sched, extend, add_size}
use elastic_ppq.Plq.Sched.Informed.{get_or-resize_grow, length-resize}
use elastic_ppq.Plq.Sched.Adaptive.{Adaptive, pane_des, set_base, new_des, extend_all}
use elastic_ppq.Plq.Sched.Adaptive.Sound.{IsSized}

module _ {R : Type 0} (num : ℕ) where
  pub des_base :
      (q : ℕ) (b : Sched) (s : Adaptive R) → pane_des num q (set_base b s) ≡ pane_des num q s
  unfolding pane_des set_base
  des_base q b s = refl

  pub base_of : (b : Sched) (s : Adaptive R) → (set_base b s).base ≡ b
  unfolding set_base
  base_of b s = refl

  -- The state with the table extended and the tuple counted.
  pub record Prepared (p : ℕ) (s e : Adaptive R) : Type 0 where
    pub sized : IsSized num e
    pub inside : p < length e.pv
    pub next : e.base.next_pane_id ≡ s.base.next_pane_id
    pub active : e.base.activated_worker ≡ s.base.activated_worker
    pub inst : (q : ℕ) → get_or e.base.p_instances q 0 ≡ get_or s.base.p_instances q 0
    pub des : (q : ℕ) → pane_des num q e ≡ pane_des num q s
    pub size : get_or e.base.pane_size p 0 ≡ get_or s.base.pane_size p 0 + 1
    pub sizes : (q : ℕ) → q ≢ p → get_or e.base.pane_size q 0 ≡ get_or s.base.pane_size q 0

  count-Prepared :
      (p : ℕ) (s : Adaptive R)
      → IsSized num s
      → p < length s.pv
      → Prepared p s (set_base (add_size p s.base) s)
  unfolding set_base add_size pane_des
  count-Prepared p s v lt = record {
    sized = record {
      sized = v.sized;
      sizes = length-set s.base.pane_size p _ ∙ v.sizes;
      turn = v.turn;
    };
    inside = lt;
    next = refl;
    active = refl;
    inst = λ q. refl;
    des = λ q. refl;
    size = get_or-set_self s.base.pane_size p _ 0 (omega (arith, lt, v.sized, v.sizes));
    sizes = λ q ne. get_or-set_other s.base.pane_size p q _ 0 ne;
  }

  des_grow :
      (p : ℕ) (s : Adaptive R) (q : ℕ)
      → length s.pv ≤ p + 1
      → get_or (resize (p + 1) (new_des num) s.pv) q (new_des num) ≡ pane_des num q s
  unfolding pane_des
  des_grow p s q le = get_or-resize_grow (p + 1) (new_des num) s.pv q le

  pub prepare-Prepared :
      (p : ℕ) (s : Adaptive R)
      → IsSized num s
      → Prepared p s (set_base (add_size p (extend_all num p s).base) (extend_all num p s))
  unfolding extend_all extend pane_des
  prepare-Prepared p s v = elim (Bool-cases (leb (length s.base.p_instances) p)) [
    | inr h ↦ rw h (count-Prepared p s v (ground (arith, h, v.sized)))
    | inl h ↦
        let le : length s.base.p_instances ≤ p + 1 = ground (arith, h) in
        let e : Adaptive R = record s {
          base = record s.base {
            p_instances = resize (p + 1) 0 s.base.p_instances;
            pane_size = resize (p + 1) 0 s.base.pane_size;
          };
          pv = resize (p + 1) (new_des num) s.pv;
        } in
        let a = length-resize (p + 1) (new_des num) s.pv in
        let b = length-resize (p + 1) 0 s.base.p_instances in
        let c = length-resize (p + 1) 0 s.base.pane_size in
        let z =
          count-Prepared p e (record { sized = a ∙ sym b; sizes = c ∙ sym b; turn = v.turn })
            (omega (arith, a)) in
        let old =
          λ (q : ℕ). get_or-resize_grow (p + 1) 0 s.base.pane_size q (omega (arith, le, v.sizes)) in
        rw h (record {
          sized = z.sized;
          inside = z.inside;
          next = z.next;
          active = z.active;
          inst = λ q. z.inst q ∙ get_or-resize_grow (p + 1) 0 s.base.p_instances q le;
          des = λ q. z.des q ∙ des_grow p s q (omega (arith, le, v.sized));
          size = z.size ∙ ap (λ m. m + 1) (old p);
          sizes = λ q ne. z.sizes q ne ∙ old q;
        })
  ]
