-- ===== src/Plq/Sched/PbRr/Placed.antt =====
-- The worker of a pane, and the tuples that it gets.
use elastic_ppq.Common.{
  ℕ, ◌+◌, ◌%◌, ◌≤◌, ◌<◌, ◌≡◌, ◌≢◌, refl, sym, ◌∙◌, subst, inl, inr, true, false, List, [], ◌∷◌,
  Option, none, some, arith, ℕ_discrete, get_or, set, length, length-set, get_or-set_other,
  get_or-set_self, leb, Bool-cases,
}
use elastic_ppq.Message.{Tuple}
use elastic_ppq.Plq.Sched.{extend, add_size, add_tuple_to, set_instances}
use elastic_ppq.Plq.Sched.Passing.{IsActivated, get_rr_w_lem}
use elastic_ppq.Plq.Sched.Informed.{get_or-resize_grow, length-resize}
use elastic_ppq.Plq.Sched.PbRr.{PbRr, extend_all, deliver, place, sched_to_worker}

-- The workers of the open panes are activated.
pub record IsPlaced (s : PbRr) : Type 0 where
  pub sized : length s.panes_ws ≡ length s.base.p_instances
  pub placed :
      (p w : ℕ)
      → s.base.next_pane_id ≤ p
      → get_or s.panes_ws p none ≡ some w
      → get_or s.base.activated_worker w false ≡ true

-- What an extension leaves as it was.
record Extended (p : ℕ) (s e : PbRr) : Type 0 where
  sized : length e.panes_ws ≡ length e.base.p_instances
  inside : p < length e.panes_ws
  next : e.base.next_pane_id ≡ s.base.next_pane_id
  active : e.base.activated_worker ≡ s.base.activated_worker
  same : (q : ℕ) → get_or e.panes_ws q none ≡ get_or s.panes_ws q none

extend_all-Extended :
    (p : ℕ) (s : PbRr)
    → length s.panes_ws ≡ length s.base.p_instances
    → Extended p s (extend_all p s)
unfolding extend_all extend
extend_all-Extended p s l = elim (Bool-cases (leb (length s.base.p_instances) p)) [
  | inl h ↦ rw h (record {
    sized =
        length-resize (p + 1) none s.panes_ws ∙ sym (length-resize (p + 1) 0 s.base.p_instances);
    inside = omega (arith, length-resize (p + 1) none s.panes_ws);
    next = refl;
    active = refl;
    same = λ q. get_or-resize_grow (p + 1) none s.panes_ws q (ground (arith, h, l));
  })
  | inr h ↦ rw h (record {
    sized = l;
    inside = ground (arith, h, l);
    next = refl;
    active = refl;
    same = λ q. refl;
  })
]

module _ {W : Type 0} where
  -- What scheduling a tuple comes to: it went to worker i alone, which has the pane from now on.
  pub record Placing (t : Tuple W) (s : PbRr) (i : ℕ) (r : PbRr × List (ℕ × Tuple W)) : Type 0 where
    pub sound : IsPlaced r.0
    pub sent : r.1 ≡ (i, record t { no_instances = get_or r.0.base.p_instances t.pane_id 0 }) ∷ []
    pub here : get_or r.0.panes_ws t.pane_id none ≡ some i
    pub others : (q : ℕ) → q ≢ t.pane_id → get_or r.0.panes_ws q none ≡ get_or s.panes_ws q none
    pub kept : (v : ℕ) → get_or s.panes_ws t.pane_id none ≡ some v → i ≡ v

module _ {W : Type 0} (num w : ℕ) (lt : w < num) where
  place-Placing :
      (t : Tuple W) (s : PbRr) (o : Option ℕ)
      → IsPlaced s
      → get_or s.panes_ws t.pane_id none ≡ o
      → t.pane_id < length s.panes_ws
      → get_or s.base.activated_worker w false ≡ true
      → (r : PbRr × List (ℕ × Tuple W)) × (i : ℕ) × (place num t o s ≡ some r) × Placing t s i r
  unfolding place deliver add_tuple_to set_instances IsActivated
  place-Placing t s (some i) v e ins act = (
    deliver t i s,
    i,
    refl,
    record {
      sound = record { sized = v.sized; placed = v.placed };
      sent = refl;
      here = e;
      others = λ q ne. refl;
      kept = λ u h. ground (arith, e, h);
    },
  )
  place-Placing t s none v e ins act =
      let (i, found, a) = get_rr_w_lem num w s.base lt act in
      let s' : PbRr = record {
        base = record s.base {
          last_w = (i + 1) % num;
          p_instances = set s.base.p_instances t.pane_id 1;
          tuples_to_w = set s.base.tuples_to_w i (get_or s.base.tuples_to_w i 0 + 1);
        };
        panes_ws = set s.panes_ws t.pane_id (some i);
      } in
      let got : get_or s'.panes_ws t.pane_id none ≡ some i =
        get_or-set_self s.panes_ws t.pane_id (some i) none ins in
      (
        (s', (i, record t { no_instances = get_or s'.base.p_instances t.pane_id 0 }) ∷ []),
        i,
        rw found refl,
        record {
          sound = record {
            sized =
                length-set s.panes_ws t.pane_id (some i)
                ∙ v.sized
                ∙ sym (length-set s.base.p_instances t.pane_id 1);
            placed = λ p x ge h. elim (ℕ_discrete p t.pane_id) [
              | yes q ↦
                  let same : i ≡ x =
                    ground (arith, got, subst (λ z. get_or s'.panes_ws z none ≡ some x) q h) in
                  subst (λ z. get_or s.base.activated_worker z false ≡ true) same a
              | no ne ↦
                  v.placed p x ge
                    (sym (get_or-set_other s.panes_ws t.pane_id p (some i) none ne) ∙ h)
            ];
          };
          sent = refl;
          here = got;
          others = λ q ne. get_or-set_other s.panes_ws t.pane_id q (some i) none ne;
          kept = λ u h. ground (arith, e, h);
        },
      )

  -- With an activated worker, a tuple is scheduled without an abort: it goes to one worker, with the
  -- number of instances of its pane; if the pane had a worker this is the one, and if not the pane has
  -- it from now on. The workers of the other panes stay, and those of open panes are activated still.
  pub sched_to_worker-Placing :
      (t : Tuple W) (s : PbRr)
      → IsPlaced s
      → get_or s.base.activated_worker w false ≡ true
      → (r : PbRr × List (ℕ × Tuple W)) × (i : ℕ) × (sched_to_worker num t s ≡ some r)
        × Placing t s i r
  unfolding sched_to_worker add_size
  sched_to_worker-Placing t s v act =
      let p = t.pane_id in
      let e = extend_all p s in
      let x = extend_all-Extended p s v.sized in
      let e' : PbRr = record e { base = add_size p e.base } in
      let v' : IsPlaced e' = record {
        sized = x.sized;
        placed = λ q u ge h.
            subst (λ l. get_or l u false ≡ true) (sym x.active)
              (v.placed q u (omega (arith, ge, x.next)) (sym (x.same q) ∙ h));
      } in
      let (r, i, found, z) =
        place-Placing t e' (get_or e.panes_ws p none) v' refl x.inside
          (subst (λ l. get_or l w false ≡ true) (sym x.active) act) in
      (
        r,
        i,
        found,
        record {
          sound = z.sound;
          sent = z.sent;
          here = z.here;
          others = λ q ne. z.others q ne ∙ x.same q;
          kept = λ u h. z.kept u (x.same p ∙ h);
        },
      )
