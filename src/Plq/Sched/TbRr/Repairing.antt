-- ===== src/Plq/Sched/TbRr/Repairing.antt =====
-- What `removeWorkers` of `TB_RR_Sched` does with the panes, one after another.
use elastic_ppq.Common.{
  ℕ, suc, ◌+◌, ◌≤◌, ◌<◌, ◌≡◌, sym, ap, ◌∙◌, subst, ◌≢◌, ◌⊎◌, keep, Bool, inl, inr, true, false,
  List, [], ◌∷◌, arith, ℕ_discrete, get_or, length,
}
use elastic_ppq.Plq.Sched.{has}
use elastic_ppq.Plq.Sched.Informed.{}
use elastic_ppq.Plq.Sched.Stopping.{}
use elastic_ppq.Plq.Sched.TbRr.{TbRr}

-- A pane that an activated worker holds: just those of its holders stay, and its instances.
pub record Stays (active : List Bool) (s r : TbRr) (p : ℕ) : Type 0 where
  pub worker : ℕ
  pub holds : has worker (get_or s.p_workers p []) ≡ true
  pub on : get_or active worker false ≡ true
  pub holders :
      get_or r.p_workers p [] ≡ keep (λ w. get_or active w false) (get_or s.p_workers p [])
  pub instances : get_or r.base.p_instances p 0 ≡ get_or s.base.p_instances p 0

-- A pane that no activated worker holds: an activated one is its only holder now, for an instance more.
pub record Moves (active : List Bool) (s r : TbRr) (p : ℕ) : Type 0 where
  pub lost : (x : ℕ) → has x (get_or s.p_workers p []) ≡ true → get_or active x false ≡ false
  pub worker : ℕ
  pub on : get_or active worker false ≡ true
  pub holders : get_or r.p_workers p [] ≡ worker ∷ []
  pub instances : get_or r.base.p_instances p 0 ≡ get_or s.base.p_instances p 0 + 1

abbrev pub Repaired : List Bool → TbRr → TbRr → ℕ → Type 0
Repaired active s r p = Stays active s r p ⊎ Moves active s r p

-- A pane that is as it was.
pub record Untouched (s r : TbRr) (p : ℕ) : Type 0 where
  pub holders : get_or r.p_workers p [] ≡ get_or s.p_workers p []
  pub instances : get_or r.base.p_instances p 0 ≡ get_or s.base.p_instances p 0

-- What the loop over the panes from lo on and before hi does.
pub record Kept (lo hi : ℕ) (s r : TbRr) : Type 0 where
  pub active : r.base.activated_worker ≡ s.base.activated_worker
  pub next : r.base.next_pane_id ≡ s.base.next_pane_id
  pub panes : length r.p_workers ≡ length s.p_workers
  pub outside : (q : ℕ) → (q < lo) ⊎ (hi ≤ q) → Untouched s r q
  pub inside : (q : ℕ) → lo ≤ q → q < hi → Repaired s.base.activated_worker s r q

pub Repaired-before :
    (active : List Bool) (s m r : TbRr) (q : ℕ)
    → Untouched s m q
    → Repaired active m r q
    → Repaired active s r q
Repaired-before active s m r q u (inl x) = inl (record {
  worker = x.worker;
  holds = subst (λ l. has x.worker l ≡ true) u.holders x.holds;
  on = x.on;
  holders = x.holders ∙ ap (keep (λ w. get_or active w false)) u.holders;
  instances = x.instances ∙ u.instances;
})
Repaired-before active s m r q u (inr x) = inr (record {
  lost = λ y h. x.lost y (subst (λ l. has y l ≡ true) (sym u.holders) h);
  worker = x.worker;
  on = x.on;
  holders = x.holders;
  instances = x.instances ∙ ap (λ n. n + 1) u.instances;
})

Repaired-after :
    (active : List Bool) (s m r : TbRr) (q : ℕ)
    → Repaired active s m q
    → Untouched m r q
    → Repaired active s r q
Repaired-after active s m r q (inl x) u = inl (record {
  worker = x.worker;
  holds = x.holds;
  on = x.on;
  holders = u.holders ∙ x.holders;
  instances = u.instances ∙ x.instances;
})
Repaired-after active s m r q (inr x) u = inr (record {
  lost = x.lost;
  worker = x.worker;
  on = x.on;
  holders = u.holders ∙ x.holders;
  instances = u.instances ∙ x.instances;
})

-- The pane p, and then those behind it.
pub Kept-join :
    (p n : ℕ) (s m r : TbRr)
    → Kept p (p + 1) s m
    → Kept (p + 1) (p + 1 + n) m r
    → Kept p (p + suc n) s r
Kept-join p n s m r x y = record {
  active = y.active ∙ x.active;
  next = y.next ∙ x.next;
  panes = y.panes ∙ x.panes;
  outside = λ q out.
      let (a, c) = apart q out in
      let first = x.outside q a in
      let second = y.outside q c in
      record {
        holders = second.holders ∙ first.holders;
        instances = second.instances ∙ first.instances;
      };
  inside = λ q ge lt. elim (ℕ_discrete q p) [
    | yes e ↦
        Repaired-after s.base.activated_worker s m r q (x.inside q ge (omega (arith, e)))
          (y.outside q (inl (omega (arith, e))))
    | no ne ↦
        Repaired-before s.base.activated_worker s m r q (x.outside q (inr (omega (arith, ge, ne))))
          (subst (λ a. Repaired a m r q) x.active
            (y.inside q (omega (arith, ge, ne)) (omega (arith, lt))))
  ];
}
  where
    apart :
        (q : ℕ)
        → (q < p) ⊎ (p + suc n ≤ q)
        → ((q < p) ⊎ (p + 1 ≤ q)) × ((q < p + 1) ⊎ (p + 1 + n ≤ q))
    apart q (inl h) = (inl h, inl (omega (arith, h)))
    apart q (inr h) = (inr (omega (arith, h)), inr (omega (arith, h)))

-- What of the panes is to be shown of a step at p: it is repaired, and the others are as they were.
pub Kept-one :
    (p : ℕ) (s r : TbRr)
    → r.base.activated_worker ≡ s.base.activated_worker
    → r.base.next_pane_id ≡ s.base.next_pane_id
    → length r.p_workers ≡ length s.p_workers
    → ((q : ℕ) → q ≢ p → Untouched s r q)
    → Repaired s.base.activated_worker s r p
    → Kept p (p + 1) s r
Kept-one p s r active next panes other here = record {
  active = active;
  next = next;
  panes = panes;
  outside = λ q out.
      other q (elim out [ inl h ↦ λ e. omega (arith, e, h) | inr h ↦ λ e. omega (arith, e, h) ]);
  inside = λ q ge lt. subst (Repaired s.base.activated_worker s r) (omega (arith, ge, lt)) here;
}
