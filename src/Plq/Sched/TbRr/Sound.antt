-- ===== src/Plq/Sched/TbRr/Sound.antt =====
-- The workers that hold partitions of the open panes, and what they were told.
use elastic_ppq.Common.{ℕ, ◌≤◌, ◌<◌, ◌≡◌, true, false, List, [], get_or, length}
use elastic_ppq.Double.{Double}
use elastic_ppq.Message.{Tuple}
use elastic_ppq.Plq.Sched.{has}
use elastic_ppq.Plq.Sched.Informed.{View, IsTold}
use elastic_ppq.Plq.Sched.TbRr.{TbRr}

abbrev pub view : TbRr → View
view s = record {
  next = s.base.next_pane_id;
  active = λ w. get_or s.base.activated_worker w false;
  inst = λ p. get_or s.base.p_instances p 0;
  holders = λ p. get_or s.p_workers p [];
}

-- The holders of the open panes are activated, and those below i only where i bounds them.
abbrev pub HeldBelow : TbRr → ℕ → Type 0
HeldBelow s i =
    (p w : ℕ)
    → s.base.next_pane_id ≤ p
    → p < i
    → has w (get_or s.p_workers p []) ≡ true
    → get_or s.base.activated_worker w false ≡ true

pub record IsSound {W : Type 0} (s : TbRr) (hist : List (ℕ × Tuple W)) : Type 0 where
  pub sized : length s.p_workers ≡ length s.base.p_instances
  pub told : IsTold (view s) hist
  pub held :
      (p w : ℕ)
      → s.base.next_pane_id ≤ p
      → has w (get_or s.p_workers p []) ≡ true
      → get_or s.base.activated_worker w false ≡ true

-- What an extension leaves as it was.
record Extended (p : ℕ) (s e : TbRr) : Type 0 where
  sized : length e.p_workers ≡ length e.base.p_instances
  inside : p < length e.base.p_instances
  next : e.base.next_pane_id ≡ s.base.next_pane_id
  active : e.base.activated_worker ≡ s.base.activated_worker
  inst : (q : ℕ) → get_or e.base.p_instances q 0 ≡ get_or s.base.p_instances q 0
  holders : (q : ℕ) → get_or e.p_workers q [] ≡ get_or s.p_workers q []
