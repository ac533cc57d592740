-- ===== src/Plq/Sched/PbRr/Moving.antt =====
-- The panes of the workers that are stopped move to others.
use elastic_ppq.Common.{ℕ, ◌≤◌, ◌<◌, ◌≡◌, true, false, List, none, some, get_or, length}
use elastic_ppq.Double.{Double}
use elastic_ppq.Plq.Sched.PbRr.{PbRr, is_stopped}

-- The loop has passed the panes below i: those of stopped workers have moved to activated ones.
record Moved (w_ids : List ℕ) (s c : PbRr) (i : ℕ) : Type 0 where
  sized : length c.panes_ws ≡ length c.base.p_instances
  panes : length c.panes_ws ≡ length s.panes_ws
  next : c.base.next_pane_id ≡ s.base.next_pane_id
  active : c.base.activated_worker ≡ s.base.activated_worker
  passed :
      (q v : ℕ)
      → s.base.next_pane_id ≤ q
      → q < i
      → get_or c.panes_ws q none ≡ some v
      → get_or s.base.activated_worker v false ≡ true
  ahead : (q : ℕ) → i ≤ q → get_or c.panes_ws q none ≡ get_or s.panes_ws q none
  kept :
      (q : ℕ)
      → is_stopped (get_or s.panes_ws q none) w_ids ≡ false
      → get_or c.panes_ws q none ≡ get_or s.panes_ws q none
