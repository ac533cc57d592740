-- ===== src/Plq/Sched/PbRr.antt =====
-- `class PB_RR_Sched` of include/sched_plq.hpp: each new pane goes to the next worker in the round. An
-- entry -1 of `panes_ws` is `none`.
mod Placed
mod Moving
mod Tests
use elastic_ppq.Common.{
  ℕ, zero, suc, ◌+◌, ◌-◌, Bool, true, false, List, [], ◌∷◌, ◌++◌, Option, none, some, get_or, set,
  length, ltb, leb, and_then, if◌then◌else◌,
}
use elastic_ppq.Double.{Double}
use elastic_ppq.Message.{Tuple, empty, create_emptypane}
use elastic_ppq.Query.TData.{resize}
use elastic_ppq.Plq.Sched
use elastic_ppq.Plq.Sched.{
  Sched, get_rr_w, extend, add_size, add_tuple_to, set_instances, has, switch_off,
  multicast_flush_to_w, Removal,
}

pub record PbRr : Type 0 where
  pub base : Sched
  pub panes_ws : List (Option ℕ)

unfoldable pub create : ℕ → ℕ → PbRr
create num nw_plq = record { base = Sched.create num nw_plq; panes_ws = [] }

unfoldable pub extend_all : ℕ → PbRr → PbRr
extend_all pane_id s =
    if leb (length s.base.p_instances) pane_id
    then record s { base = extend pane_id s.base; panes_ws = resize (pane_id + 1) none s.panes_ws }
    else s

-- `find` of the worker of a pane in the list of those that are stopped
unfoldable pub is_stopped : Option ℕ → List ℕ → Bool
is_stopped none w_ids = false
is_stopped (some w) w_ids = has w w_ids

module _ {W : Type 0} where
  unfoldable pub deliver : Tuple W → ℕ → PbRr → PbRr × List (ℕ × Tuple W)
  deliver t w s = (
    record s { base = add_tuple_to w s.base },
    (w, record t { no_instances = get_or s.base.p_instances t.pane_id 0 }) ∷ [],
  )

  -- the two branches, by the worker that the pane has
  unfoldable pub place : ℕ → Tuple W → Option ℕ → PbRr → Option (PbRr × List (ℕ × Tuple W))
  place num t (some w) s = some (deliver t w s)
  place num t none s = and_then (get_rr_w num s.base) (λ r. some (
      deliver t r.1 (record {
        base = set_instances t.pane_id 1 r.0;
        panes_ws = set s.panes_ws t.pane_id (some r.1);
      })))

  unfoldable pub sched_to_worker : ℕ → Tuple W → PbRr → Option (PbRr × List (ℕ × Tuple W))
  sched_to_worker num t s =
      let e = extend_all t.pane_id s in
      place num t (get_or e.panes_ws t.pane_id none) (record e { base = add_size t.pane_id e.base })

module _ {W : Type 0} ⦃o : Double W⦄ where
  -- the body of the loop of `removeWorkers`, by the test on pane p
  unfoldable pub move : ℕ → ℕ → Bool → PbRr → Option (PbRr × List (ℕ × Tuple W))
  move num p false s = some (s, [])
  move num p true s =
      let b = set_instances p (get_or s.base.p_instances p 0 + 1) s.base in
      and_then (get_rr_w num b) (λ r. some (
        record { base = r.0; panes_ws = set s.panes_ws p (some r.1) },
        (r.1, create_emptypane empty p (get_or b.p_instances p 0)) ∷ [],
      ))

  -- the loop, over n panes from p on
  unfoldable pub move_all : ℕ → List ℕ → ℕ → ℕ → PbRr → Option (PbRr × List (ℕ × Tuple W))
  move_all num w_ids p zero s = some (s, [])
  move_all num w_ids p (suc n) s =
      and_then (move num p (is_stopped (get_or s.panes_ws p none) w_ids) s)
        (λ r. and_then (move_all num w_ids (p + 1) n r.0) (λ q. some (q.0, r.1 ++ q.1)))

  unfoldable pub remove_workers : ℕ → ℕ → List ℕ → PbRr → Option (Removal W PbRr)
  remove_workers num n w_ids s =
      and_then (switch_off w_ids (record s.base { nw_plq = s.base.nw_plq - n })) (λ b.
        and_then (multicast_flush_to_w w_ids b.next_pane_id b) (λ flushes.
          and_then
            (move_all num w_ids b.next_pane_id (length s.panes_ws - b.next_pane_id)
              (record s { base = b }))
            (λ r.
              some (record { state = r.0; flushes = flushes; stopped = w_ids; repairs = r.1 }))))

  unfoldable pub execute_stream_progress : ℕ → ℕ → ℕ → PbRr → Option (PbRr × List (ℕ × Tuple W))
  execute_stream_progress num ts p_id s =
      let longer =
        if leb (length s.panes_ws) p_id then resize (p_id + 1) none s.panes_ws else s.panes_ws in
      let go =
        and_then (Sched.execute_stream_progress num ts p_id s.base)
          (λ r. some (record { base = r.0; panes_ws = longer }, r.1)) in
      if ltb p_id s.base.next_pane_id then some (s, []) else go
