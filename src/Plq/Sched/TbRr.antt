-- ===== src/Plq/Sched/TbRr.antt =====
-- `class TB_RR_Sched` of include/sched_plq.hpp: each tuple goes to the next worker in the round.
mod Sound
mod Removing
mod Repairing
mod Tests
use elastic_ppq.Common.{
  ℕ, zero, suc, ◌+◌, ◌-◌, Bool, true, false, List, [], ◌∷◌, ◌++◌, Option, none, some, get_or, set,
  length, keep, ltb, leb, and_then, if◌then◌else◌,
}
use elastic_ppq.Double.{Double}
use elastic_ppq.Message.{Tuple, empty, create_emptypane}
use elastic_ppq.Query.TData.{resize}
use elastic_ppq.Plq.Sched
use elastic_ppq.Plq.Sched.{
  Sched, get_rr_w, extend, add_size, add_tuple_to, set_instances, has, switch_off,
  multicast_newinst_to_w, multicast_flush_to_w, Removal,
}

pub record TbRr : Type 0 where
  pub base : Sched
  pub p_workers : List (List ℕ)

unfoldable pub create : ℕ → ℕ → TbRr
create num nw_plq = record { base = Sched.create num nw_plq; p_workers = [] }

unfoldable pub extend_all : ℕ → TbRr → TbRr
extend_all pane_id s =
    if leb (length s.base.p_instances) pane_id
    then record s { base = extend pane_id s.base; p_workers = resize (pane_id + 1) [] s.p_workers }
    else s

-- the activated ones of the workers that hold a pane
unfoldable pub still_activated : List Bool → List ℕ → List ℕ
still_activated active ws = keep (λ w. get_or active w false) ws

module _ {W : Type 0} ⦃o : Double W⦄ where
  -- a new partition, where the worker has none
  unfoldable pub join : ℕ → ℕ → TbRr → Option (TbRr × List (ℕ × Tuple W))
  join p w s =
      let old = get_or s.p_workers p [] in
      let b = set_instances p (get_or s.base.p_instances p 0 + 1) s.base in
      if has w old
      then some (s, [])
      else and_then (multicast_newinst_to_w old p (get_or b.p_instances p 0) b)
          (λ l. some (record s { base = b; p_workers = set s.p_workers p (old ++ (w ∷ [])) }, l))

  unfoldable pub deliver : Tuple W → ℕ → TbRr → TbRr × List (ℕ × Tuple W)
  deliver t w s = (
    record s { base = add_tuple_to w s.base },
    (w, record t { no_instances = get_or s.base.p_instances t.pane_id 0 }) ∷ [],
  )

  unfoldable pub sched_to_worker : ℕ → Tuple W → TbRr → Option (TbRr × List (ℕ × Tuple W))
  sched_to_worker num t s =
      let e = extend_all t.pane_id s in
      and_then (get_rr_w num (add_size t.pane_id e.base)) (λ r.
        and_then (join t.pane_id r.1 (record e { base = r.0 }))
          (λ q. some ((deliver t r.1 q.0).0, q.1 ++ (deliver t r.1 q.0).1)))

  -- the body of the loop of `removeWorkers`, with the new list of workers of pane p
  unfoldable pub repair : ℕ → ℕ → List ℕ → TbRr → Option (TbRr × List (ℕ × Tuple W))
  repair num p [] s =
      let b = set_instances p (get_or s.base.p_instances p 0 + 1) s.base in
      and_then (get_rr_w num b) (λ r. some (
        record { base = r.0; p_workers = set s.p_workers p (r.1 ∷ []) },
        (r.1, create_emptypane empty p (get_or b.p_instances p 0)) ∷ [],
      ))
  repair num p (w ∷ ws) s = some (record s { p_workers = set s.p_workers p (w ∷ ws) }, [])

  -- the loop, over n panes from p on
  unfoldable pub repair_all : ℕ → ℕ → ℕ → TbRr → Option (TbRr × List (ℕ × Tuple W))
  repair_all num p zero s = some (s, [])
  repair_all num p (suc n) s =
      and_then (repair num p (still_activated s.base.activated_worker (get_or s.p_workers p [])) s)
        (λ r. and_then (repair_all num (p + 1) n r.0) (λ q. some (q.0, r.1 ++ q.1)))

  unfoldable pub remove_workers : ℕ → ℕ → List ℕ → TbRr → Option (Removal W TbRr)
  remove_workers num n w_ids s =
      and_then (switch_off w_ids (record s.base { nw_plq = s.base.nw_plq - n })) (λ b.
        and_then (multicast_flush_to_w w_ids b.next_pane_id b) (λ flushes.
          and_then
            (repair_all num b.next_pane_id (length s.p_workers - b.next_pane_id)
              (record s { base = b }))
            (λ r.
              some (record { state = r.0; flushes = flushes; stopped = w_ids; repairs = r.1 }))))

  unfoldable pub execute_stream_progress : ℕ → ℕ → ℕ → TbRr → Option (TbRr × List (ℕ × Tuple W))
  execute_stream_progress num ts p_id s =
      let longer =
        if leb (length s.p_workers) p_id then resize (p_id + 1) [] s.p_workers else s.p_workers in
      let go =
        and_then (Sched.execute_stream_progress num ts p_id s.base)
          (λ r. some (record { base = r.0; p_workers = longer }, r.1)) in
      if ltb p_id s.base.next_pane_id then some (s, []) else go
