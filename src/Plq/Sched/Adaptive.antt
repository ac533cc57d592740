-- ===== src/Plq/Sched/Adaptive.antt =====
-- `class Adaptive_Sched` of include/sched_plq.hpp: a pane is split over several workers when its active
-- partition is larger than the partitions of the panes before. The statistics are doubles: an interface
-- has their arithmetic, as the machine has it. `queue w` is the length of the input queue of worker w.
mod Sound
mod Branches
mod Counting
mod Scheduling
mod Forcing
pub mod Mending
mod Removing
pub mod Pid
mod Tests
use elastic_ppq.Common.{
  ℕ, zero, suc, ◌+◌, ◌-◌, Bool, true, false, not, ◌||◌, List, [], ◌∷◌, ◌++◌, Option, none, some,
  get_or, set, length, keep, replicate, ◌==◌, ltb, leb, and_then, if◌then◌else◌,
}
use elastic_ppq.Double.{Double, Real}
use elastic_ppq.Message.{Tuple, empty, create_emptypane}
use elastic_ppq.Query.TData.{resize}
use elastic_ppq.Plq.Sched
use elastic_ppq.Plq.Sched.{
  Sched, get_rr_w, get_llw_w, extend, add_size, add_tuple_to, set_instances, has, switch_off,
  multicast_newinst_to_w, multicast_flush_to_w, complete_pane, note_pane, punctuate_to, Removal,
}

-- `struct pane_des_t`; `none` is the identifier -1
pub record PaneDes : Type 0 where
  pub a_worker : Option ℕ
  pub w_ids : List ℕ
  pub a_tuples : ℕ
  pub i_sizes : List ℕ

unfoldable pub new_des : ℕ → PaneDes
new_des num = record { a_worker = none; w_ids = []; a_tuples = 0; i_sizes = replicate num 0 }

-- the statistics of the sizes of the partitions
pub record Stats (R : Type 0) : Type 0 where
  pub avg_size : R
  pub sn_size : R
  pub std_size : R
  pub tot_instances : R
  pub warmup : Bool

pub record Adaptive (R : Type 0) : Type 0 where
  pub base : Sched
  pub pv : List PaneDes
  pub stats : Stats R

module _ {R : Type 0} ⦃y : Real R⦄ where
  unfoldable pub new_stats : Stats R
  new_stats = record {
    avg_size = y.of_nat 0;
    sn_size = y.of_nat 0;
    std_size = y.of_nat 0;
    tot_instances = y.of_nat 0;
    warmup = true;
  }

  unfoldable pub create : ℕ → ℕ → Adaptive R
  create num nw_plq = record { base = Sched.create num nw_plq; pv = []; stats = new_stats }

  -- the statistics after one more partition
  unfoldable pub add_instance : ℕ → Stats R → Stats R
  add_instance size m =
      let tot = y.plus m.tot_instances (y.of_nat 1) in
      let d = y.minus (y.of_nat size) m.avg_size in
      let avg = y.plus m.avg_size (y.times (y.over (y.of_nat 1) tot) d) in
      record m {
        tot_instances = tot;
        avg_size = avg;
        sn_size = y.plus m.sn_size (y.times d (y.minus (y.of_nat size) avg));
      }

  -- the loop over the sizes of the partitions of a pane
  unfoldable pub add_instances : List ℕ → Stats R → Stats R
  add_instances [] m = m
  add_instances (s ∷ sizes) m = add_instances sizes (if ltb 0 s then add_instance s m else m)

  -- the test on the threshold, which Pid replaces
  unfoldable pub is_small : ℕ → Stats R → Bool
  is_small a_tuples m = y.le (y.of_nat a_tuples) (y.plus m.avg_size m.std_size) || m.warmup

module _ {R : Type 0} where
  unfoldable pub end_of_progress : ⦃y : Real R⦄ → ℕ → Stats R → Stats R
  end_of_progress ⦃y⦄ p_id m = record m {
    std_size = y.sqrt (y.over m.sn_size m.tot_instances);
    warmup = if ltb 5 p_id then false else m.warmup;
  }

  unfoldable pub pane_des : ℕ → ℕ → Adaptive R → PaneDes
  pane_des num p s = get_or s.pv p (new_des num)

  unfoldable pub extend_all : ℕ → ℕ → Adaptive R → Adaptive R
  extend_all num pane_id s =
      if leb (length s.base.p_instances) pane_id
      then record s { base = extend pane_id s.base; pv = resize (pane_id + 1) (new_des num) s.pv }
      else s

  unfoldable pub set_des : ℕ → PaneDes → Adaptive R → Adaptive R
  set_des p d s = record s { pv = set s.pv p d }

  unfoldable pub set_base : Sched → Adaptive R → Adaptive R
  set_base b s = record s { base = b }

  module _ {W : Type 0} where
    unfoldable pub deliver : Tuple W → ℕ → Adaptive R → Adaptive R × List (ℕ × Tuple W)
    deliver t w s = (
      record s { base = add_tuple_to w s.base },
      (w, record t { no_instances = get_or s.base.p_instances t.pane_id 0 }) ∷ [],
    )

    -- the first tuple of a pane, given the worker
    unfoldable pub open_pane : ℕ → Tuple W → ℕ → Adaptive R → Adaptive R × List (ℕ × Tuple W)
    open_pane num t w s =
        let d = pane_des num t.pane_id s in
        deliver t w (
          set_des t.pane_id
            (record {
              a_tuples = 1;
              a_worker = some w;
              w_ids = d.w_ids ++ (w ∷ []);
              i_sizes = set d.i_sizes w 1;
            })
            (set_base (set_instances t.pane_id 1 s.base) s))

    -- one more tuple of the active partition, whose worker is an index of the code
    unfoldable pub continue_pane :
        ℕ → Tuple W → Option ℕ → Adaptive R → Option (Adaptive R × List (ℕ × Tuple W))
    continue_pane num t none s = none
    continue_pane num t (some w) s =
        let d = pane_des num t.pane_id s in
        some (
          deliver t w (
            set_des t.pane_id
              (record d {
                a_tuples = d.a_tuples + 1;
                i_sizes = set d.i_sizes w (get_or d.i_sizes w 0 + 1);
              })
              s))

    -- a worker that has a partition gets the active one again
    unfoldable pub resume_pane : ℕ → Tuple W → ℕ → Adaptive R → Adaptive R × List (ℕ × Tuple W)
    resume_pane num t w s =
        let d = pane_des num t.pane_id s in
        deliver t w (
          set_des t.pane_id
            (record d {
              a_tuples = get_or d.i_sizes w 0 + 1;
              a_worker = some w;
              i_sizes = set d.i_sizes w (get_or d.i_sizes w 0 + 1);
            })
            s)

    module _ ⦃o : Double W⦄ where
      -- a partition for a worker that has none
      unfoldable pub split_pane :
          ℕ → Tuple W → ℕ → Adaptive R → Option (Adaptive R × List (ℕ × Tuple W))
      split_pane num t w s =
          let p = t.pane_id in
          let d = pane_des num p s in
          let b = set_instances p (get_or s.base.p_instances p 0 + 1) s.base in
          let e = record d {
            a_tuples = 1;
            a_worker = some w;
            i_sizes = set d.i_sizes w 1;
            w_ids = d.w_ids ++ (w ∷ []);
          } in
          let r = deliver t w (set_des p e (set_base b s)) in
          and_then (multicast_newinst_to_w d.w_ids p (get_or b.p_instances p 0) b)
            (λ l. some (r.0, l ++ r.1))

      -- a large partition: the least loaded worker is asked
      unfoldable pub grow_pane :
          ℕ → Tuple W → ℕ → Adaptive R → Option (Adaptive R × List (ℕ × Tuple W))
      grow_pane num t w s =
          if has w (pane_des num t.pane_id s).w_ids
          then some (resume_pane num t w s)
          else split_pane num t w s

      -- the cases of `sched_to_worker`, by the test on the threshold
      unfoldable pub sched_by :
          ℕ
          → (ℕ → ℕ)
          → (ℕ → Stats R → Bool)
          → Tuple W
          → Adaptive R
          → Option (Adaptive R × List (ℕ × Tuple W))
      sched_by num queue small t s' =
          let e = extend_all num t.pane_id s' in
          let s = set_base (add_size t.pane_id e.base) e in
          let d = pane_des num t.pane_id s in
          if get_or s.base.pane_size t.pane_id 0 == 1
          then and_then (get_llw_w num queue s.base)
              (λ r. some (open_pane num t r.1 (set_base r.0 s)))
          else if small d.a_tuples s.stats
          then continue_pane num t d.a_worker s
          else and_then (get_llw_w num queue s.base) (λ r. grow_pane num t r.1 (set_base r.0 s))

      unfoldable pub sched_to_worker :
          ⦃y : Real R⦄
          → ℕ
          → (ℕ → ℕ)
          → Tuple W
          → Adaptive R
          → Option (Adaptive R × List (ℕ × Tuple W))
      sched_to_worker num queue t s = sched_by num queue is_small t s

-- `!found || !activatedWorker[a_worker]`, by the workers that are left; where some are, a_worker is one
unfoldable pub is_lost : List Bool → Option ℕ → List ℕ → Bool
is_lost active a [] = true
is_lost active none (w ∷ ws) = true
is_lost active (some a) (w ∷ ws) = not (get_or active a false)

-- the activated ones of the workers that hold a pane, and the sizes without those of the others
unfoldable pub still_activated : List Bool → List ℕ → List ℕ
still_activated active ws = keep (λ w. get_or active w false) ws

unfoldable pub reset_sizes : List Bool → List ℕ → List ℕ → List ℕ
reset_sizes active [] sizes = sizes
reset_sizes active (w ∷ ws) sizes =
    reset_sizes active ws (if get_or active w false then sizes else set sizes w 0)

unfoldable pub prune : List Bool → PaneDes → PaneDes
prune active d = record d {
  w_ids = still_activated active d.w_ids;
  i_sizes = reset_sizes active d.w_ids d.i_sizes;
}

module _ {R W : Type 0} ⦃o : Double W⦄ where
  -- a pane that lost its workers, or its active one, given the least loaded worker; the code reads the
  -- sizes at p here, which behind their end is open in C++ and 0 here
  unfoldable pub force : ℕ → ℕ → ℕ → PaneDes → Adaptive R → Option (Adaptive R × List (ℕ × Tuple W))
  force num p w d s =
      let b = set_instances p (get_or s.base.p_instances p 0 + 1) s.base in
      let e : PaneDes = record {
        a_worker = some w;
        a_tuples = 0;
        i_sizes = set d.i_sizes w 0;
        w_ids = d.w_ids ++ (w ∷ []);
      } in
      let n = get_or b.p_instances p 0 in
      if has w d.w_ids
      then some (set_des p (record d { a_worker = some w; a_tuples = get_or d.i_sizes p 0 }) s, [])
      else and_then (multicast_newinst_to_w d.w_ids p n b)
          (λ l. some (set_des p e (set_base b s), l ++ ((w, create_emptypane empty p n) ∷ [])))

  -- the body of the loop of `removeWorkers`, by what is left of pane p
  unfoldable pub repair :
      ℕ → (ℕ → ℕ) → ℕ → PaneDes → Adaptive R → Option (Adaptive R × List (ℕ × Tuple W))
  repair num queue p d s =
      if is_lost s.base.activated_worker d.a_worker d.w_ids
      then and_then (get_llw_w num queue s.base) (λ r. force num p r.1 d (set_base r.0 s))
      else some (set_des p d s, [])

  -- the loop, over n panes from p on; the queues are read anew for each
  unfoldable pub repair_all :
      ℕ → (ℕ → ℕ → ℕ) → ℕ → ℕ → Adaptive R → Option (Adaptive R × List (ℕ × Tuple W))
  repair_all num queues p zero s = some (s, [])
  repair_all num queues p (suc n) s =
      and_then (repair num (queues p) p (prune s.base.activated_worker (pane_des num p s)) s)
        (λ r. and_then (repair_all num queues (p + 1) n r.0) (λ q. some (q.0, r.1 ++ q.1)))

  unfoldable pub remove_workers :
      ℕ → (ℕ → ℕ → ℕ) → ℕ → List ℕ → Adaptive R → Option (Removal W (Adaptive R))
  remove_workers num queues n w_ids s =
      and_then (switch_off w_ids (record s.base { nw_plq = s.base.nw_plq - n })) (λ b.
        and_then (multicast_flush_to_w w_ids b.next_pane_id b) (λ flushes.
          and_then
            (repair_all num queues b.next_pane_id (length s.pv - b.next_pane_id) (set_base b s))
            (λ r.
              some (record { state = r.0; flushes = flushes; stopped = w_ids; repairs = r.1 }))))

  -- the loop over the completed panes, n from i on, with their statistics
  unfoldable pub complete_all :
      ⦃y : Real R⦄ → ℕ → ℕ → ℕ → Adaptive R → Option (Adaptive R × List (ℕ × Tuple W))
  complete_all num i zero s = some (s, [])
  complete_all num i (suc n) s =
      let m = add_instances (pane_des num i s).i_sizes s.stats in
      and_then (complete_pane num i s.base) (λ r.
        and_then (complete_all num (i + 1) n (record s { base = note_pane i r.0; stats = m }))
          (λ q. some (q.0, r.1 ++ q.1)))

  unfoldable pub execute_stream_progress :
      ⦃y : Real R⦄ → ℕ → ℕ → ℕ → Adaptive R → Option (Adaptive R × List (ℕ × Tuple W))
  execute_stream_progress num ts p_id s =
      let first = s.base.next_pane_id in
      let go = and_then (complete_all num first (p_id - first) (extend_all num p_id s)) (λ r.
        let last : Sched × List (ℕ × Tuple W) = punctuate_to ts p_id r.0.base in
        some
          (record r.0 { base = last.0; stats = end_of_progress p_id r.0.stats }, r.1 ++ last.1)) in
      if ltb p_id first then some (s, []) else go
