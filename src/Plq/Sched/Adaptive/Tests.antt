-- ===== src/Plq/Sched/Adaptive/Tests.antt =====
-- Tests of `Adaptive_Sched` with three workers, whole numbers for doubles and queues of one length.
use elastic_ppq.Common.{
  ℕ, zero, suc, ◌≤◌, ◌<◌, ◌+◌, ◌≡◌, ◌≢◌, refl, true, false, List, [], ◌∷◌, ◌++◌, Option, none, some,
  arith, get_or, and_then,
}
use elastic_ppq.Double.{nat_double, nat_real}
use elastic_ppq.Message.{
  Tuple, Kind, empty, create_newinst, create_emptypane, create_flush, create_lull,
  create_punctuation,
}
use elastic_ppq.Query.TData.{resize}
use elastic_ppq.Pid.Limits.{IsIrreflexive, IsWithin}
use elastic_ppq.Plq.Sched
use elastic_ppq.Plq.Sched.{
  Sched, first_activated, find_activated, first_found, get_rr_w, Llw, llw_step, llw_scan, get_llw_w,
  extend, add_size, add_tuple_to, set_instances, has, switch_off, multicast, multicast_newinst_to_w,
  multicast_flush_to_w, Removal, complete_pane, send_lull, note_pane, punctuate_to, broadcast,
}
use elastic_ppq.Plq.Sched.Adaptive.{
  new_des, Adaptive, new_stats, create, add_instances, pane_des, extend_all, set_des, set_base,
  deliver, open_pane, sched_by, sched_to_worker, is_small, is_lost, still_activated, reset_sizes,
  prune, force, repair, repair_all, remove_workers, complete_all, end_of_progress,
  execute_stream_progress,
}
use elastic_ppq.Plq.Sched.Informed.{heard, notice}
use elastic_ppq.Plq.Sched.Adaptive.Sound.{IsSound, IsGood}
use elastic_ppq.Plq.Sched.Adaptive.Removing.{remove_workers-IsSound_adaptive}
use elastic_ppq.Plq.Sched.Adaptive.Scheduling.{sched_by-IsSound}
use elastic_ppq.Plq.Sched.Adaptive.Pid.{
  AdaptivePid, sched_to_worker as sched_corrected, sched_to_worker_lem,
}

abbrev tuple : ℕ → Tuple ℕ
unfolding empty
tuple p = record empty { kind = Kind.regular; pane_id = p }

abbrev no_queue : ℕ → ℕ
no_queue w = 0

abbrev then_remove : Option (Adaptive ℕ × List (ℕ × Tuple ℕ)) → Option (Removal ℕ (Adaptive ℕ))
then_remove none = none
then_remove (some r) = remove_workers 3 (λ p. no_queue) 1 (2 ∷ []) r.0

abbrev then_tuple : Option (Removal ℕ (Adaptive ℕ)) → Option (Adaptive ℕ × List (ℕ × Tuple ℕ))
then_tuple none = none
then_tuple (some r) =
    and_then (sched_to_worker 3 no_queue (tuple 1) r.state) (λ q. some (q.0, r.repairs ++ q.1))

abbrev holders_and_instances : Option (Adaptive ℕ × List (ℕ × Tuple ℕ)) → List ℕ × ℕ
unfolding pane_des new_des
holders_and_instances none = ([], 0)
holders_and_instances (some r) = ((pane_des 3 1 r.0).w_ids, get_or r.0.base.p_instances 1 0)

-- The stream passes pane 0, and worker 2 is stopped before a tuple of pane 1 comes: pane 1 is forced to
-- worker 1, its first tuple goes to worker 0, and two workers hold what counts as one instance.
forced_twice :
    holders_and_instances (then_tuple (then_remove (execute_stream_progress 3 10 1 (create 3 3))))
    ≡ (1 ∷ 0 ∷ [], 1)
unfolding create new_stats Sched.create first_activated execute_stream_progress complete_all
    end_of_progress add_instances complete_pane send_lull note_pane punctuate_to broadcast get_rr_w
    find_activated first_found remove_workers switch_off multicast_flush_to_w multicast repair_all
    repair prune still_activated reset_sizes is_lost get_llw_w llw_scan llw_step force has set_des
    set_base set_instances multicast_newinst_to_w sched_to_worker sched_by is_small extend_all
    extend add_size open_pane deliver add_tuple_to resize new_des empty pane_des create_lull
    create_flush create_emptypane create_punctuation create_newinst
forced_twice = refl

abbrev start : Adaptive ℕ
start = record {
  base = record {
    nw_plq = 2;
    last_w = 0;
    next_pane_id = 0;
    activated_worker = true ∷ true ∷ false ∷ [];
    p_instances = [];
    pane_size = [];
    cm_panes_split = [];
    n_punc = 0;
    tuples_to_w = 0 ∷ 0 ∷ 0 ∷ [];
  };
  pv = [];
  stats = record { avg_size = 0; sn_size = 0; std_size = 0; tot_instances = 0; warmup = true };
}

abbrev no_messages : List (ℕ × Tuple ℕ)
no_messages = []

nobody : (w : ℕ) → has w [] ≢ true
unfolding has
nobody w h = cc

start-IsSound : IsSound 3 start no_messages
unfolding pane_des new_des
start-IsSound = record {
  sized = record { sized = refl; sizes = refl; turn = omega arith };
  told = record { told = λ p w ge h. absurd (nobody w h) };
  good = λ p ge. record {
    held = λ w h. absurd (nobody w h);
    none_yet = λ z w h. nobody w h;
    in_use = λ pos. absurd (omega (arith, pos));
  };
}

sched_by-IsSound_example :
    (r : Adaptive ℕ × List (ℕ × Tuple ℕ)) × (sched_by 3 no_queue is_small (tuple 1) start ≡ some r)
    × IsSound 3 r.0 (no_messages ++ r.1)
unfolding empty
sched_by-IsSound_example =
    sched_by-IsSound 3 1 no_queue is_small (tuple 1) start no_messages start-IsSound (omega arith)
      refl (λ i. omega arith) refl (omega arith)

irreflexive : IsIrreflexive ℕ
irreflexive = record { less_irrefl = λ x. ground arith }

abbrev corrected : AdaptivePid ℕ
corrected = record {
  sched = start;
  pid = record {
    setpoint = 1;
    i_term = 0;
    last_input = 0;
    input = 0;
    output = 0;
    kp = 2;
    ki = 0;
    kd = 2;
    out_min = 0;
    out_max = 3;
    in_auto = true;
    is_reversed = true;
  };
  alpha = 1;
  pid_tuples = 0 ∷ 0 ∷ 0 ∷ [];
  pid_punc = 0;
  last_sample = 0;
}

sched_to_worker_lem_example :
    (r : AdaptivePid ℕ × List (ℕ × Tuple ℕ)) × (sched_corrected 1 20
        (λ n. n)
        100
        3
        no_queue
        1
        (λ i. 200 + i)
        (tuple 1)
        corrected
      ≡ some r)
    × IsWithin 1 20 r.0.alpha
    × IsSound 3 r.0.sched (no_messages ++ r.1)
unfolding empty
sched_to_worker_lem_example =
    sched_to_worker_lem 1 20 irreflexive (λ n. n) 100 3 1 no_queue 1 (λ i. 200 + i) (tuple 1)
      corrected no_messages refl (record { below = refl; above = refl }) start-IsSound (omega arith)
      refl (λ i. omega arith) refl (omega arith)

-- Pane 0 has its active partition at worker 1, and an older one at worker 0.
abbrev split : Adaptive ℕ
split = record start {
  base = record start.base { p_instances = 2 ∷ []; pane_size = 5 ∷ [] };
  pv =
      record { a_worker = some 1; w_ids = 0 ∷ 1 ∷ []; a_tuples = 3; i_sizes = 2 ∷ 3 ∷ 0 ∷ [] } ∷ [];
}

abbrev sent : List (ℕ × Tuple ℕ)
unfolding empty
sent =
    (0, record empty { kind = Kind.new_inst; no_instances = 2 })
    ∷ (1, record empty { kind = Kind.regular; no_instances = 2 })
    ∷ []

split-IsSound : IsSound 3 split sent
unfolding pane_des new_des has heard notice empty
split-IsSound = record {
  sized = record { sized = refl; sizes = refl; turn = omega arith };
  told = record { told = λ p w ge h. told p w h };
  good = λ p ge. good p;
}
  where
    told :
        (p w : ℕ)
        → has w (pane_des 3 p split).w_ids ≡ true
        → heard w p sent 0 ≡ get_or split.base.p_instances p 0
    told zero zero h = refl
    told zero (suc zero) h = refl
    told zero (suc (suc w)) h = absurd (ground (arith, h))
    told (suc p) w h = absurd (cc)

    held : (w : ℕ) → has w (0 ∷ 1 ∷ []) ≡ true → get_or split.base.activated_worker w false ≡ true
    held zero h = refl
    held (suc zero) h = refl
    held (suc (suc w)) h = absurd (ground (arith, h))

    good : (p : ℕ) → IsGood 3 split p
    good zero = record {
      held = held;
      none_yet = λ z. absurd (omega (arith, z));
      in_use = λ _. (1, refl, refl);
    }
    good (suc p) = record {
      held = λ w h. absurd (nobody w h);
      none_yet = λ z w h. nobody w h;
      in_use = λ pos. absurd (omega (arith, pos));
    }

remove_workers-IsSound_adaptive_example :
    (r : Removal ℕ (Adaptive ℕ)) × (remove_workers 3 (λ p. no_queue) 1 (1 ∷ []) split ≡ some r)
    × IsSound 3 r.state (sent ++ (r.flushes ++ r.repairs))
    × ((x : ℕ) → has x (1 ∷ []) ≡ true → get_or r.state.base.activated_worker x false ≡ false)
unfolding has
remove_workers-IsSound_adaptive_example =
    remove_workers-IsSound_adaptive 3 0 (λ p. no_queue) (omega arith) (λ p i. omega arith) 1
      (1 ∷ []) split sent split-IsSound full (refl, refl, tt) refl refl
  where
    full : (q : ℕ) → 0 ≤ q → q < 1 → 0 < get_or split.base.pane_size q 0
    full zero ge lt = omega arith
    full (suc q) ge lt = absurd (omega (arith, lt))
