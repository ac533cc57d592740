-- ===== src/Plq/Sched/TbRr/Tests.antt =====
-- Tests of `TB_RR_Sched` with four workers, three of them activated at the start.
use elastic_ppq.Common.{
  ℕ, zero, suc, length, ◌≤◌, ◌<◌, ◌≡◌, refl, true, false, List, [], ◌∷◌, ◌++◌, map, Option, none,
  some, arith, get_or,
}
use elastic_ppq.Double.{nat_double}
use elastic_ppq.Message.{Tuple, Kind, empty, create_newinst}
use elastic_ppq.Query.TData.{resize}
use elastic_ppq.Plq.Sched
use elastic_ppq.Plq.Sched.{
  Sched, first_activated, find_activated, first_found, get_rr_w, extend, add_size, add_tuple_to,
  set_instances, has, switch_off, multicast, multicast_newinst_to_w, multicast_flush_to_w, Removal,
}
use elastic_ppq.Plq.Sched.Informed.{heard, notice}
use elastic_ppq.Plq.Sched.TbRr.{
  TbRr, create, extend_all, join, deliver, sched_to_worker, remove_workers,
}
use elastic_ppq.Plq.Sched.TbRr.Sound.{IsSound}
use elastic_ppq.Plq.Sched.TbRr.Removing.{remove_workers-IsSound}
use elastic_ppq.Plq.Sched.TbRr.Repairing.{Repaired}

abbrev tuple : ℕ → Tuple ℕ
unfolding empty
tuple p = record empty { kind = Kind.regular; pane_id = p }

abbrev seen : Option (TbRr × List (ℕ × Tuple ℕ)) → List (ℕ × ℕ × ℕ)
seen none = []
seen (some r) = map (λ m. (m.0, m.1.pane_id, m.1.no_instances)) r.1

abbrev again : Tuple ℕ → Option (TbRr × List (ℕ × Tuple ℕ)) → Option (TbRr × List (ℕ × Tuple ℕ))
again t none = none
again t (some r) = sched_to_worker 4 t r.0

-- The first two tuples of pane 1 split it: the first worker is told of the second instance.
two_tuples :
    seen (again (tuple 1) (sched_to_worker 4 (tuple 1) (create 4 3))) ≡ (0, 1, 2) ∷ (1, 1, 2) ∷ []
unfolding create Sched.create first_activated sched_to_worker extend_all extend add_size get_rr_w
    find_activated first_found join deliver add_tuple_to set_instances has multicast_newinst_to_w
    multicast create_newinst resize empty
two_tuples = refl

-- What worker 2 was told of pane 0, where two workers hold it.
abbrev split : TbRr
split = record {
  base = record {
    nw_plq = 3;
    last_w = 2;
    next_pane_id = 0;
    activated_worker = true ∷ true ∷ true ∷ false ∷ [];
    p_instances = 1 ∷ [];
    pane_size = 3 ∷ [];
    cm_panes_split = [];
    n_punc = 0;
    tuples_to_w = 0 ∷ 3 ∷ 0 ∷ 0 ∷ [];
  };
  p_workers = (1 ∷ []) ∷ [];
}

abbrev sent : List (ℕ × Tuple ℕ)
unfolding empty
sent = (1, record empty { kind = Kind.regular; no_instances = 1 }) ∷ []

split-IsSound : IsSound split sent
unfolding heard has notice empty
split-IsSound = record {
  sized = refl;
  told = record { told = λ p w ge h. told p w h };
  held = λ p w ge h. held p w h;
}
  where
    told :
        (p w : ℕ)
        → has w (get_or split.p_workers p []) ≡ true
        → heard w p sent 0 ≡ get_or split.base.p_instances p 0
    told zero w h = ground (arith, h)
    told (suc p) w h = absurd (cc)

    held :
        (p w : ℕ)
        → has w (get_or split.p_workers p []) ≡ true
        → get_or split.base.activated_worker w false ≡ true
    held zero zero h = refl
    held zero (suc zero) h = refl
    held zero (suc (suc w)) h = absurd (ground (arith, h))
    held (suc p) w h = absurd (cc)

remove_workers-IsSound_example :
    (r : Removal ℕ TbRr) × (remove_workers 4 1 (1 ∷ []) split ≡ some r)
    × IsSound r.state (sent ++ (r.flushes ++ r.repairs))
    × ((p : ℕ)
        → split.base.next_pane_id ≤ p
        → p < length split.p_workers
        → Repaired r.state.base.activated_worker split r.state p)
    × ((x : ℕ) → has x (1 ∷ []) ≡ true → get_or r.state.base.activated_worker x false ≡ false)
unfolding has
remove_workers-IsSound_example =
    remove_workers-IsSound 4 2 (omega arith) 1 (1 ∷ []) split sent split-IsSound (refl, refl, tt)
      refl refl
