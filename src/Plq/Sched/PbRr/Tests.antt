-- ===== src/Plq/Sched/PbRr/Tests.antt =====
-- Tests of `PB_RR_Sched` with three workers, two of them activated at the start.
use elastic_ppq.Common.{
  ℕ, zero, suc, ◌≡◌, refl, true, false, List, [], ◌∷◌, map, Option, none, some, arith, get_or,
}
use elastic_ppq.Double.{nat_double}
use elastic_ppq.Message.{Tuple, Kind, empty}
use elastic_ppq.Query.TData.{resize}
use elastic_ppq.Plq.Sched
use elastic_ppq.Plq.Sched.{
  first_activated, find_activated, first_found, get_rr_w, extend, add_size, add_tuple_to,
  set_instances,
}
use elastic_ppq.Plq.Sched.PbRr.{PbRr, create, extend_all, deliver, place, sched_to_worker}
use elastic_ppq.Plq.Sched.PbRr.Placed.{IsPlaced, Placing, sched_to_worker-Placing}

abbrev tuple : ℕ → Tuple ℕ
unfolding empty
tuple p = record empty { kind = Kind.regular; pane_id = p }

abbrev seen : Option (PbRr × List (ℕ × Tuple ℕ)) → List (ℕ × ℕ)
seen none = []
seen (some r) = map (λ m. (m.0, m.1.pane_id)) r.1

abbrev again : Tuple ℕ → Option (PbRr × List (ℕ × Tuple ℕ)) → Option (PbRr × List (ℕ × Tuple ℕ))
again t none = none
again t (some r) = sched_to_worker 3 t r.0

-- The tuples of one pane go to one worker, those of the next to the next.
same_pane : seen (again (tuple 1) (sched_to_worker 3 (tuple 1) (create 3 2))) ≡ (0, 1) ∷ []
unfolding create Sched.create first_activated sched_to_worker extend_all extend place add_size
    get_rr_w find_activated first_found deliver add_tuple_to set_instances resize empty
same_pane = refl

next_pane : seen (again (tuple 0) (sched_to_worker 3 (tuple 1) (create 3 2))) ≡ (1, 0) ∷ []
unfolding create Sched.create first_activated sched_to_worker extend_all extend place add_size
    get_rr_w find_activated first_found deliver add_tuple_to set_instances resize empty
next_pane = refl

-- Pane 0 is with worker 1.
abbrev placed : PbRr
placed = record {
  base = record {
    nw_plq = 2;
    last_w = 2;
    next_pane_id = 0;
    activated_worker = true ∷ true ∷ false ∷ [];
    p_instances = 1 ∷ [];
    pane_size = 3 ∷ [];
    cm_panes_split = [];
    n_punc = 0;
    tuples_to_w = 0 ∷ 3 ∷ 0 ∷ [];
  };
  panes_ws = some 1 ∷ [];
}

placed-IsPlaced : IsPlaced placed
placed-IsPlaced = record { sized = refl; placed = λ p w ge h. active p w h }
  where
    active :
        (p w : ℕ)
        → get_or placed.panes_ws p none ≡ some w
        → get_or placed.base.activated_worker w false ≡ true
    active zero zero h = refl
    active zero (suc zero) h = refl
    active zero (suc (suc w)) h = absurd (ground (arith, h))
    active (suc p) w h = absurd (cc)

sched_to_worker-Placing_example :
    (r : PbRr × List (ℕ × Tuple ℕ)) × (i : ℕ) × (sched_to_worker 3 (tuple 0) placed ≡ some r)
    × Placing (tuple 0) placed i r
sched_to_worker-Placing_example =
    sched_to_worker-Placing 3 1 (omega arith) (tuple 0) placed placed-IsPlaced refl
