-- ===== src/Plq/Sched.antt =====
-- `class Sched` of include/sched_plq.hpp: the choice of a worker by round robin and the progress of the
-- stream (out-of-order version), with the fields of the monitoring snapshot that it writes. `num` is
-- NUM_WORKER_THREADS and `none` is `abort()`. A message that is sent is a pair of a worker and a tuple.
pub mod Progress
pub mod Passing
pub mod Choice
pub mod Informed
pub mod Stopping
pub mod PbRr
pub mod TbRr
pub mod Adaptive
mod Tests
use elastic_ppq.Common.{
  ℕ, zero, suc, ◌+◌, ◌-◌, ◌%◌, ◌^◌, Bool, true, false, not, List, [], ◌∷◌, ◌++◌, Option, none, some,
  get_or, set, length, replicate, exists, ◌==◌, ltb, leb, and_then, if◌then◌else◌,
}
use elastic_ppq.Double.{Double}
use elastic_ppq.Message.{
  Tuple, empty, create_lull, create_punctuation, create_newinst, create_flush, create_end,
}
use elastic_ppq.Query.TData.{resize}

pub record Sched : Type 0 where
  pub nw_plq : ℕ
  pub last_w : ℕ
  pub next_pane_id : ℕ
  pub activated_worker : List Bool
  pub p_instances : List ℕ
  pub pane_size : List ℕ
  pub cm_panes_split : List ℕ
  pub n_punc : ℕ
  pub tuples_to_w : List ℕ

-- the constructor's vector: the first nw_plq workers are activated
unfoldable pub first_activated : ℕ → ℕ → List Bool
first_activated num nw_plq = replicate nw_plq true ++ replicate (num - nw_plq) false

unfoldable pub create : ℕ → ℕ → Sched
create num nw_plq = record {
  nw_plq = nw_plq;
  last_w = 0;
  next_pane_id = 0;
  activated_worker = first_activated num nw_plq;
  p_instances = [];
  pane_size = [];
  cm_panes_split = [];
  n_punc = 0;
  tuples_to_w = replicate num 0;
}

-- the loops of the search, over n workers from i on
unfoldable pub find_activated : List Bool → ℕ → ℕ → Option ℕ
find_activated ws i zero = none
find_activated ws i (suc n) =
    let rest = find_activated ws (i + 1) n in if get_or ws i false then some i else rest

-- the second loop runs where the first one found none
unfoldable pub first_found : Option ℕ → Option ℕ → Option ℕ
first_found none o = o
first_found (some i) o = some i

unfoldable pub get_rr_w : ℕ → Sched → Option (Sched × ℕ)
get_rr_w num s =
    let behind = find_activated s.activated_worker s.last_w (num - s.last_w) in
    let front = find_activated s.activated_worker 0 s.last_w in
    and_then (first_found behind front) (λ i. some (record s { last_w = (i + 1) % num }, i))

abbrev is_same : Bool → Bool → Bool
is_same true b = b
is_same false b = not b

-- The search for the least loaded worker: `queue w` is the length of the input queue of w, and the
-- variable `llw_id` has no value before the first worker is found.
pub record Llw : Type 0 where
  pub is_found : Bool
  pub least : ℕ
  pub llw_id : Option ℕ

unfoldable pub llw_step : (ℕ → ℕ) → List Bool → ℕ → Llw → Llw
llw_step queue ws w c =
    if get_or ws w false
    then if ltb (queue w) c.least
      then record { is_found = true; least = queue w; llw_id = some w }
      else record c { is_found = true }
    else c

-- the loop, over n workers from w on
unfoldable pub llw_scan : ℕ → (ℕ → ℕ) → List Bool → ℕ → ℕ → Llw → Llw
llw_scan num queue ws zero w c = c
llw_scan num queue ws (suc n) w c = llw_scan num queue ws n ((w + 1) % num) (llw_step queue ws w c)

unfoldable pub get_llw_w : ℕ → (ℕ → ℕ) → Sched → Option (Sched × ℕ)
get_llw_w num queue s =
    let start : Llw = record { is_found = false; least = 2 ^ 64 - 1; llw_id = none } in
    let c = llw_scan num queue s.activated_worker num s.last_w start in
    if c.is_found
    then and_then c.llw_id (λ i. some (record s { last_w = (i + 1) % num }, i))
    else none

-- What a strategy's `removeWorkers` sends, in this order: the FLUSH messages, GO_OUT to each worker that
-- is stopped, and the messages about the panes that are still open. num workers are activated at least,
-- so that the number of activated ones does not wrap.
pub record Removal (W S : Type 0) : Type 0 where
  pub state : S
  pub flushes : List (ℕ × Tuple W)
  pub stopped : List ℕ
  pub repairs : List (ℕ × Tuple W)

-- the loop over the identifiers of `addWorkers`, which the reconfiguration gives with their number
unfoldable pub switch_on : List ℕ → Sched → Option Sched
switch_on [] s = some s
switch_on (w ∷ ws) s =
    let rest = switch_on ws (record s { activated_worker = set s.activated_worker w true }) in
    if get_or s.activated_worker w false then none else rest

unfoldable pub add_workers : ℕ → List ℕ → Sched → Option Sched
add_workers n ws s = switch_on ws (record s { nw_plq = s.nw_plq + n })

-- the loop with which each strategy's `removeWorkers` begins
unfoldable pub switch_off : List ℕ → Sched → Option Sched
switch_off [] s = some s
switch_off (w ∷ ws) s =
    let rest = switch_off ws (record s { activated_worker = set s.activated_worker w false }) in
    if get_or s.activated_worker w false then rest else none

-- `find` on the identifiers of some workers
unfoldable pub has : ℕ → List ℕ → Bool
has w ws = exists (λ v. v == w) ws

-- both vectors are extended by a test on the first
unfoldable pub extend : ℕ → Sched → Sched
extend p_id s =
    if leb (length s.p_instances) p_id
    then record s {
      p_instances = resize (p_id + 1) 0 s.p_instances;
      pane_size = resize (p_id + 1) 0 s.pane_size;
    }
    else s

-- the complete pane i is noted in the snapshot
unfoldable pub note_pane : ℕ → Sched → Sched
note_pane i s = record s { cm_panes_split = s.cm_panes_split ++ (get_or s.p_instances i 0 ∷ []) }

-- the de-activated workers are woken up, all together
unfoldable pub wake : List Bool → List Bool
wake [] = []
wake (a ∷ ws) = true ∷ wake ws

-- one more tuple in a pane, and one more tuple to a worker
unfoldable pub add_size : ℕ → Sched → Sched
add_size p s = record s { pane_size = set s.pane_size p (get_or s.pane_size p 0 + 1) }

unfoldable pub add_tuple_to : ℕ → Sched → Sched
add_tuple_to w s = record s { tuples_to_w = set s.tuples_to_w w (get_or s.tuples_to_w w 0 + 1) }

unfoldable pub set_instances : ℕ → ℕ → Sched → Sched
set_instances p n s = record s { p_instances = set s.p_instances p n }

-- The loop of a multicast, to workers of which each must be activated or each must not.
unfoldable pub multicast :
    {W : Type 0} → Bool → Tuple W → List ℕ → Sched → Option (List (ℕ × Tuple W))
multicast wanted t [] s = some []
multicast wanted t (w ∷ ws) s =
    let rest = multicast wanted t ws s in
    if is_same (get_or s.activated_worker w false) wanted
    then and_then rest (λ l. some ((w, t) ∷ l))
    else none

module _ {W : Type 0} ⦃o : Double W⦄ where
  -- the message for a pane without tuples
  unfoldable pub send_lull : ℕ → ℕ → Sched → Option (Sched × List (ℕ × Tuple W))
  send_lull num i s =
      and_then (get_rr_w num (record s { p_instances = set s.p_instances i 1 }))
        (λ r. some (r.0, (r.1, create_lull empty i) ∷ []))

  unfoldable pub complete_pane : ℕ → ℕ → Sched → Option (Sched × List (ℕ × Tuple W))
  complete_pane num i s = if get_or s.pane_size i 0 == 0 then send_lull num i s else some (s, [])

  -- the loop over n panes from i on
  unfoldable pub complete_panes : ℕ → ℕ → ℕ → Sched → Option (Sched × List (ℕ × Tuple W))
  complete_panes num i zero s = some (s, [])
  complete_panes num i (suc n) s =
      and_then (complete_pane num i s) (λ r.
        and_then (complete_panes num (i + 1) n (note_pane i r.0)) (λ q. some (q.0, r.1 ++ q.1)))

  -- `broadcast_punc_to_w`, to the workers from i on
  unfoldable pub broadcast : Tuple W → ℕ → List Bool → List (ℕ × Tuple W)
  broadcast t i [] = []
  broadcast t i (a ∷ ws) = let rest = broadcast t (i + 1) ws in if a then (i, t) ∷ rest else rest

  -- the end of `executeStreamProgress`
  unfoldable pub punctuate_to : ℕ → ℕ → Sched → Sched × List (ℕ × Tuple W)
  punctuate_to ts p_id s = (
    record s { next_pane_id = p_id; n_punc = s.n_punc + 1 },
    broadcast (create_punctuation empty ts p_id s.nw_plq) 0 s.activated_worker,
  )

  unfoldable pub execute_stream_progress : ℕ → ℕ → ℕ → Sched → Option (Sched × List (ℕ × Tuple W))
  execute_stream_progress num ts p_id s =
      let go =
        and_then (complete_panes num s.next_pane_id (p_id - s.next_pane_id) (extend p_id s))
          (λ r. some ((punctuate_to ts p_id r.0).0, r.1 ++ (punctuate_to ts p_id r.0).1)) in
      if ltb p_id s.next_pane_id then some (s, []) else go

  unfoldable pub multicast_newinst_to_w : List ℕ → ℕ → ℕ → Sched → Option (List (ℕ × Tuple W))
  multicast_newinst_to_w ws pane_id count_instances s =
      multicast true (create_newinst empty pane_id count_instances (length ws)) ws s

  unfoldable pub multicast_flush_to_w : List ℕ → ℕ → Sched → Option (List (ℕ × Tuple W))
  multicast_flush_to_w ws pane_id s = multicast false (create_flush empty (length ws) pane_id) ws s

  -- the END message to all workers
  unfoldable pub broadcast_end_to_w : ℕ → Sched → Sched × List (ℕ × Tuple W)
  broadcast_end_to_w num s = (
    record s { activated_worker = wake s.activated_worker },
    broadcast (create_end empty num) 0 (wake s.activated_worker),
  )
