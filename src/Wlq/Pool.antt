-- ===== src/Wlq/Pool.antt =====
-- The workers as `WLQ_Emitter` of include/wlq.hpp sees them: which are activated, which are ready, and
-- how a task gets one. `num` is NUM_WORKER_THREADS, the length of both vectors; `none` is `abort()`
-- or, of a search, -1.
pub mod Idle
mod Tests
use elastic_ppq.Common.{
  ℕ, zero, suc, ◌+◌, ◌-◌, Bool, true, false, not, ◌&&◌, List, [], ◌∷◌, Option, none, some, get_or,
  set, length, replicate, ◌++◌, ◌==◌, and_then, if◌then◌else◌,
}

-- the fields of the emitter that are about the workers
pub record Pool : Type 0 where
  pub nw_wlq : ℕ
  pub last_w : ℕ
  pub worker_ready : List Bool
  pub activated_worker : List Bool
  pub n_ready_workers : ℕ

-- the constructor's vector: the last nw_wlq workers are activated
unfoldable pub last_activated : ℕ → ℕ → List Bool
last_activated num nw_wlq = replicate (num - nw_wlq) false ++ replicate nw_wlq true

unfoldable pub is_idle : Pool → ℕ → Bool
is_idle p i = get_or p.activated_worker i false && get_or p.worker_ready i false

-- the loops of the search and of the count, over n workers from i on
unfoldable pub find_idle : (ℕ → Bool) → ℕ → ℕ → Option ℕ
find_idle idle i zero = none
find_idle idle i (suc n) = let rest = find_idle idle (i + 1) n in if idle i then some i else rest

unfoldable pub count_idle : (ℕ → Bool) → ℕ → ℕ → ℕ
count_idle idle i zero = 0
count_idle idle i (suc n) =
    let rest = count_idle idle (i + 1) n in if idle i then suc rest else rest

-- the second loop runs where the first one found none
abbrev pub or_else : Option ℕ → Option ℕ → Option ℕ
or_else none o = o
or_else (some i) o = some i

unfoldable pub select_idle_worker : ℕ → Pool → Option (Pool × ℕ)
select_idle_worker num p =
    let behind = find_idle (is_idle p) (p.last_w + 1) (num - (p.last_w + 1)) in
    let front = find_idle (is_idle p) 0 (p.last_w + 1) in
    and_then (or_else behind front) (λ i. some (record p { last_w = i }, i))

unfoldable pub get_num_idle_workers : ℕ → Pool → ℕ
get_num_idle_workers num p = count_idle (is_idle p) 0 num

-- what `sendTaskToWorker` does with the worker
unfoldable pub send_to : Pool → ℕ → Pool
send_to p i = record p {
  worker_ready = set p.worker_ready i false;
  n_ready_workers = p.n_ready_workers - 1;
}

-- what the feedback of a worker does with it
unfoldable pub worker_back : Pool → ℕ → Pool
worker_back p i = record p {
  worker_ready = set p.worker_ready i true;
  n_ready_workers = p.n_ready_workers + 1;
}

-- the loops over the identifiers of a reconfiguration
unfoldable pub activate : List ℕ → Pool → Option Pool
activate [] p = some p
activate (w ∷ ws) p =
    let rest = activate ws (record p { activated_worker = set p.activated_worker w true }) in
    if get_or p.activated_worker w false then none else rest

unfoldable pub deactivate : List ℕ → Pool → Option Pool
deactivate [] p = some p
deactivate (w ∷ ws) p =
    let rest = deactivate ws (record p { activated_worker = set p.activated_worker w false }) in
    if get_or p.activated_worker w false then rest else none

unfoldable pub add_workers : ℕ → List ℕ → Pool → Option Pool
add_workers n ws p = activate ws (record p { nw_wlq = p.nw_wlq + n })

unfoldable pub remove_workers : ℕ → List ℕ → Pool → Option Pool
remove_workers n ws p = deactivate ws (record p { nw_wlq = p.nw_wlq - n })

-- the loop of `checkTermination` that activates the others
unfoldable pub wake_all : List Bool → List Bool
wake_all [] = []
wake_all (a ∷ l) = true ∷ wake_all l

unfoldable pub check_termination : ℕ → ℕ → ℕ → Pool → Pool × Bool
check_termination num eos_received n_pendingtasks p =
    if (eos_received == num) && (n_pendingtasks == 0) && (p.n_ready_workers == num)
    then (record p { activated_worker = wake_all p.activated_worker }, true)
    else (p, false)
