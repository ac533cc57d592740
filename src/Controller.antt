-- ===== src/Controller.antt =====
-- include/controller.hpp: the pool of resources that the two stages share, and the reconfigurations that
-- `Controller` makes of the parallelism degrees of its strategy, in the build with both stages. The
-- strategy's answer is an argument. `queues i k` is the length of the input queue of worker k when the
-- i-th of several workers is chosen, and `none` is `abort()`.
pub mod Owners
pub mod Acquire
pub mod Release
pub mod Agree
pub mod Steps
pub mod Start
mod Tests
use elastic_ppq.Common.{
  ℕ, zero, suc, ◌+◌, ◌-◌, ◌*◌, ◌/◌, ◌^◌, min, Bool, true, false, ◌&&◌, ◌||◌, List, [], ◌∷◌, ◌++◌,
  Option, none, some, get_or, set, length, ◌==◌, ltb, leb, and_then, if◌then◌else◌,
}

-- `enum owner_t`; `no_owner` is NONE
pub data Owner : Type 0 where
  plq wlq no_owner : Owner

pub record Resource : Type 0 where
  pub context_id : ℕ
  pub owner : Owner

-- The macros of a machine: the number of cores for workers, the first context, and the steps to the next
-- context of a core and to the next core.
pub record Machine : Type 0 where
  pub threads : ℕ
  pub cores : ℕ
  pub start_idx : ℕ
  pub context_offset : ℕ
  pub core_offset : ℕ

-- the three branches of the constructor's loop; the workers of the WLQ are no more than the cores
unfoldable pub first_owner : Machine → ℕ → ℕ → ℕ → Owner
first_owner m nw_plq nw_wlq count =
    if ltb count nw_plq
    then Owner.plq
    else if leb (m.cores - nw_wlq) count
    then Owner.wlq
    else Owner.no_owner

-- the inner loop, over n cores from j on
unfoldable pub create_row : Machine → ℕ → ℕ → ℕ → ℕ → ℕ → ℕ → List Resource
create_row m nw_plq nw_wlq i j zero count = []
create_row m nw_plq nw_wlq i j (suc n) count =
    record {
      context_id = m.start_idx + i * m.context_offset + j * m.core_offset;
      owner = first_owner m nw_plq nw_wlq count;
    }
    ∷ create_row m nw_plq nw_wlq i (j + 1) n (count + 1)

-- the outer loop, n rounds from i on
unfoldable pub create_rows : Machine → ℕ → ℕ → ℕ → ℕ → ℕ → ℕ → List Resource
create_rows m nw_plq nw_wlq i tot_w zero count = []
create_rows m nw_plq nw_wlq i tot_w (suc n) count =
    create_row m nw_plq nw_wlq i 0 (min tot_w m.cores) count
    ++ create_rows m nw_plq nw_wlq (i + 1) (tot_w - min tot_w m.cores) n (count + min tot_w m.cores)

unfoldable pub create_pool : Machine → ℕ → ℕ → List Resource
create_pool m nw_plq nw_wlq = create_rows m nw_plq nw_wlq 0 m.threads (m.threads / m.cores + 1) 0

unfoldable pub same_owner : Owner → Owner → Bool
same_owner Owner.plq Owner.plq = true
same_owner Owner.wlq Owner.wlq = true
same_owner Owner.no_owner Owner.no_owner = true
same_owner _ _ = false

abbrev pub nobodys : Resource
nobodys = record { context_id = 0; owner = Owner.no_owner }

abbrev pub owner_of : List Resource → ℕ → Owner
owner_of pool id = (get_or pool id nobodys).owner

unfoldable pub set_owner : List Resource → ℕ → Owner → List Resource
set_owner pool id o = set pool id (record (get_or pool id nobodys) { owner = o })

-- the loop of `acquireResources`, over n resources from id on
unfoldable pub acquire_from : ℕ → Owner → ℕ → ℕ → ℕ → List Resource → List Resource × List ℕ
acquire_from num o zero id acquired pool = (pool, [])
acquire_from num o (suc n) id acquired pool =
    let taken = acquire_from num o n (id + 1) (acquired + 1) (set_owner pool id o) in
    let skipped = acquire_from num o n (id + 1) acquired pool in
    if same_owner (owner_of pool id) Owner.no_owner && ltb acquired num
    then (taken.0, id ∷ taken.1)
    else skipped

unfoldable pub acquire_resources : ℕ → Owner → List Resource → List Resource × List ℕ
acquire_resources num o pool = acquire_from num o (length pool) 0 0 pool

-- the search of `releaseResources`, over n resources from id on: the least queue so far, and whose it is
unfoldable pub find_least : (ℕ → ℕ) → Owner → List Resource → ℕ → ℕ → ℕ → Option ℕ → Option ℕ
find_least queue o pool zero id least best = best
find_least queue o pool (suc n) id least best =
    let better = same_owner (owner_of pool id) o && ltb (queue id) least in
    find_least queue o pool n (id + 1) (if better then queue id else least)
      (if better then some id else best)

unfoldable pub release_resources :
    (ℕ → ℕ → ℕ) → Owner → ℕ → List Resource → Option (List Resource × List ℕ)
release_resources queues o zero pool = some (pool, [])
release_resources queues o (suc n) pool =
    and_then (find_least (queues n) o pool (length pool) 0 (2 ^ 64 - 1) none) (λ id.
      and_then (release_resources queues o n (set_owner pool id Owner.no_owner))
        (λ r. some (r.0, id ∷ r.1)))

-- `Reconf_t`
pub data Reconf : Type 0 where
  no_reconf : Reconf
  add : List ℕ → Reconf
  remove : List ℕ → Reconf

unfoldable pub add_if : List ℕ → Reconf
add_if [] = Reconf.no_reconf
add_if (w ∷ ws) = Reconf.add (w ∷ ws)

-- the reconfiguration of one stage, from the old degree to the new one
unfoldable pub get_reconf :
    (ℕ → ℕ → ℕ) → Owner → ℕ → ℕ → List Resource → Option (List Resource × Reconf)
get_reconf queues o nw new_nw pool =
    let released = release_resources queues o (nw - new_nw) pool in
    let acquired = acquire_resources (new_nw - nw) o pool in
    if new_nw == nw
    then some (pool, Reconf.no_reconf)
    else if ltb new_nw nw
    then and_then released (λ r. some (r.0, Reconf.remove r.1))
    else some (acquired.0, add_if acquired.1)

-- the degree that `svc` keeps of a stage after its reconfiguration
unfoldable pub new_degree : ℕ → Reconf → ℕ
new_degree nw Reconf.no_reconf = nw
new_degree nw (Reconf.add ws) = nw + length ws
new_degree nw (Reconf.remove ws) = nw - length ws

pub record Controller : Type 0 where
  pub nw_plq : ℕ
  pub nw_wlq : ℕ
  pub pool : List Resource
  pub n_reconf : ℕ

unfoldable pub is_reconf : Reconf → Bool
is_reconf Reconf.no_reconf = false
is_reconf (Reconf.add ws) = true
is_reconf (Reconf.remove ws) = true

-- a control step: the reconfigurations from the strategy's degrees, and the state after them
unfoldable pub control_step :
    (ℕ → ℕ → ℕ) → (ℕ → ℕ → ℕ) → ℕ × ℕ → Bool → Controller → Option (Controller × Reconf × Reconf)
control_step plq_queues wlq_queues new_nws plq_terminated c =
    let new_plq = if plq_terminated then 0 else new_nws.0 in
    and_then (get_reconf plq_queues Owner.plq c.nw_plq new_plq c.pool) (λ p.
      and_then (get_reconf wlq_queues Owner.wlq c.nw_wlq new_nws.1 p.0) (λ q. some (
        record {
          nw_plq = new_degree c.nw_plq p.1;
          nw_wlq = new_degree c.nw_wlq q.1;
          pool = q.0;
          n_reconf = c.n_reconf + (if is_reconf p.1 || is_reconf q.1 then 1 else 0);
        },
        p.1,
        q.1,
      )))
