-- ===== src/Rset.antt =====
-- include/Rset.hpp: what the results sets of all queries share.
use elastic_ppq.Common.{ℕ, ◌==◌, ltb, if◌then◌else◌}

-- `class Rset`. Times are in ticks, and 0 is a time that is not set yet.
pub record Rset : Type 0 where
  pub ref_counter : ℕ
  pub id : ℕ
  pub no_instances : ℕ
  pub starting_time : ℕ
  pub ending_time : ℕ
  pub closing_time : ℕ

unfoldable pub create : ℕ → ℕ → ℕ → Rset
create ref_counter id no_instances = record {
  ref_counter = ref_counter;
  id = id;
  no_instances = no_instances;
  starting_time = 0;
  ending_time = 0;
  closing_time = 0;
}

-- How `addComputeTuple` of either query moves the starting time to the arrival of the tuple.
unfoldable pub start_by_tuple : Rset → ℕ → Rset
start_by_tuple r arrival =
    if r.starting_time == 0
    then record r { starting_time = arrival }
    else if ltb arrival r.starting_time
    then record r { starting_time = arrival }
    else r

-- How `addComputeSet` of either query takes over the starting time of the other set.
unfoldable pub start_by_set : Rset → Rset → Rset
start_by_set r b =
    if r.starting_time == 0
    then record r { starting_time = b.starting_time }
    else if ltb 0 b.starting_time
    then if ltb b.starting_time r.starting_time
      then record r { starting_time = b.starting_time }
      else r
    else r
