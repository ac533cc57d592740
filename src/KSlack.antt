-- ===== src/KSlack.antt =====
-- The slack mechanisms of include/kslack.hpp: `KSlack_Punc`, which derives punctuations from the
-- timestamps of a disordered stream, and `KSlack_Buffer`, which puts its tuples in order. Timestamps
-- are whole microseconds from 0 on, and none is above `tcurr` where the code subtracts one from it.
pub mod Delay
pub mod Order
pub mod Sorting
mod Tests
use elastic_ppq.Common.{
  ℕ, zero, suc, ◌+◌, ◌-◌, Bool, true, false, List, [], ◌∷◌, ◌++◌, Option, none, some, take, drop,
  length, get_elem?, ltb, leb, ◌==◌, if◌then◌else◌,
}
use elastic_ppq.Message.{Tuple}

-- The fields `K`, `tcurr` and `ts_vect` of both classes.
pub record Slack : Type 0 where
  pub k : ℕ
  pub tcurr : ℕ
  pub ts_vect : List ℕ

unfoldable pub fresh : Slack
fresh = record { k = 0; tcurr = 0; ts_vect = [] }

-- the loop for the maximum delay
unfoldable pub max_delay : ℕ → ℕ → List ℕ → ℕ
max_delay tcurr max_d [] = max_d
max_delay tcurr max_d (ts ∷ rest) =
    let diff = tcurr - ts in max_delay tcurr (if ltb max_d diff then diff else max_d) rest

-- The update on a timestamp above `tcurr`, which `ts_vect` has already.
unfoldable pub advance : Slack → ℕ → Slack
advance s ts =
    let max_d = max_delay ts 0 s.ts_vect in
    record { k = if ltb s.k max_d then max_d else s.k; tcurr = ts; ts_vect = [] }

-- `checkStreamProgress`: the new punctuation where it returns true
unfoldable pub check_stream_progress : Slack → ℕ → Slack × Option ℕ
check_stream_progress s ts =
    let pushed = record s { ts_vect = s.ts_vect ++ ts ∷ [] } in
    if leb ts s.tcurr
    then (pushed, none)
    else (let next = advance pushed ts in (next, some (next.tcurr - next.k)))

-- `KSlack_Buffer`. The iterators are positions in the deque.
pub record Buffer (W : Type 0) : Type 0 where
  pub slack : Slack
  pub tuples : List (Tuple W)
  pub to_emit : Bool
  pub first_tuple : ℕ
  pub last_tuple : ℕ

module _ {W : Type 0} where
  unfoldable pub empty_buffer : Buffer W
  empty_buffer = record {
    slack = fresh;
    tuples = [];
    to_emit = false;
    first_tuple = 0;
    last_tuple = 0;
  }

  -- the insertion in front of the first tuple that is not earlier
  unfoldable pub insert : Tuple W → List (Tuple W) → List (Tuple W)
  insert t [] = t ∷ []
  insert t (u ∷ us) =
      let rest = insert t us in if ltb u.app_ts t.app_ts then u ∷ rest else t ∷ u ∷ us

  -- how many tuples in front are not later than the bound
  unfoldable pub count_upto : ℕ → List (Tuple W) → ℕ
  count_upto bound [] = 0
  count_upto bound (u ∷ us) =
      let rest = count_upto bound us in if leb u.app_ts bound then suc rest else 0

  unfoldable pub insert_tuple : Buffer W → Tuple W → Buffer W × Bool
  insert_tuple b t =
      let tuples = insert t b.tuples in
      let pushed = record b.slack { ts_vect = b.slack.ts_vect ++ t.app_ts ∷ [] } in
      if leb t.app_ts b.slack.tcurr
      then (record b { slack = pushed; tuples = tuples }, false)
      else (let next = advance pushed t.app_ts in
          (
            record {
              slack = next;
              tuples = tuples;
              to_emit = true;
              first_tuple = 0;
              last_tuple = count_upto (next.tcurr - next.k) tuples;
            },
            true,
          ))

  -- `none` is NULL
  unfoldable pub extract_tuple : Buffer W → Buffer W × Option (Tuple W)
  extract_tuple b =
      if b.to_emit
      then if b.first_tuple == b.last_tuple
        then (record b { tuples = drop b.last_tuple b.tuples; to_emit = false }, none)
        else (record b { first_tuple = b.first_tuple + 1 }, get_elem? b.tuples b.first_tuple)
      else (b, none)

  unfoldable pub prepare_to_flush : Buffer W → Buffer W
  prepare_to_flush b = record b { to_emit = true; first_tuple = 0; last_tuple = length b.tuples }

  -- the test of the loop below, and the rest of the loop
  abbrev pub emit_next :
      Buffer W × Option (Tuple W)
      → (Buffer W → Buffer W × List (Tuple W))
      → Buffer W × List (Tuple W)
  emit_next (b, none) rest = (b, [])
  emit_next (b, some t) rest = let r = rest b in (r.0, t ∷ r.1)

  -- the loop of the emitter that extracts tuples until NULL; n tuples to emit take n + 1 rounds
  unfoldable pub extract_all : ℕ → Buffer W → Buffer W × List (Tuple W)
  extract_all zero b = (b, [])
  extract_all (suc fuel) b = emit_next (extract_tuple b) (extract_all fuel)
