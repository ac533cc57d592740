-- ===== src/Query/SkySet.antt =====
-- `class SkySet` of include/queries.hpp.
-- DIM is a parameter of at least 2 (the code reads dimension 0, then 1 to DIM - 2, then DIM - 1), and
-- `now` is what `getticks()` returns at the end of a method. An `int` index that may be -1 is kept as
-- the number of places up to it: `n_endpoint = endpoint + 1` and `n_pos = pos + 1`.
pub mod Scores
pub mod Shift
pub mod Update
pub mod Merge
pub mod Results
pub mod Stream
pub mod Instance
mod Tests
use elastic_ppq.Common.{
  ℕ, zero, suc, ◌+◌, ◌-◌, ◌&&◌, Bool, true, false, not, List, [], ◌∷◌, map, get_or, set, take,
  exists, ltb, ◌==◌, if◌then◌else◌,
}
use elastic_ppq.Common.Int.{ℤ, pos, ◌+ℤ◌, ◌-ℤ◌, ◌*ℤ◌, ltb_ℤ}
use elastic_ppq.Double.{Double, lt}
use elastic_ppq.Message.{Tuple, empty}
use elastic_ppq.Rset.{Rset, start_by_tuple, start_by_set}
use elastic_ppq.Rset
use elastic_ppq.Query.TData.{TData, Row, row_of, append, remove_from_index, get_size}
use elastic_ppq.Query.TData

-- `class SkySet`, over the fields of `class Rset`.
pub record SkySet (W : Type 0) : Type 0 where
  pub rset : Rset
  pub s : TData W

abbrev pub to_int : Bool → ℤ
to_int true = pos 1
to_int false = pos 0

-- `x >= 1`
abbrev pub at_least_one : ℤ → Bool
at_least_one x = not (ltb_ℤ x (pos 1))

-- the variables of the loop that shifts the dominated tuples
pub record Scan (W : Type 0) : Type 0 where
  pub i : ℕ
  pub n_endpoint : ℕ
  pub n_pos : ℕ
  pub rows : List (Row W)
  pub t_dom : List ℤ
  pub dom_t : List ℤ

-- what `updateSkyline` returns, and its two reference arguments and the container after the call
pub record Updated (W : Type 0) : Type 0 where
  pub is_dominated : Bool
  pub n_pos : ℕ
  pub n_endpoint : ℕ
  pub s : TData W

module _ {W : Type 0} where
  -- `x[i] += weight` for each i up to the end of the array
  unfoldable pub add_weights : (Row W → ℤ) → List ℤ → List (Row W) → List ℤ
  add_weights f (x ∷ xs) (r ∷ rows) = (x +ℤ f r) ∷ add_weights f xs rows
  add_weights f _ _ = []

  -- the loop over the dimensions from d on, `n` of them
  unfoldable pub add_dims : (ℕ → Row W → ℤ) → ℕ → ℕ → List ℤ → List (Row W) → List ℤ
  add_dims f zero d xs rows = xs
  add_dims f (suc n) d xs rows = add_dims f n (d + 1) (add_weights (f d) xs rows) rows

  -- `x[i] += x[i] += weight`: the inner addition is done before the outer one reads `x[i]`.
  unfoldable pub add_twice : (Row W → ℤ) → List ℤ → List (Row W) → List ℤ
  add_twice f (x ∷ xs) (r ∷ rows) = let y = x +ℤ f r in (y +ℤ y) ∷ add_twice f xs rows
  add_twice f _ _ = []

module _ {W : Type 0} ⦃o : Double W⦄ where
  unfoldable pub create : ℕ → ℕ → ℕ → SkySet W
  unfolding Rset.create TData.create
  create ref_counter id n_instances = record {
    rset = Rset.create ref_counter id n_instances;
    s = TData.create;
  }

  module _ (dim : ℕ) where
    -- `(a > b) - (DIM + 1) * (a < b)`, the weight of one dimension
    unfoldable pub weight : W → W → ℤ
    weight a b = to_int (lt b a) -ℤ pos (dim + 1) *ℤ to_int (lt a b)

    -- the array `Tdom`
    unfoldable pub t_dom_scores : Tuple W → List (Row W) → List ℤ
    unfolding add_weights add_dims
    t_dom_scores t rows =
        let f : ℕ → Row W → ℤ = λ d row. weight (row.d d) (t.d d) in
        add_weights (f (dim - 1)) (add_dims f (dim - 2) 1 (map (f 0) rows) rows) rows

    -- the array `domT`
    unfoldable pub dom_t_scores : Tuple W → List (Row W) → List ℤ
    unfolding add_twice add_dims
    dom_t_scores t rows =
        let f : ℕ → Row W → ℤ = λ d row. weight (t.d d) (row.d d) in
        add_twice (f (dim - 1)) (add_dims f (dim - 2) 1 (map (f 0) rows) rows) rows

  -- the body of the loop; `endpoint` and `pos` are not -1 in it
  unfoldable pub scan_step : Scan W → Scan W
  unfolding empty
  scan_step c =
      if at_least_one (get_or c.t_dom c.i (pos 0))
      then (let last = c.n_endpoint - 1 in
          let filled = set c.rows c.i (get_or c.rows last (row_of empty)) in
          record {
            i = c.i;
            n_endpoint = last;
            n_pos = c.n_pos - 1;
            rows = set filled last (get_or filled (c.n_pos - 1) (row_of empty));
            t_dom = set c.t_dom c.i (get_or c.t_dom last (pos 0));
            dom_t = set c.dom_t c.i (get_or c.dom_t last (pos 0));
          })
      else record c { i = c.i + 1 }

  -- `while(i <= endpoint)`; each round brings i and endpoint nearer by one
  unfoldable pub scan : ℕ → Scan W → Scan W
  unfolding scan_step
  scan zero c = c
  scan (suc fuel) c = elim (ltb c.i c.n_endpoint) [ true ↦ scan fuel (scan_step c) | false ↦ c ]

  -- the new tuple that takes over what the container of the other set holds of one
  abbrev pub copied : Row W → Tuple W
  unfolding empty
  copied r = record empty { d = r.d; app_ts = r.app_ts; gen_ts = r.gen_ts }

  module _ (dim : ℕ) where
    -- the variables when the loop begins
    abbrev pub scan_start : TData W → Tuple W → ℕ → Scan W
    scan_start s t n_endpoint = record {
      i = 0;
      n_endpoint = n_endpoint;
      n_pos = s.count;
      rows = s.rows;
      t_dom = t_dom_scores dim t (take n_endpoint s.rows);
      dom_t = dom_t_scores dim t (take n_endpoint s.rows);
    }

    unfoldable pub update_skyline : TData W → Tuple W → ℕ → Updated W
    update_skyline s t n_endpoint =
        let first = scan_start s t n_endpoint in
        let c = scan n_endpoint first in
        record {
          is_dominated = exists at_least_one first.dom_t;
          n_pos = c.n_pos;
          n_endpoint = c.n_endpoint;
          s = record s { rows = c.rows };
        }

    -- what both methods do with the result of `updateSkyline`
    unfoldable pub settle : Tuple W → Updated W → TData W
    settle t u =
        let cut = if ltb u.n_pos u.s.count then remove_from_index u.s u.n_pos else u.s in
        if u.n_pos == cut.count && not u.is_dominated then append cut t else cut

    unfoldable pub add_compute_tuple : SkySet W → Tuple W → ℕ → SkySet W
    add_compute_tuple a t now =
        let r = start_by_tuple a.rset t.arrival_ticks in
        record {
          rset = record r { ending_time = now };
          s = settle t (update_skyline a.s t (get_size a.s));
        }

    -- the loop over the tuples of the other set, which carries `endpoint` from round to round
    unfoldable pub merge_rows : TData W → ℕ → List (Row W) → TData W
    merge_rows s n_endpoint [] = s
    merge_rows s n_endpoint (r ∷ rs) =
        let t = copied r in
        let u = update_skyline s t n_endpoint in merge_rows (settle t u) u.n_endpoint rs

    unfoldable pub add_compute_set : SkySet W → SkySet W → ℕ → SkySet W
    add_compute_set a b now =
        let r = start_by_set a.rset b.rset in
        record {
          rset = record r { ending_time = now };
          s = if get_size a.s == 0 then b.s else merge_rows a.s (get_size a.s) b.s.rows;
        }

  -- `vector<tuple_t>(last_idx + 1)` and the loop that fills entry i from row i of the container
  unfoldable pub to_vector : ℕ → List (Row W) → List (Tuple W)
  to_vector zero rows = []
  to_vector (suc n) [] = copied (row_of empty) ∷ to_vector n []
  to_vector (suc n) (r ∷ rows) = copied r ∷ to_vector n rows
