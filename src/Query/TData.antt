-- ===== src/Query/TData.antt =====
-- `class TData` of include/queries.hpp. The DIM + 2 columns `v_dim` are of one length and change
-- together, so the container is the list of its rows: row i is the i-th entry of every column.
use elastic_ppq.Common.{ℕ, zero, suc, ◌+◌, ◌&&◌, List, [], ◌∷◌, ◌++◌, ◌==◌, ltb, leb, if◌then◌else◌}
use elastic_ppq.Double.{Double}
use elastic_ppq.Message.{Tuple, empty}

-- What the columns hold of a tuple: its coordinates and timestamps.
pub record Row (W : Type 0) : Type 0 where
  pub d : ℕ → W
  pub app_ts : ℕ
  pub gen_ts : ℕ

abbrev pub row_of : {W : Type 0} → Tuple W → Row W
row_of t = record { d = t.d; app_ts = t.app_ts; gen_ts = t.gen_ts }

-- `last_idx` starts at -1, so it is kept as `count = last_idx + 1`.
pub record TData (W : Type 0) : Type 0 where
  pub count : ℕ
  pub rows : List (Row W)

module _ {ℓ} {A : Type ℓ} where
  -- `vector::pop_back`
  unfoldable pub pop_back : List A → List A
  pop_back [] = []
  pop_back (x ∷ []) = []
  pop_back (x ∷ y ∷ xs) = x ∷ pop_back (y ∷ xs)

  -- `vector::resize`, which cuts the vector or fills it up with a value
  unfoldable pub resize : ℕ → A → List A → List A
  resize zero z xs = []
  resize (suc n) z [] = z ∷ resize n z []
  resize (suc n) z (x ∷ xs) = x ∷ resize n z xs

module _ {W : Type 0} ⦃o : Double W⦄ where
  unfoldable pub create : TData W
  create = record { count = 0; rows = [] }

  unfoldable pub append : TData W → Tuple W → TData W
  append s t = record { count = s.count + 1; rows = s.rows ++ (row_of t ∷ []) }

  -- `pos > last_idx` compares as unsigned numbers, so it is false for the empty container.
  unfoldable pub remove_from_index : TData W → ℕ → TData W
  unfolding pop_back resize empty
  remove_from_index s pos =
      if ltb 0 s.count && leb s.count pos
      then s
      else if pos + 1 == s.count
      then record { count = pos; rows = pop_back s.rows }
      else record { count = pos; rows = resize pos (row_of empty) s.rows }

  unfoldable pub get_size : TData W → ℕ
  get_size s = s.count
