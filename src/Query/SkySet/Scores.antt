-- ===== src/Query/SkySet/Scores.antt =====
-- The two arrays of counters of `updateSkyline`, and dominance.
use mathlib.Core.Path.{fun_ext}
use native.Mathlib.Numerals.{add-one}
use elastic_ppq.Common.{
  ℕ, zero, suc, ◌+◌, ◌-◌, ◌*◌, ◌≤◌, ◌≡◌, refl, sym, ap, Bool, true, false, not, ◌&&◌, List, [], ◌∷◌,
  map, arith, ltb, ◌==◌,
}
use elastic_ppq.Common.Int.{ℤ, pos, pos_part, neg_part, ◌+ℤ◌, ◌-ℤ◌, ◌*ℤ◌, +ℤ_parts, eq_of_parts}
use elastic_ppq.Double.{Double, lt}
use elastic_ppq.Message.{Tuple}
use elastic_ppq.Query.TData.{Row, row_of}
use elastic_ppq.Query.Dominance.{all_below, any_below, dominates}
use elastic_ppq.Query.SkySet.{
  at_least_one, weight, add_weights, add_dims, add_twice, t_dom_scores, dom_t_scores,
}

abbrev to_nat : Bool → ℕ
to_nat true = 1
to_nat false = 0

le_mul_suc : (l k : ℕ) → k ≤ suc l * k
le_mul_suc l k = grind arith

-- One lost dimension outweighs all the others.
sign :
    (dim : ℕ) (x : ℤ) (l w : ℕ)
    → pos_part x + l * (dim + 1) ≡ neg_part x + w
    → w ≤ dim
    → at_least_one x ≡ ((l == 0) && ltb 0 w)
sign dim x zero w e h = ground arith
sign dim x (suc l) w e h = ground (arith, le_mul_suc l (dim + 1))

at_least_one-twice : (x : ℤ) → at_least_one (x +ℤ x) ≡ at_least_one x
at_least_one-twice x = ground (arith, +ℤ_parts x x)

module _ {W : Type 0} where
  -- the sum over the dimensions below `n`
  abbrev pub total : (ℕ → Row W → ℤ) → ℕ → Row W → ℤ
  total f zero r = pos 0
  total f (suc n) r = total f n r +ℤ f n r

  total-pred :
      (f : ℕ → Row W → ℤ) (n : ℕ) → 1 ≤ n → (λ r. total f (n - 1) r +ℤ f (n - 1) r) ≡ total f n
  total-pred f zero h = absurd (omega arith)
  total-pred f (suc n) h = let e : suc n - 1 ≡ n = omega arith in rw e

  total-one : (f : ℕ → Row W → ℤ) (r : Row W) → total f 1 r ≡ f 0 r
  total-one f r = eq_of_parts (pos 0 +ℤ f 0 r) (f 0 r) (omega (arith, +ℤ_parts (pos 0) (f 0 r)))

  add_weights-map :
      (g : Row W → ℤ) (f : Row W → ℤ) (rows : List (Row W))
      → add_weights g (map f rows) rows ≡ map (λ r. f r +ℤ g r) rows
  unfolding add_weights
  add_weights-map g f [] = refl
  add_weights-map g f (r ∷ rows) = ap (◌∷◌ (f r +ℤ g r)) (add_weights-map g f rows)

  add_dims-map :
      (f : ℕ → Row W → ℤ) (n d e : ℕ) (rows : List (Row W))
      → d + n ≡ e
      → add_dims f n d (map (total f d) rows) rows ≡ map (total f e) rows
  unfolding add_dims
  add_dims-map f zero d e rows h = let same : d ≡ e = omega arith in rw same
  add_dims-map f (suc n) d e rows h =
      rw (add_weights-map (f d) (total f d) rows)
        (rw (add-one d) (add_dims-map f n (suc d) e rows (omega arith)))

  add_twice-map :
      (g : Row W → ℤ) (f : Row W → ℤ) (rows : List (Row W))
      → add_twice g (map f rows) rows ≡ map (λ r. (f r +ℤ g r) +ℤ (f r +ℤ g r)) rows
  unfolding add_twice
  add_twice-map g f [] = refl
  add_twice-map g f (r ∷ rows) = ap (◌∷◌ ((f r +ℤ g r) +ℤ (f r +ℤ g r))) (add_twice-map g f rows)

module _ {W : Type 0} ⦃o : Double W⦄ (dim : ℕ) where
  -- the weight of dimension d of a stored row against the tuple, and the other way round
  abbrev pub row_weight : Tuple W → ℕ → Row W → ℤ
  row_weight t d r = weight dim (r.d d) (t.d d)

  abbrev pub tuple_weight : Tuple W → ℕ → Row W → ℤ
  tuple_weight t d r = weight dim (t.d d) (r.d d)

  first_dims :
      (f : ℕ → Row W → ℤ) (rows : List (Row W))
      → 2 ≤ dim
      → add_dims f (dim - 2) 1 (map (f 0) rows) rows ≡ map (total f (dim - 1)) rows
  first_dims f rows h =
      rw (sym (fun_ext (total-one f))) (add_dims-map f (dim - 2) 1 (dim - 1) rows (omega arith))

  pub t_dom_scores-map :
      (t : Tuple W) (rows : List (Row W))
      → 2 ≤ dim
      → t_dom_scores dim t rows ≡ map (total (row_weight t) dim) rows
  unfolding t_dom_scores
  t_dom_scores-map t rows h =
      rw (first_dims (row_weight t) rows h, add_weights-map)
        (ap (λ f. map f rows) (total-pred (row_weight t) dim (omega arith)))

  pub dom_t_scores-map :
      (t : Tuple W) (rows : List (Row W))
      → 2 ≤ dim
      → dom_t_scores dim t rows
        ≡ map (λ r. total (tuple_weight t) dim r +ℤ total (tuple_weight t) dim r) rows
  unfolding dom_t_scores
  dom_t_scores-map t rows h =
      rw (first_dims (tuple_weight t) rows h, add_twice-map)
        (ap (λ (f : Row W → ℤ). map (λ r. f r +ℤ f r) rows)
          (total-pred (tuple_weight t) dim (omega arith)))

  -- in how many of the first n dimensions a value is smaller than the other
  wins : (ℕ → W) → (ℕ → W) → ℕ → ℕ
  wins a b zero = 0
  wins a b (suc n) = wins a b n + to_nat (lt (a n) (b n))

  wins-le : (a b : ℕ → W) (n : ℕ) → wins a b n ≤ n
  unfolding wins
  wins-le a b zero = omega arith
  wins-le a b (suc n) = ground (arith, wins-le a b n)

  weight_parts :
      (a b : W)
      → pos_part (weight dim a b) + to_nat (lt a b) * (dim + 1)
        ≡ neg_part (weight dim a b) + to_nat (lt b a)
  unfolding weight ◌-ℤ◌ ◌*ℤ◌
  weight_parts a b = ground arith

  total_parts :
      (a : Row W → ℕ → W) (b : Row W → ℕ → W) (n : ℕ) (r : Row W)
      → let x = total (λ d r. weight dim (a r d) (b r d)) n r in
        pos_part x + wins (a r) (b r) n * (dim + 1) ≡ neg_part x + wins (b r) (a r) n
  unfolding wins
  total_parts a b zero r = omega arith
  total_parts a b (suc n) r = omega (
    arith,
    total_parts a b n r,
    weight_parts (a r n) (b r n),
    +ℤ_parts (total (λ d r. weight dim (a r d) (b r d)) n r) (weight dim (a r n) (b r n)),
  )

  any_below-wins : (a b : ℕ → W) (n : ℕ) → any_below n (λ d. lt (a d) (b d)) ≡ ltb 0 (wins a b n)
  unfolding wins
  any_below-wins a b zero = refl
  any_below-wins a b (suc n) = ground (arith, any_below-wins a b n)

  all_below-wins :
      (a b : ℕ → W) (n : ℕ) → all_below n (λ d. not (lt (a d) (b d))) ≡ (wins a b n == 0)
  unfolding wins
  all_below-wins a b zero = refl
  all_below-wins a b (suc n) = ground (arith, all_below-wins a b n)

  pub at_least_one-row_weight :
      (t : Tuple W) (r : Row W)
      → at_least_one (total (row_weight t) dim r) ≡ dominates dim (row_of t) r
  unfolding dominates
  at_least_one-row_weight t r =
      rw (all_below-wins r.d t.d dim, any_below-wins t.d r.d dim)
        (sign dim _ (wins r.d t.d dim) (wins t.d r.d dim) (total_parts (λ r. r.d) (λ _. t.d) dim r)
          (wins-le t.d r.d dim))

  pub at_least_one-tuple_weight :
      (t : Tuple W) (r : Row W)
      → at_least_one (total (tuple_weight t) dim r +ℤ total (tuple_weight t) dim r)
        ≡ dominates dim r (row_of t)
  unfolding dominates
  at_least_one-tuple_weight t r =
      rw (at_least_one-twice, all_below-wins t.d r.d dim, any_below-wins r.d t.d dim)
        (sign dim _ (wins t.d r.d dim) (wins r.d t.d dim) (total_parts (λ _. t.d) (λ r. r.d) dim r)
          (wins-le r.d t.d dim))
