-- ===== src/ResultsSet.antt =====
-- The interface between the stages and the queries: the template parameter `Rset_t` of the workers,
-- which is a class derived from `Rset` (include/Rset.hpp).
use elastic_ppq.Common.{ℕ, ◌≡◌, List, [], ◌∷◌, ◌++◌}
use elastic_ppq.Message.{Tuple}
use elastic_ppq.Rset.{Rset}
use elastic_ppq.Rset
use elastic_ppq.Query.TData.{Row, row_of}

-- Reading and writing the fields of the base class.
pub record Derived (S : Type 0) : Type 0 where
  pub base : S → Rset
  pub with_base : S → Rset → S

-- The operations of a query; the last number of a method is the time at which it returns.
pub record ResultsSet (W S : Type 0) : Type 0 where
  pub create : ℕ → ℕ → ℕ → S
  pub add_compute_tuple : S → Tuple W → ℕ → S
  pub add_compute_set : S → S → ℕ → S

-- A write is read back.
pub record IsDerived (S : Type 0) ⦃b : Derived S⦄ : Type 0 where
  pub base-with_base : (s : S) (f : Rset) → b.base (b.with_base s f) ≡ f

-- What a query promises: `Rep s xs` says that s is a result of the tuples xs.
pub record IsResultsSet {W S : Type 0} ⦃b : Derived S⦄ ⦃r : ResultsSet W S⦄
    (Rep : S → List (Row W) → Type 0) : Type 0 where
  pub base-create : (c i n : ℕ) → b.base (r.create c i n) ≡ Rset.create c i n
  pub derived : IsDerived S
  pub id-add_compute_tuple :
      (s : S) (t : Tuple W) (now : ℕ) → (b.base (r.add_compute_tuple s t now)).id ≡ (b.base s).id
  pub id-add_compute_set :
      (s u : S) (now : ℕ) → (b.base (r.add_compute_set s u now)).id ≡ (b.base s).id
  pub Rep-create : (c i n : ℕ) → Rep (r.create c i n) []
  pub Rep-with_base : (s : S) (f : Rset) (xs : List (Row W)) → Rep s xs → Rep (b.with_base s f) xs
  pub Rep-add_compute_tuple :
      (s : S) (t : Tuple W) (now : ℕ) (xs : List (Row W))
      → Rep s xs
      → Rep (r.add_compute_tuple s t now) (row_of t ∷ xs)
  pub Rep-add_compute_set :
      (s u : S) (now : ℕ) (xs ys : List (Row W))
      → Rep s xs
      → Rep u ys
      → Rep (r.add_compute_set s u now) (xs ++ ys)
