-- ===== src/Query/SkySet/Instance.antt =====
-- `SkySet` as the results set of the stages: the skyline query fills the interface of the workers.
use elastic_ppq.Common.{ℕ, arith, ◌≡◌, refl, ◌≤◌}
use elastic_ppq.Double.{Double, IsOrdered}
use elastic_ppq.Rset.{Rset, start_by_tuple, start_by_set}
use elastic_ppq.ResultsSet.{Derived, ResultsSet, IsResultsSet}
use elastic_ppq.Query.SkySet.{SkySet, create, add_compute_tuple, add_compute_set}
use elastic_ppq.Query.SkySet.Results.{
  Holds, create-Holds, add_compute_tuple-Holds, add_compute_set-Holds,
}

instance abbrev pub skyset_derived : {W : Type 0} → Derived (SkySet W)
skyset_derived = record { base = λ s. s.rset; with_base = λ s f. record s { rset = f } }

start_by_tuple-id : (f : Rset) (n : ℕ) → (start_by_tuple f n).id ≡ f.id
unfolding start_by_tuple
start_by_tuple-id f n = ground arith

start_by_set-id : (f g : Rset) → (start_by_set f g).id ≡ f.id
unfolding start_by_set
start_by_set-id f g = ground arith

module _ {W : Type 0} ⦃o : Double W⦄ (dim : ℕ) where
  -- the query for DIM = dim
  abbrev pub skyset : ResultsSet W (SkySet W)
  skyset = record {
    create = create;
    add_compute_tuple = add_compute_tuple dim;
    add_compute_set = add_compute_set dim;
  }

start_by_set-ref_counter : (f g : Rset) → (start_by_set f g).ref_counter ≡ f.ref_counter
unfolding start_by_set
start_by_set-ref_counter f g = ground arith

pub ref_counter-add_compute_set :
    {W : Type 0} ⦃o : Double W⦄ (dim : ℕ) (a u : SkySet W) (now : ℕ)
    → (add_compute_set dim a u now).rset.ref_counter ≡ a.rset.ref_counter
unfolding add_compute_set
ref_counter-add_compute_set dim a u now = start_by_set-ref_counter a.rset u.rset

module _ {W : Type 0} ⦃o : Double W⦄ (laws : IsOrdered W) (dim : ℕ) (two : 2 ≤ dim) where
  -- The skyline query keeps the promises of the interface: a set of the tuples xs is one that holds
  -- their skyline.
  pub skyset-IsResultsSet :
      IsResultsSet {W = W} {S = SkySet W} ⦃r = skyset dim⦄ (λ a xs. Holds dim a.s xs)
  unfolding create add_compute_tuple add_compute_set
  skyset-IsResultsSet = record {
    base-create = λ c i n. refl;
    derived = record { base-with_base = λ s f. refl };
    id-add_compute_tuple = λ a t now. start_by_tuple-id a.rset t.arrival_ticks;
    id-add_compute_set = λ a u now. start_by_set-id a.rset u.rset;
    Rep-create = create-Holds dim;
    Rep-with_base = λ a f xs v. v;
    Rep-add_compute_tuple = λ a t now xs v. add_compute_tuple-Holds laws dim two a xs t now v;
    Rep-add_compute_set = λ a u now xs ys v w. add_compute_set-Holds laws dim two a u xs ys now v w;
  }
