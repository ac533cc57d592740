-- ===== src/Query/SkySet/Stream.antt =====
-- A `SkySet` fed by a whole stream of tuples or of partial results, as the workers feed it.
use mathlib.Core.List.{perm_middle}
use mathlib.Core.List.Perm
use elastic_ppq.Common.{
  ℕ, ◌≤◌, ◌≡◌, refl, sym, ap, subst, List, [], ◌∷◌, ◌++◌, map, append-nil, Perm, length,
}
use elastic_ppq.Double.{Double, IsOrdered}
use elastic_ppq.Message.{Tuple}
use elastic_ppq.Query.TData.{TData, Row, row_of}
use elastic_ppq.Query.Skyline.{skyline, skyline-perm}
use elastic_ppq.Query.SkySet.{SkySet, create, add_compute_tuple, add_compute_set, to_vector, copied}
use elastic_ppq.Query.SkySet.Results.{
  Holds, create-Holds, add_compute_tuple-Holds, add_compute_set-Holds,
}

-- How a result comes about: a set fed with tuples, a set updated with another, or a new set that two
-- others go into (the tasks WIN_UPDATE and MERGE). The numbers are the times at which methods return.
pub data Plan (W : Type 0) : Type 0 where
  part : List (Tuple W × ℕ) → Plan W
  win_update : Plan W → Plan W → ℕ → Plan W
  merge : Plan W → Plan W → ℕ → ℕ → Plan W

module _ {W : Type 0} where
  -- what the rows of a stream are
  abbrev pub rows_of : List (Tuple W × ℕ) → List (Row W)
  rows_of = map (λ p. row_of p.0)

  -- the tuples that go into a result
  abbrev pub inputs : Plan W → List (Row W)
  inputs (Plan.part ts) = rows_of ts
  inputs (Plan.win_update p q now) = inputs p ++ inputs q
  inputs (Plan.merge p q now later) = inputs p ++ inputs q

module _ {W : Type 0} ⦃o : Double W⦄ (dim : ℕ) where
  -- the tuples of a stream one after another
  unfoldable pub add_tuples : SkySet W → List (Tuple W × ℕ) → SkySet W
  add_tuples a [] = a
  add_tuples a ((t, now) ∷ ts) = add_tuples (add_compute_tuple dim a t now) ts

  unfoldable pub run : Plan W → SkySet W
  run (Plan.part ts) = add_tuples (create 1 0 1) ts
  run (Plan.win_update p q now) = add_compute_set dim (run p) (run q) now
  run (Plan.merge p q now later) =
      add_compute_set dim (add_compute_set dim (create 1 0 1) (run p) now) (run q) later

module _ {W : Type 0} ⦃o : Double W⦄ (laws : IsOrdered W) (dim : ℕ) (two : 2 ≤ dim) where
  Holds-perm : (s : TData W) (xs ys : List (Row W)) → Perm xs ys → Holds dim s xs → Holds dim s ys
  Holds-perm s xs ys h v = record {
    counted = v.counted;
    sky = Perm.trans v.sky (skyline-perm laws dim h);
  }

  add_tuples-Holds :
      (a : SkySet W) (xs : List (Row W)) (ts : List (Tuple W × ℕ))
      → Holds dim a.s xs
      → Holds dim (add_tuples dim a ts).s (xs ++ rows_of ts)
  unfolding add_tuples
  add_tuples-Holds a xs [] v = rw (append-nil xs) v
  add_tuples-Holds a xs ((t, now) ∷ ts) v =
      let next = add_compute_tuple-Holds laws dim two a xs t now v in
      let whole = add_tuples-Holds (add_compute_tuple dim a t now) (row_of t ∷ xs) ts next in
      Holds-perm _ _ _ (Perm.symm (perm_middle xs (rows_of ts))) whole

  -- Whatever way the workers split the tuples of a window and merge the parts, the result holds the
  -- skyline of all of them.
  pub run-Holds : (p : Plan W) → Holds dim (run dim p).s (inputs p)
  unfolding run
  run-Holds (Plan.part ts) = add_tuples-Holds _ [] ts (create-Holds dim 1 0 1)
  run-Holds (Plan.win_update p q now) =
      add_compute_set-Holds laws dim two (run dim p) (run dim q) (inputs p) (inputs q) now
        (run-Holds p) (run-Holds q)
  run-Holds (Plan.merge p q now later) =
      add_compute_set-Holds laws dim two (add_compute_set dim (create 1 0 1) (run dim p) now)
        (run dim q) (inputs p) (inputs q) later
        (add_compute_set-Holds laws dim two (create 1 0 1) (run dim p) [] (inputs p) now
          (create-Holds dim 1 0 1) (run-Holds p))
        (run-Holds q)

  to_vector-map : (rows : List (Row W)) → to_vector (length rows) rows ≡ map copied rows
  unfolding to_vector
  to_vector-map [] = refl
  to_vector-map (r ∷ rows) = ap (◌∷◌ (copied r)) (to_vector-map rows)

  -- The vector made of a result is the skyline of the tuples of the window, in some order, however the
  -- tuples came in and the parts were merged.
  pub to_vector-run :
      (p : Plan W) (xs : List (Row W))
      → Perm (inputs p) xs
      → Perm (to_vector (run dim p).s.count (run dim p).s.rows) (map copied (skyline dim xs))
  to_vector-run p xs h =
      let v = Holds-perm _ _ _ h (run-Holds p) in
      subst (λ n. Perm (to_vector n (run dim p).s.rows) (map copied (skyline dim xs)))
        (sym v.counted)
        (subst (λ l. Perm l (map copied (skyline dim xs))) (sym (to_vector-map (run dim p).s.rows))
          (Perm.map copied v.sky))
