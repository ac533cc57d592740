-- ===== src/Query/SkySet/Results.antt =====
-- The methods of `SkySet`, and the skyline of all that went in.
use mathlib.Core.List.Perm
use elastic_ppq.Common.{
  ℕ, ◌+◌, ◌≤◌, ◌≡◌, refl, sym, ◌∙◌, subst, inl, inr, List, [], ◌∷◌, ◌++◌, append-nil, Perm, arith,
  length, length-append, ◌==◌, Bool-cases, if◌then◌else◌,
}
use elastic_ppq.Double.{Double, IsOrdered}
use elastic_ppq.Message.{Tuple}
use elastic_ppq.Query.TData.{TData, Row, row_of, get_size}
use elastic_ppq.Query.TData
use elastic_ppq.Query.Skyline.{
  skyline, skyline-perm_cons, skyline-undominated, skyline-perm_append, skyline-append_nil,
}
use elastic_ppq.Query.SkySet.{
  SkySet, create, add_compute_tuple, add_compute_set, merge_rows, settle, update_skyline,
}
use elastic_ppq.Query.SkySet.Update.{settle-Settled}
use elastic_ppq.Query.SkySet.Merge.{merge_rows-Merged, undominated-IsSpread}

length-nil {ℓ} : {A : Type ℓ} (xs : List A) → length xs ≡ 0 → xs ≡ []
length-nil [] e = refl
length-nil (x ∷ xs) e = absurd (omega (arith, e))

-- A container holds the skyline of `xs`, in some order, and its `last_idx` fits.
pub record Holds {W : Type 0} ⦃o : Double W⦄ (dim : ℕ) (s : TData W) (xs : List (Row W))
    : Type 0 where
  pub counted : s.count ≡ length s.rows
  pub sky : Perm s.rows (skyline dim xs)

module _ {W : Type 0} ⦃o : Double W⦄ (dim : ℕ) where
  pub create-Holds : (r i n : ℕ) → Holds {W = W} dim (create r i n).s []
  unfolding create TData.create skyline
  create-Holds r i n = record { counted = refl; sky = Perm.nil }

module _ {W : Type 0} ⦃o : Double W⦄ (laws : IsOrdered W) (dim : ℕ) (two : 2 ≤ dim) where
  settle-Holds :
      (s : TData W) (xs : List (Row W)) (t : Tuple W)
      → Holds dim s xs
      → Holds dim (settle dim t (update_skyline dim s t s.count)) (row_of t ∷ xs)
  settle-Holds s xs t v =
      let st =
        settle-Settled dim two s t s.rows [] (sym (append-nil _)) (omega (arith, v.counted)) in
      let order =
        Perm.trans (Perm.append st.a-perm st.c-perm)
          (skyline-perm_cons laws dim s.rows xs (row_of t) v.sky) in
      let good : Holds dim (record { count = length st.a' + length st.c'; rows = st.a' ++ st.c' })
          (row_of t ∷ xs) =
        record { counted = sym (length-append st.a' st.c'); sky = order } in
      subst (λ n. Holds dim (settle dim t (update_skyline dim s t n)) (row_of t ∷ xs))
        (sym v.counted) (subst (λ c. Holds dim c (row_of t ∷ xs)) (sym st.container) good)

  -- Adding a tuple to a set that holds the skyline of xs makes it hold the skyline of xs with the tuple.
  pub add_compute_tuple-Holds :
      (a : SkySet W) (xs : List (Row W)) (t : Tuple W) (now : ℕ)
      → Holds dim a.s xs
      → Holds dim (add_compute_tuple dim a t now).s (row_of t ∷ xs)
  unfolding add_compute_tuple get_size
  add_compute_tuple-Holds a xs t now v = settle-Holds a.s xs t v

  merge-Holds :
      (s : TData W) (xs ys b : List (Row W))
      → Holds dim s xs
      → Perm b (skyline dim ys)
      → Holds dim (merge_rows dim s s.count b) (xs ++ ys)
  merge-Holds s xs ys b v h =
      let m =
        merge_rows-Merged laws dim two s s.rows b [] (sym (append-nil _)) (omega (arith, v.counted))
          (undominated-IsSpread dim b (skyline-undominated laws dim b ys h)) in
      let order = Perm.trans m.perm (skyline-perm_append laws dim s.rows b xs ys v.sky h) in
      let good : Holds dim (record { count = length m.rows; rows = m.rows }) (xs ++ ys) = record {
        counted = refl;
        sky = order;
      } in
      subst (λ n. Holds dim (merge_rows dim s n b) (xs ++ ys)) (sym v.counted)
        (subst (λ c. Holds dim c (xs ++ ys)) (sym m.container) good)

  -- no tuple held means that the skyline is empty
  Holds-nil : (s : TData W) (xs : List (Row W)) → Holds dim s xs → s.count ≡ 0 → skyline dim xs ≡ []
  Holds-nil s xs v e =
      let none_held : s.rows ≡ [] = length-nil s.rows (sym v.counted ∙ e) in
      sym (Perm.nil-eq (subst (λ l. Perm l (skyline dim xs)) none_held v.sky))

  -- Adding a set that holds the skyline of ys to one that holds the skyline of xs makes it hold the
  -- skyline of both inputs together.
  pub add_compute_set-Holds :
      (a b : SkySet W) (xs ys : List (Row W)) (now : ℕ)
      → Holds dim a.s xs
      → Holds dim b.s ys
      → Holds dim (add_compute_set dim a b now).s (xs ++ ys)
  unfolding add_compute_set get_size
  add_compute_set-Holds a b xs ys now v w = elim (Bool-cases (a.s.count == 0)) [
    | inl e ↦
        subst (λ c. Holds dim (if c then b.s else merge_rows dim a.s a.s.count b.s.rows) (xs ++ ys))
          (sym e)
          (record {
            counted = w.counted;
            sky =
                subst (Perm b.s.rows)
                  (sym (skyline-append_nil laws dim xs ys (Holds-nil a.s xs v (ground (arith, e)))))
                  w.sky;
          })
    | inr e ↦
        subst (λ c. Holds dim (if c then b.s else merge_rows dim a.s a.s.count b.s.rows) (xs ++ ys))
          (sym e) (merge-Holds a.s xs ys b.s.rows v w.sky)
  ]
