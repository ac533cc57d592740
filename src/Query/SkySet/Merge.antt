-- ===== src/Query/SkySet/Merge.antt =====
-- The loop of `addComputeSet` over the tuples of the other set.
use mathlib.Core.List.Perm
use elastic_ppq.Common.{
  ℕ, ◌+◌, ◌≤◌, ◌≡◌, refl, sym, ◌∙◌, subst, false, not, ◌||◌, List, [], ◌∷◌, ◌++◌, append_assoc,
  append-nil, Perm, arith, length, length-append, keep, exists, All, if◌then◌else◌,
}
use elastic_ppq.Common.Perms.{keep_congr, keep-perm, keep-keep, exists-perm}
use elastic_ppq.Double.{Double, IsOrdered}
use elastic_ppq.Message.{empty}
use elastic_ppq.Query.TData.{TData, Row}
use elastic_ppq.Query.Dominance.{dominates}
use elastic_ppq.Query.Skyline.{dominated, spared, dominated-spared_eq}
use elastic_ppq.Query.SkySet.{update_skyline, settle, merge_rows, copied}
use elastic_ppq.Query.SkySet.Update.{settle-Settled}

module _ {W : Type 0} ⦃o : Double W⦄ (dim : ℕ) where
  -- the tuples that no tuple of the other list dominates
  abbrev pub not_beaten_by : List (Row W) → List (Row W) → List (Row W)
  not_beaten_by ys = keep (λ r. not (dominated dim ys r))

  -- no tuple of the list dominates a later one
  abbrev pub IsSpread : List (Row W) → Type 0
  IsSpread [] = Unit
  IsSpread (y ∷ ys) = All (λ r. dominates dim y r ≡ false) ys × IsSpread ys

  pub record Merged (a b c : List (Row W)) (s : TData W) : Type 0 where
    pub rows : List (Row W)
    pub container : s ≡ record { count = length rows; rows = rows }
    pub perm : Perm rows (not_beaten_by b a ++ (c ++ not_beaten_by a b))

  exists-false-cons :
      (y : Row W) (ys zs : List (Row W))
      → exists (λ r. dominates dim y r || dominated dim ys r) zs ≡ false
      → All (λ r. dominates dim y r ≡ false) zs × (exists (dominated dim ys) zs ≡ false)
  exists-false-cons y ys [] h = (tt, refl)
  exists-false-cons y ys (z ∷ zs) h = ground (arith, exists-false-cons y ys zs)

  pub undominated-IsSpread :
      (ys : List (Row W)) → exists (dominated dim ys) ys ≡ false → IsSpread ys
  undominated-IsSpread [] h = tt
  undominated-IsSpread (y ∷ ys) h =
      let parts = exists-false-cons y ys ys (ground arith) in
      (parts.0, undominated-IsSpread ys parts.1)

module _ {W : Type 0} ⦃o : Double W⦄ (laws : IsOrdered W) (dim : ℕ) (two : 2 ≤ dim) where
  keep_all : (xs : List (Row W)) → not_beaten_by dim [] xs ≡ xs
  keep_all [] = refl
  keep_all (x ∷ xs) = rw (keep_all xs)

  not_beaten-spared :
      (y : Row W) (ys a : List (Row W))
      → not_beaten_by dim ys (spared dim y a) ≡ not_beaten_by dim (y ∷ ys) a
  not_beaten-spared y ys a =
      keep-keep (λ r. not (dominated dim ys r)) (λ r. not (dominates dim y r)) a
      ∙ keep_congr _ (λ r. not (dominated dim (y ∷ ys) r)) a (λ r. ground arith)

  not_beaten_after :
      (y : Row W) (ys a a' : List (Row W))
      → Perm a' (spared dim y a)
      → All (λ r. dominates dim y r ≡ false) ys
      → not_beaten_by dim a' ys ≡ not_beaten_by dim a ys
  not_beaten_after y [] a a' h n = refl
  not_beaten_after y (r ∷ ys) a a' h n =
      let same : dominated dim a' r ≡ dominated dim a r =
        exists-perm _ h ∙ dominated-spared_eq laws dim y r a n.0 in
      ground (arith, same, not_beaten_after y ys a a' h n.1)

  joined :
      (y : Row W) (ys a c : List (Row W))
      → (c ++ (if dominated dim a y then [] else y ∷ [])) ++ not_beaten_by dim a ys
        ≡ c ++ not_beaten_by dim a (y ∷ ys)
  joined y ys a c = ground (arith, append-nil c, append_assoc c (y ∷ []) (not_beaten_by dim a ys))

  -- With `endpoint` behind the tuples `a`, the loop leaves of `a` and of the other set's tuples those
  -- that the other part does not dominate, beside what stood behind `endpoint`.
  pub merge_rows-Merged :
      (s : TData W) (a b c : List (Row W))
      → s.rows ≡ a ++ c
      → s.count ≡ length a + length c
      → IsSpread dim b
      → Merged dim a b c (merge_rows dim s (length a) b)
  unfolding merge_rows empty
  merge_rows-Merged s a [] c r n i = record {
    rows = a ++ c;
    container = ground (arith, length-append a c);
    perm = rw (keep_all a, append-nil) (Perm.refl (a ++ c));
  }
  merge_rows-Merged s a (y ∷ ys) c r n i =
      let st = settle-Settled dim two s (copied y) a c r n in
      let u = update_skyline dim s (copied y) (length a) in
      let ih =
        merge_rows-Merged (settle dim (copied y) u) st.a' ys st.c' (rw st.container)
          (rw st.container) i.1 in
      let order = Perm.trans ih.perm (
        Perm.append (keep-perm (λ r. not (dominated dim ys r)) st.a-perm)
          (Perm.append st.c-perm (Perm.refl _))) in
      subst (λ n. Merged dim a (y ∷ ys) c (merge_rows dim (settle dim (copied y) u) n ys))
        (sym st.n_end)
        (record {
          rows = ih.rows;
          container = ih.container;
          perm =
              rw
                (
                  not_beaten-spared y ys a,
                  not_beaten_after y ys a st.a' st.a-perm i.0,
                  joined y ys a c,
                )
                at order;
        })
