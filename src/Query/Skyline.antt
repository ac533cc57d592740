-- ===== src/Query/Skyline.antt =====
-- What a skyline query promises: the tuples that no tuple of the input dominates. Tuples that compare
-- equal do not dominate one another, and stay as often as they came in.
use mathlib.Core.Path.{fun_ext, ap₂}
use mathlib.Core.List.{perm_middle}
use mathlib.Core.List.Perm
use elastic_ppq.Common.{
  ℕ, ◌≡◌, refl, sym, ap, ◌∙◌, subst, inl, inr, Bool, true, false, not, ◌&&◌, ◌||◌, List, [], ◌∷◌,
  ◌++◌, Perm, arith, keep, exists, Bool-cases, if◌then◌else◌, append-nil,
}
use elastic_ppq.Common.Perms.{
  keep-perm, exists-perm, keep-append, exists-append, keep-keep, keep_congr,
}
use elastic_ppq.Double.{Double, IsOrdered}
use elastic_ppq.Query.TData.{Row}
use elastic_ppq.Query.Dominance.{dominates, dominates_trans, dominates_asymm}

module _ {W : Type 0} ⦃o : Double W⦄ (dim : ℕ) where
  abbrev pub dominated : List (Row W) → Row W → Bool
  dominated xs p = exists (λ q. dominates dim q p) xs

  -- the tuples of the input that none of it dominates, in the order of the input
  unfoldable pub skyline : List (Row W) → List (Row W)
  skyline xs = keep (λ p. not (dominated xs p)) xs

  -- the tuples of a list that t does not dominate
  abbrev pub spared : Row W → List (Row W) → List (Row W)
  spared t = keep (λ p. not (dominates dim t p))

module _ {W : Type 0} ⦃o : Double W⦄ (laws : IsOrdered W) (dim : ℕ) where
  exists-keep :
      (f g : Row W → Bool) (xs : List (Row W)) → exists f (keep g xs) ≡ true → exists f xs ≡ true
  exists-keep f g [] h = h
  exists-keep f g (x ∷ xs) h = ground (arith, exists-keep f g xs)

  dominated-spared :
      (x t : Row W) (xs : List (Row W))
      → dominates dim x t ≡ false
      → dominated dim xs t ≡ true
      → dominated dim (spared dim x xs) t ≡ true
  dominated-spared x t [] n h = h
  dominated-spared x t (a ∷ xs) n h =
      ground (arith, dominated-spared x t xs, dominates_trans laws dim x a t)

  -- For a tuple that x does not dominate, nothing is lost with the tuples that x dominates.
  pub dominated-spared_eq :
      (x t : Row W) (xs : List (Row W))
      → dominates dim x t ≡ false
      → dominated dim (spared dim x xs) t ≡ dominated dim xs t
  dominated-spared_eq x t xs n = ground (
    arith,
    dominated-spared x t xs n,
    exists-keep (λ q. dominates dim q t) (λ p. not (dominates dim x p)) xs,
  )

  dominated-spared_below :
      (x t : Row W) (xs : List (Row W))
      → dominates dim x t ≡ true
      → dominated dim xs x ≡ true
      → dominated dim (spared dim x xs) t ≡ true
  dominated-spared_below x t [] n h = h
  dominated-spared_below x t (a ∷ xs) n h = ground (
    arith,
    dominated-spared_below x t xs,
    dominates_trans laws dim a x t,
    dominates_asymm laws dim a x,
  )

  not-dominates_self : (x : Row W) → dominates dim x x ≡ false
  not-dominates_self x = ground (arith, dominates_asymm laws dim x x)

  -- the rest of the skyline when one tuple is put in front
  skyline-tail :
      (x : Row W) (xs : List (Row W))
      → keep (λ p. not (dominated dim (x ∷ xs) p)) xs ≡ spared dim x (skyline dim xs)
  unfolding skyline
  skyline-tail x xs =
      keep_congr _ (λ p. not (dominated dim xs p) && not (dominates dim x p)) xs (λ p. ground arith)
      ∙ sym (keep-keep _ _ xs)

  pub skyline-cons :
      (x : Row W) (xs : List (Row W))
      → skyline dim (x ∷ xs) ≡ (
          if dominated dim xs x
          then spared dim x (skyline dim xs)
          else x ∷ spared dim x (skyline dim xs))
  unfolding skyline
  skyline-cons x xs = ground (arith, skyline-tail x xs, not-dominates_self x)

  dominated_down :
      (xs : List (Row W)) (t : Row W)
      → dominated dim (skyline dim xs) t ≡ true
      → dominated dim xs t ≡ true
  unfolding skyline
  dominated_down xs t h = exists-keep _ _ xs h

  dominated_up :
      (xs : List (Row W)) (t : Row W)
      → dominated dim xs t ≡ true
      → dominated dim (skyline dim xs) t ≡ true
  dominated_up [] t h = absurd (ground arith)
  dominated_up (x ∷ xs) t h = rw (skyline-cons x xs) (
      ground (
        arith,
        dominated_up xs t,
        dominated_up xs x,
        dominated-spared x t (skyline dim xs),
        dominated-spared_below x t (skyline dim xs),
      ))

  -- A tuple is dominated by a list exactly if it is by the skyline of the list.
  pub dominated-skyline :
      (xs : List (Row W)) (t : Row W) → dominated dim (skyline dim xs) t ≡ dominated dim xs t
  dominated-skyline xs t = ground (arith, dominated_down xs t, dominated_up xs t)

  -- The skyline of a list that one tuple joins, from any list that holds the skyline so far.
  pub skyline-perm_cons :
      (s xs : List (Row W)) (t : Row W)
      → Perm s (skyline dim xs)
      → Perm (spared dim t s ++ (if dominated dim s t then [] else t ∷ [])) (skyline dim (t ∷ xs))
  skyline-perm_cons s xs t h =
      let same : dominated dim s t ≡ dominated dim xs t =
        exists-perm _ h ∙ dominated-skyline xs t in
      rw (same, skyline-cons t xs)
        (elim (Bool-cases (dominated dim xs t)) [
          | inl k ↦ rw (k, append-nil) (keep-perm _ h)
          | inr k ↦ rw k (
              Perm.trans (perm_middle (spared dim t s) [])
                (Perm.cons t (rw append-nil (keep-perm _ h))))
        ])

  exists-keep-not :
      (f : Row W → Bool) (xs : List (Row W)) → exists f (keep (λ p. not (f p)) xs) ≡ false
  exists-keep-not f [] = refl
  exists-keep-not f (x ∷ xs) = ground (arith, exists-keep-not f xs)

  -- No tuple of a skyline dominates another of it.
  pub skyline-undominated :
      (s xs : List (Row W)) → Perm s (skyline dim xs) → exists (dominated dim s) s ≡ false
  skyline-undominated s xs h =
      let same : dominated dim s ≡ dominated dim xs =
        fun_ext (λ t. exists-perm _ h ∙ dominated-skyline xs t) in
      rw (same, exists-perm (dominated dim xs) h)
        (unfold skyline in exists-keep-not (dominated dim xs) xs)

  keep-spared :
      (p : Row W → Bool) (us vs : List (Row W))
      → ((r : Row W) → p r ≡ (not (dominated dim us r) && not (dominated dim vs r)))
      → keep p us ≡ keep (λ r. not (dominated dim (skyline dim vs) r)) (skyline dim us)
  unfolding skyline
  keep-spared p us vs h =
      keep_congr p _ us h
      ∙ sym (keep-keep (λ r. not (dominated dim vs r)) (λ r. not (dominated dim us r)) us)
      ∙ keep_congr _ _ (skyline dim us) (λ r. ap not (sym (dominated-skyline vs r)))

  -- The skyline of two lists together: of each skyline what the other one spares.
  pub skyline-append :
      (xs ys : List (Row W))
      → skyline dim (xs ++ ys)
        ≡ keep (λ p. not (dominated dim (skyline dim ys) p)) (skyline dim xs)
          ++ keep (λ p. not (dominated dim (skyline dim xs) p)) (skyline dim ys)
  unfolding skyline
  skyline-append xs ys =
      let p : Row W → Bool = λ r. not (dominated dim (xs ++ ys) r) in
      let both : (r : Row W)
          → dominated dim (xs ++ ys) r ≡ (dominated dim xs r || dominated dim ys r) =
        λ r. exists-append (λ q. dominates dim q r) xs ys in
      keep-append p xs ys
      ∙ ap₂ ◌++◌ (keep-spared p xs ys (λ r. ground (arith, both r)))
          (keep-spared p ys xs (λ r. ground (arith, both r)))

  kept-perm :
      (s b us vs : List (Row W))
      → Perm s us
      → Perm b vs
      → Perm (keep (λ p. not (dominated dim b p)) s) (keep (λ p. not (dominated dim vs p)) us)
  kept-perm s b us vs h k =
      let same : dominated dim b ≡ dominated dim vs = fun_ext (λ t. exists-perm _ k) in
      subst (λ f. Perm (keep (λ p. not (f p)) s) (keep (λ p. not (dominated dim vs p)) us))
        (sym same) (keep-perm (λ p. not (dominated dim vs p)) h)

  -- The skyline of two lists together, from any lists that hold the skylines of the two.
  pub skyline-perm_append :
      (s b xs ys : List (Row W))
      → Perm s (skyline dim xs)
      → Perm b (skyline dim ys)
      → Perm
          (keep (λ p. not (dominated dim b p)) s ++ keep (λ p. not (dominated dim s p)) b)
          (skyline dim (xs ++ ys))
  skyline-perm_append s b xs ys h k = subst (Perm _) (sym (skyline-append xs ys)) (
      Perm.append (kept-perm s b (skyline dim xs) (skyline dim ys) h k)
        (kept-perm b s (skyline dim ys) (skyline dim xs) k h))

  keep_all : (xs : List (Row W)) → keep (λ p. not (dominated dim [] p)) xs ≡ xs
  keep_all [] = refl
  keep_all (x ∷ xs) = rw (keep_all xs)

  -- The skyline does not depend on the order of the input.
  pub skyline-perm : {xs ys : List (Row W)} → Perm xs ys → Perm (skyline dim xs) (skyline dim ys)
  unfolding skyline
  skyline-perm {xs} {ys} h = kept-perm xs xs ys ys h h

  -- A list whose skyline is empty adds nothing to the skyline of another.
  pub skyline-append_nil :
      (xs ys : List (Row W)) → skyline dim xs ≡ [] → skyline dim (xs ++ ys) ≡ skyline dim ys
  skyline-append_nil xs ys e =
      skyline-append xs ys
      ∙ ap
          (λ l.
            keep (λ p. not (dominated dim (skyline dim ys) p)) l
            ++ keep (λ p. not (dominated dim l p)) (skyline dim ys))
          e
      ∙ keep_all (skyline dim ys)
