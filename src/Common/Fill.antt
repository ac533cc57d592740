-- ===== src/Common/Fill.antt =====
-- Filling the gap at the front of a zone of an array with the last entry of the zone.
use mathlib.Core.List.{perm_middle}
use mathlib.Core.List.Perm
use elastic_ppq.Common.{
  ℕ, ◌+◌, ◌≡◌, refl, sym, ap, ◌∙◌, subst, List, [], ◌∷◌, ◌++◌, map, append_assoc, append-nil, Perm,
  arith, length, length-append, get_or, set, get_or-append, set-append,
}

module _ {ℓ} {A : Type ℓ} where
  -- the last entry of x ∷ xs, and those before it
  abbrev pub last_of : A → List A → A
  last_of x [] = x
  last_of x (y ∷ ys) = last_of y ys

  abbrev init_of : A → List A → List A
  init_of x [] = []
  init_of x (y ∷ ys) = x ∷ init_of y ys

  -- the zone behind its first place, once the last entry has gone there
  abbrev pub fill_in : List A → List A
  fill_in [] = []
  fill_in (y ∷ ys) = last_of y ys ∷ init_of y ys

  init_of-last_of : (x : A) (xs : List A) → init_of x xs ++ (last_of x xs ∷ []) ≡ x ∷ xs
  init_of-last_of x [] = refl
  init_of-last_of x (y ∷ ys) = ap (◌∷◌ x) (init_of-last_of y ys)

  pub length-fill_in : (xs : List A) → length (fill_in xs) ≡ length xs
  length-fill_in [] = refl
  length-fill_in (y ∷ ys) =
      omega
        (arith, length-append (init_of y ys) (last_of y ys ∷ []), ap length (init_of-last_of y ys))

  pub fill_in-perm : (xs : List A) → Perm (fill_in xs) xs
  fill_in-perm [] = Perm.nil
  fill_in-perm (y ∷ ys) =
      subst (λ l. Perm (fill_in (y ∷ ys)) l) (init_of-last_of y ys)
        (Perm.symm (
          subst (λ l. Perm (init_of y ys ++ (last_of y ys ∷ [])) (last_of y ys ∷ l))
            (append-nil (init_of y ys)) (perm_middle (init_of y ys) [])))

  pub get_or_last :
      (a : List A) (x : A) (b v : List A) (i : ℕ) (d : A)
      → i ≡ length a + length b
      → get_or (a ++ ((x ∷ b) ++ v)) i d ≡ last_of x b
  get_or_last a x [] v i d e =
      let same : i ≡ length a = omega arith in rw same (get_or-append a x v d)
  get_or_last a x (y ∷ ys) v i d e =
      rw (← append_assoc a (x ∷ []) ((y ∷ ys) ++ v))
        (get_or_last (a ++ (x ∷ [])) y ys v i d (omega (arith, length-append a (x ∷ []))))

  pub set_last :
      (a : List A) (x : A) (b v : List A) (i : ℕ)
      → i ≡ length a
      → set (a ++ ((x ∷ b) ++ v)) i (last_of x b) ≡ a ++ (fill_in b ++ (last_of x b ∷ v))
  set_last a x [] v i e = rw e (set-append a x x v)
  set_last a x (y ∷ ys) v i e = rw e (
      set-append a x (last_of y ys) ((y ∷ ys) ++ v)
      ∙ ap (λ l. a ++ (last_of y ys ∷ l)) (regroup y ys))
    where
      regroup : (y : A) (ys : List A) → (y ∷ ys) ++ v ≡ init_of y ys ++ (last_of y ys ∷ v)
      regroup y ys =
          ap (λ l. l ++ v) (sym (init_of-last_of y ys))
          ∙ append_assoc (init_of y ys) (last_of y ys ∷ []) v

module _ {ℓ κ} {A : Type ℓ} {B : Type κ} (f : A → B) where
  pub map-last_of : (x : A) (xs : List A) → last_of (f x) (map f xs) ≡ f (last_of x xs)
  map-last_of x [] = refl
  map-last_of x (y ∷ ys) = map-last_of y ys

  map-init_of : (x : A) (xs : List A) → init_of (f x) (map f xs) ≡ map f (init_of x xs)
  map-init_of x [] = refl
  map-init_of x (y ∷ ys) = ap (◌∷◌ (f x)) (map-init_of y ys)

  pub map-fill_in : (xs : List A) → fill_in (map f xs) ≡ map f (fill_in xs)
  map-fill_in [] = refl
  map-fill_in (y ∷ ys) = rw (map-last_of y ys, map-init_of y ys)
