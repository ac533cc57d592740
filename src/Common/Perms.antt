-- ===== src/Common/Perms.antt =====
-- `keep` and `exists` on a list in another order, and how they compose.
use mathlib.Core.Logic.{∥∥₁_elim, ∥∥₁_map}
use mathlib.Core.List.{Permᴰ, perm_middle}
use mathlib.Core.List.Perm
use mathlib.Core.List.Permᴰ as PermD
use elastic_ppq.Common.{
  ◌≡◌, refl, ◌∙◌, inl, inr, Bool, true, false, ◌&&◌, ◌||◌, List, [], ◌∷◌, ◌++◌, append_assoc,
  append-nil, sym, subst, Perm, arith, keep, exists, Bool-cases,
}

module _ {ℓ} {A : Type ℓ} where
  pub keep_yes : (p : A → Bool) (x : A) (xs : List A) → p x ≡ true → keep p (x ∷ xs) ≡ x ∷ keep p xs
  keep_yes p x xs h = ground arith

  pub keep_no : (p : A → Bool) (x : A) (xs : List A) → p x ≡ false → keep p (x ∷ xs) ≡ keep p xs
  keep_no p x xs h = ground arith

  keep_swap :
      (p : A → Bool) (a b : A) (l : List A) → Permᴰ (keep p (a ∷ b ∷ l)) (keep p (b ∷ a ∷ l))
  keep_swap p a b l = elim (Bool-cases (p a)) [
    | inl h ↦ elim (Bool-cases (p b)) [
      | inl k ↦
          rw (keep_yes p a _ h, keep_yes p b _ k, keep_yes p b _ k, keep_yes p a _ h)
            (Permᴰ.swap refl refl)
      | inr k ↦
          rw (keep_yes p a _ h, keep_no p b _ k, keep_no p b _ k, keep_yes p a _ h) (PermD.refl _)
    ]
    | inr h ↦ elim (Bool-cases (p b)) [
      | inl k ↦
          rw (keep_no p a _ h, keep_yes p b _ k, keep_yes p b _ k, keep_no p a _ h) (PermD.refl _)
      | inr k ↦
          rw (keep_no p a _ h, keep_no p b _ k, keep_no p b _ k, keep_no p a _ h) (PermD.refl _)
    ]
  ]

  keep-permᴰ : (p : A → Bool) {xs ys : List A} → Permᴰ xs ys → Permᴰ (keep p xs) (keep p ys)
  keep-permᴰ p Permᴰ.nil = Permᴰ.nil
  keep-permᴰ p (Permᴰ.cons {b} e s) = elim (Bool-cases (p b)) [
    | inl h ↦ rw (e, keep_yes p _ _ h, keep_yes p _ _ h) (Permᴰ.cons refl (keep-permᴰ p s))
    | inr h ↦ rw (e, keep_no p _ _ h, keep_no p _ _ h) (keep-permᴰ p s)
  ]
  keep-permᴰ p (Permᴰ.swap {a'} {b'} {l} e f) = rw (e, f) (keep_swap p b' a' l)
  keep-permᴰ p (Permᴰ.trans s t) = Permᴰ.trans (keep-permᴰ p s) (keep-permᴰ p t)

  exists-permᴰ : (p : A → Bool) {xs ys : List A} → Permᴰ xs ys → exists p xs ≡ exists p ys
  exists-permᴰ p Permᴰ.nil = refl
  exists-permᴰ p (Permᴰ.cons e s) = ground (arith, exists-permᴰ p s)
  exists-permᴰ p (Permᴰ.swap e f) = ground arith
  exists-permᴰ p (Permᴰ.trans s t) = exists-permᴰ p s ∙ exists-permᴰ p t

  pub keep-perm : (p : A → Bool) {xs ys : List A} → Perm xs ys → Perm (keep p xs) (keep p ys)
  keep-perm p h = ∥∥₁_map h (keep-permᴰ p)

  pub exists-perm : (p : A → Bool) {xs ys : List A} → Perm xs ys → exists p xs ≡ exists p ys
  exists-perm p h = ∥∥₁_elim h (hlevel) (exists-permᴰ p)

  pub keep-append : (p : A → Bool) (xs ys : List A) → keep p (xs ++ ys) ≡ keep p xs ++ keep p ys
  keep-append p [] ys = refl
  keep-append p (x ∷ xs) ys = ground (arith, keep-append p xs ys)

  pub exists-append :
      (p : A → Bool) (xs ys : List A) → exists p (xs ++ ys) ≡ (exists p xs || exists p ys)
  exists-append p [] ys = refl
  exists-append p (x ∷ xs) ys = ground (arith, exists-append p xs ys)

  pub keep-keep : (p q : A → Bool) (xs : List A) → keep p (keep q xs) ≡ keep (λ x. q x && p x) xs
  keep-keep p q [] = refl
  keep-keep p q (x ∷ xs) = ground (arith, keep-keep p q xs)

  pub keep_congr : (p q : A → Bool) (xs : List A) → ((x : A) → p x ≡ q x) → keep p xs ≡ keep q xs
  keep_congr p q [] h = refl
  keep_congr p q (x ∷ xs) h = ground (arith, h x, keep_congr p q xs h)

module _ {ℓ} {A : Type ℓ} where
  pub perm_comm : (xs ys : List A) → Perm (xs ++ ys) (ys ++ xs)
  perm_comm [] ys = subst (Perm ys) (sym (append-nil ys)) (Perm.refl ys)
  perm_comm (x ∷ xs) ys = Perm.trans (Perm.cons x (perm_comm xs ys)) (Perm.symm (perm_middle ys xs))

  -- The middle one of three lists comes to the front.
  pub perm_front : (xs m ys : List A) → Perm (xs ++ (m ++ ys)) (m ++ (xs ++ ys))
  perm_front xs m ys =
      subst (λ l. Perm l (m ++ (xs ++ ys))) (append_assoc xs m ys)
        (subst (Perm ((xs ++ m) ++ ys)) (append_assoc m xs ys)
          (Perm.append (perm_comm xs m) (Perm.refl ys)))
