-- ===== src/Controller/Release.antt =====
-- What `releaseResources` gives.
use elastic_ppq.Common.{
  ℕ, zero, suc, ◌+◌, ◌-◌, ◌^◌, ◌≤◌, ◌<◌, ◌≡◌, ◌≢◌, refl, sym, ap, ◌∙◌, subst, inl, inr, ◌⊎◌, Bool,
  true, false, ◌&&◌, List, [], ◌∷◌, Option, none, some, arith, ℕ_discrete, length, ltb, lt→ltb,
  Bool-cases,
}
use elastic_ppq.Plq.Sched.{has}
use elastic_ppq.Controller.{
  Owner, Resource, same_owner, owner_of, set_owner, find_least, release_resources,
}
use elastic_ppq.Controller.Owners.{
  owned, count_below, count_below-less, count_below_none, owned_set, owned-set_other,
  length-set_owner, Passed, owner-eq, Passed-none, Passed-cons,
}

module _ (queue : ℕ → ℕ) (o : Owner) (pool : List Resource) where
  -- The search has an owned resource.
  IsOwned : Option ℕ → ℕ → Type 0
  IsOwned best total = (k : ℕ) × (best ≡ some k) × (owned pool o k ≡ true) × (k < total)

  find_least-IsOwned :
      (n id least : ℕ) (best : Option ℕ) (total : ℕ)
      → id + n ≤ total
      → IsOwned best total
      → IsOwned (find_least queue o pool n id least best) total
  unfolding find_least IsOwned
  find_least-IsOwned zero id least best total le f = f
  find_least-IsOwned (suc n) id least best total le f =
      elim (Bool-cases (same_owner (owner_of pool id) o && ltb (queue id) least)) [
        | inl h ↦ rw h (
            find_least-IsOwned n (id + 1) (queue id) (some id) total (omega (arith, le))
              (id, refl, ground (arith, h), omega (arith, le)))
        | inr h ↦ rw h (find_least-IsOwned n (id + 1) least best total (omega (arith, le)) f)
      ]

  -- It finds one if there is one, for queues shorter than the start value.
  find_least_lem :
      (n id : ℕ) (total : ℕ)
      → id + n ≤ total
      → ((k : ℕ) → queue k < 2 ^ 64 - 1)
      → IsOwned (find_least queue o pool n id (2 ^ 64 - 1) none) total
        ⊎ ((k : ℕ) → id ≤ k → k < id + n → owned pool o k ≡ false)
  unfolding find_least IsOwned
  find_least_lem zero id total le short = inr (λ k a b. absurd (omega (arith, a, b)))
  find_least_lem (suc n) id total le short =
      elim (Bool-cases (same_owner (owner_of pool id) o && ltb (queue id) (2 ^ 64 - 1))) [
        | inl h ↦ inl (
            rw h (
              find_least-IsOwned n (id + 1) (queue id) (some id) total (omega (arith, le))
                (id, refl, ground (arith, h), omega (arith, le))))
        | inr h ↦ elim (find_least_lem n (id + 1) total (omega (arith, le)) short) [
          | inl f ↦ inl (rw h f)
          | inr all ↦ inr (λ k a b. elim (ℕ_discrete k id) [
            | yes e ↦
                subst (λ z. owned pool o z ≡ false) (sym e)
                  (not_owned (owned pool o id) (ltb (queue id) (2 ^ 64 - 1)) h
                    (lt→ltb _ _ (short id)))
            | no ne ↦ all k (omega (arith, a, ne)) (omega (arith, b))
          ])
        ]
      ]
    where
      not_owned : (a b : Bool) → (a && b) ≡ false → b ≡ true → a ≡ false
      not_owned a b h g = ground (arith, h, g)

opened :
    (queue : ℕ → ℕ) (o : Owner) (pool : List Resource) {best : Option ℕ} {total : ℕ}
    → IsOwned queue o pool best total
    → (k : ℕ) × (best ≡ some k) × (owned pool o k ≡ true) × (k < total)
unfolding IsOwned
opened queue o pool f = f

free-other : (o : Owner) → o ≢ Owner.no_owner → same_owner Owner.no_owner o ≡ false
unfolding same_owner
free-other Owner.plq ne = refl
free-other Owner.wlq ne = refl
free-other Owner.no_owner ne = absurd (ne refl)

release_step :
    (queues : ℕ → ℕ → ℕ) (o : Owner) (n : ℕ) (pool : List Resource) (id : ℕ)
    (r : List Resource × List ℕ)
    → find_least (queues n) o pool (length pool) 0 (2 ^ 64 - 1) none ≡ some id
    → release_resources queues o n (set_owner pool id Owner.no_owner) ≡ some r
    → release_resources queues o (suc n) pool ≡ some (r.0, id ∷ r.1)
unfolding release_resources
release_step queues o n pool id r e g = rw e (rw g refl)

-- If there are as many owned resources as are to be released, they are, and become free.
pub release_resources-Passed :
    (queues : ℕ → ℕ → ℕ) (o : Owner) (n : ℕ) (pool : List Resource)
    → ((i k : ℕ) → queues i k < 2 ^ 64 - 1)
    → o ≢ Owner.no_owner
    → n ≤ count_below (owned pool o) (length pool)
    → (r : List Resource × List ℕ) × (release_resources queues o n pool ≡ some r)
      × Passed pool o Owner.no_owner r
      × (length r.1 ≡ n)
unfolding release_resources
release_resources-Passed queues o zero pool short ne le =
    ((pool, []), refl, Passed-none pool o Owner.no_owner, refl)
release_resources-Passed queues o (suc n) pool short ne le =
    elim (find_least_lem (queues n) o pool (length pool) 0 (length pool) (omega arith) (short n)) [
      | inr all ↦ absurd (
          omega (
            arith,
            le,
            count_below_none (owned pool o) (length pool)
                (λ k lt. all k (omega arith) (omega (arith, lt))),
          ))
      | inl f ↦
          let (id, e, own, lt) = opened (queues n) o pool f in
          let pool' = set_owner pool id Owner.no_owner in
          let gone : owned pool' o id ≡ false =
            ap (λ a. same_owner a o) (owned_set pool id Owner.no_owner lt) ∙ free-other o ne in
          let count =
            count_below-less (owned pool o) (owned pool' o) id (length pool) lt own gone (λ k other.
              ap (λ a. same_owner a o) (sym (owned-set_other pool id k Owner.no_owner other))) in
          let size = length-set_owner pool id Owner.no_owner in
          let (r, g, v, l) = release_resources-Passed queues o n pool' short ne (
            subst (λ z. n ≤ count_below (owned pool' o) z) (sym size) (omega (arith, le, count))) in
          let new : has id r.1 ≡ false = elim (Bool-cases (has id r.1)) [
            | inl h ↦ absurd (ne (sym ((v.before id h).0) ∙ owned_set pool id Owner.no_owner lt))
            | inr h ↦ h
          ] in
          (
            (r.0, id ∷ r.1),
            release_step queues o n pool id r e g,
            Passed-cons pool o Owner.no_owner id r (owner-eq (owner_of pool id) o own) lt new v,
            ap suc l,
          )
    ]
