-- ===== src/Controller/Acquire.antt =====
-- What `acquireResources` gives.
use elastic_ppq.Common.{
  ℕ, zero, suc, ◌+◌, ◌≤◌, ◌≡◌, inl, inr, true, false, ◌&&◌, List, arith, ℕ_discrete, length, ltb,
  Bool-cases,
}
use elastic_ppq.Plq.Sched.{has}
use elastic_ppq.Controller.{
  Owner, Resource, same_owner, owner_of, set_owner, acquire_from, acquire_resources,
}
use elastic_ppq.Controller.Owners.{
  length-set_owner, Passed, owner-eq, has_none, has_cons, Passed-none, Passed-cons,
}

-- The identifiers are behind id, and as many as asked for at most.
acquire_from-Passed :
    (num : ℕ) (o : Owner) (n id acquired : ℕ) (pool : List Resource)
    → id + n ≤ length pool
    → Passed pool Owner.no_owner o (acquire_from num o n id acquired pool)
      × ((k : ℕ) → has k (acquire_from num o n id acquired pool).1 ≡ true → id ≤ k)
      × (acquired ≤ num → acquired + length (acquire_from num o n id acquired pool).1 ≤ num)
unfolding acquire_from
acquire_from-Passed num o zero id acquired pool le =
    (Passed-none pool Owner.no_owner o, λ k h. absurd (has_none k h), λ h. omega (arith, h))
acquire_from-Passed num o (suc n) id acquired pool le =
    elim (Bool-cases (same_owner (owner_of pool id) Owner.no_owner && ltb acquired num)) [
      | inr h ↦
          let (v, low, few) =
            acquire_from-Passed num o n (id + 1) acquired pool (omega (arith, le)) in
          rw h (v, λ k g. omega (arith, low k g), few)
      | inl h ↦
          let pool' = set_owner pool id o in
          let r = acquire_from num o n (id + 1) (acquired + 1) pool' in
          let (v, low, few) =
            acquire_from-Passed num o n (id + 1) (acquired + 1) pool'
              (omega (arith, le, length-set_owner pool id o)) in
          let new : has id r.1 ≡ false = elim (Bool-cases (has id r.1)) [
            | inl g ↦ absurd (omega (arith, low id g))
            | inr g ↦ g
          ] in
          let free : owner_of pool id ≡ Owner.no_owner =
            owner-eq (owner_of pool id) Owner.no_owner (ground (arith, h)) in
          let more : acquired + 1 ≤ num = ground (arith, h) in
          rw h (
            Passed-cons pool Owner.no_owner o id r free (omega (arith, le)) new v,
            λ k g. elim (ℕ_discrete k id) [
              | yes q ↦ omega (arith, q)
              | no ne ↦ omega (arith, low k (ground (arith, g, has_cons k id r.1, ne)))
            ],
            λ _. omega (arith, few more),
          )
    ]

-- Free resources go over to the owner, and no more than asked for.
pub acquire_resources-Passed :
    (num : ℕ) (o : Owner) (pool : List Resource)
    → Passed pool Owner.no_owner o (acquire_resources num o pool)
      × (length (acquire_resources num o pool).1 ≤ num)
unfolding acquire_resources
acquire_resources-Passed num o pool =
    let (v, _, few) = acquire_from-Passed num o (length pool) 0 0 pool (omega arith) in
    (v, omega (arith, few (omega arith)))
