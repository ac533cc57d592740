-- ===== src/Wlq/Worker/Uses.antt =====
-- The counters of the objects in the store are the numbers of their uses.
use native.Mathlib.Nat.{mod-eq_of_lt, add-mod_right}
use elastic_ppq.Common.{
  ℕ, ◌+◌, ◌-◌, ◌%◌, ◌^◌, ◌≤◌, ◌<◌, ◌≡◌, ◌≢◌, refl, sym, ap, ◌∙◌, Option, some, arith, ℕ_discrete,
  ◌==◌, if◌then◌else◌,
}
use elastic_ppq.ResultsSet.{Derived, IsDerived}
use elastic_ppq.Wlq.Worker.{Store, put, released, release}

-- One use fewer.
abbrev pub without : ℕ → (ℕ → ℕ) → ℕ → ℕ
without r uses q = if q == r then uses q - 1 else uses q

module _ {S : Type 0} ⦃b : Derived S⦄ where
  -- Every object that is still to be used is there, and its counter is the number of the uses.
  pub record IsCounted (uses : ℕ → ℕ) (st : Store S) : Type 0 where
    pub live :
        (r : ℕ) → 0 < uses r → (s : S) × (st.cell r ≡ some s) × ((b.base s).ref_counter ≡ uses r)
    pub fresh : (r : ℕ) → st.next ≤ r → uses r ≡ 0
    pub small : (r : ℕ) → uses r < 2 ^ 64

  pub put_self : (r : ℕ) (o : Option S) (st : Store S) → (put r o st).cell r ≡ o
  put_self r o st = ground arith

  pub put_other : (r q : ℕ) (o : Option S) (st : Store S) → q ≢ r → (put r o st).cell q ≡ st.cell q
  put_other r q o st ne = ground (arith, ne)

  -- An object is given up by one of its users.
  pub release-IsCounted :
      IsDerived S
      → (uses : ℕ → ℕ) (r : ℕ) (st : Store S) → IsCounted uses st
      → 0 < uses r
      → (st' : Store S) × (release r st ≡ some st')
        × IsCounted (without r uses) st'
        × ((q : ℕ) → q ≢ r → st'.cell q ≡ st.cell q)
        × (st'.next ≡ st.next)
  unfolding release released
  release-IsCounted d uses r st v pos =
      let (s, at, c) = v.live r pos in
      let st' = put r (released s) st in
      (
        st',
        rw at refl,
        record {
          live = λ q left. elim (ℕ_discrete q r) [
            | yes e ↦
                let more : 1 < uses r = ground (arith, left, e, ap uses e) in
                let k : ℕ = (b.base s).ref_counter in
                let less = (k + 2 ^ 64 - 1) % 2 ^ 64 in
                let s' = b.with_base s (record (b.base s) { ref_counter = less }) in
                let value : less ≡ k - 1 =
                  ap (λ z. z % 2 ^ 64) (omega (arith, more, c))
                  ∙ add-mod_right (k - 1) (2 ^ 64)
                  ∙ mod-eq_of_lt (omega (arith, c, v.small r)) in
                (
                  s',
                  ap st'.cell e ∙ put_self r (released s) st ∙ ground (arith, more, c),
                  ap (λ z. z.ref_counter)
                        (d.base-with_base s (record (b.base s) { ref_counter = less }))
                      ∙ value
                      ∙ ground (arith, c, e, ap uses e),
                )
            | no ne ↦
                let same : without r uses q ≡ uses q = ground (arith, ne) in
                let (s', at', c') = v.live q (omega (arith, left, same)) in
                (s', put_other r q (released s) st ne ∙ at', c' ∙ sym same)
          ];
          fresh = λ q ge. ground (arith, v.fresh q ge);
          small = λ q. ground (arith, v.small q);
        },
        λ q ne. put_other r q (released s) st ne,
        refl,
      )
