-- ===== src/Controller/Agree.antt =====
-- The pool of the controller, and the workers that the emitters hold for activated.
use elastic_ppq.Common.{
  ℕ, ◌+◌, ◌-◌, ◌<◌, ◌≡◌, ◌≢◌, refl, sym, ap, ◌∙◌, subst, inl, inr, Bool, true, false, List, [], ◌∷◌,
  arith, ℕ_discrete, get_or, set, length, length-set, get_or-set_other, get_or-set_self, ◌==◌,
  Bool-cases, if◌then◌else◌,
}
use elastic_ppq.Plq.Sched.{has}
use elastic_ppq.Plq.Sched.Stopping.{CanStop, off, off_other, off_in}
use elastic_ppq.Controller.{Owner, Resource, same_owner, Reconf}
use elastic_ppq.Controller.Owners.{
  owned, count_below, count_below-same, count_below-less, owner_self, AllDistinct, Passed, has_none,
  has_cons,
}

-- The workers of the list are not activated, and no two are the same.
abbrev pub CanStart : List ℕ → List Bool → Type 0
CanStart [] active = Unit
CanStart (w ∷ ws) active =
    (get_or active w false ≡ false) × (w < length active) × (has w ws ≡ false) × CanStart ws active

unfoldable pub on : List ℕ → List Bool → List Bool
on [] active = active
on (w ∷ ws) active = on ws (set active w true)

-- What an emitter has to find of its workers, and what it makes of them.
abbrev pub CanObey : Reconf → List Bool → Type 0
CanObey Reconf.no_reconf active = Unit
CanObey (Reconf.add ws) active = CanStart ws active
CanObey (Reconf.remove ws) active = CanStop ws active

unfoldable pub obey : Reconf → List Bool → List Bool
obey Reconf.no_reconf active = active
obey (Reconf.add ws) active = on ws active
obey (Reconf.remove ws) active = off ws active

-- A stage's activated workers are those whose resources it owns, and its degree is their number.
pub record Agrees (pool : List Resource) (o : Owner) (nw : ℕ) (active : List Bool) : Type 0 where
  pub size : length active ≡ length pool
  pub agreed : (k : ℕ) → get_or active k false ≡ owned pool o k
  pub degree : nw ≡ count_below (owned pool o) (length pool)

pub on_other :
    (ws : List ℕ) (active : List Bool) (x : ℕ)
    → has x ws ≡ false
    → get_or (on ws active) x false ≡ get_or active x false
unfolding on has
on_other [] active x h = refl
on_other (w ∷ ws) active x h =
    on_other ws (set active w true) x (ground (arith, h))
    ∙ get_or-set_other active w x true false (ground (arith, h))

pub length-on : (ws : List ℕ) (active : List Bool) → length (on ws active) ≡ length active
unfolding on
length-on [] active = refl
length-on (w ∷ ws) active = length-on ws (set active w true) ∙ length-set active w true

length-off : (ws : List ℕ) (active : List Bool) → length (off ws active) ≡ length active
unfolding off
length-off [] active = refl
length-off (w ∷ ws) active = length-off ws (set active w false) ∙ length-set active w false

on-stays :
    (ws : List ℕ) (active : List Bool) (x : ℕ)
    → x < length active
    → get_or active x false ≡ true
    → get_or (on ws active) x false ≡ true
unfolding on
on-stays [] active x lt h = h
on-stays (w ∷ ws) active x lt h =
    on-stays ws (set active w true) x (omega (arith, lt, length-set active w true))
      (elim (ℕ_discrete x w) [
        | yes e ↦ rw e (get_or-set_self active w true false (omega (arith, lt, e)))
        | no ne ↦ get_or-set_other active w x true false ne ∙ h
      ])

pub on_in :
    (ws : List ℕ) (active : List Bool) (x : ℕ)
    → x < length active
    → has x ws ≡ true
    → get_or (on ws active) x false ≡ true
unfolding on
on_in [] active x lt h = absurd (has_none x h)
on_in (w ∷ ws) active x lt h = elim (ℕ_discrete x w) [
  | yes e ↦
      on-stays ws (set active w true) x (omega (arith, lt, length-set active w true))
        (rw e (get_or-set_self active w true false (omega (arith, lt, e))))
  | no ne ↦
      on_in ws (set active w true) x (omega (arith, lt, length-set active w true))
        (ground (arith, h, has_cons x w ws, ne))
]

can_start :
    (ws : List ℕ) (active : List Bool)
    → AllDistinct ws
    → ((k : ℕ) → has k ws ≡ true → (get_or active k false ≡ false) × (k < length active))
    → CanStart ws active
can_start [] active d f = tt
can_start (w ∷ ws) active (a, d) f =
    let (x, y) = f w (ground (arith, has_cons w w ws)) in
    (x, y, a, can_start ws active d (λ k h. f k (ground (arith, h, has_cons k w ws))))

can_stop :
    (ws : List ℕ) (active : List Bool)
    → AllDistinct ws
    → ((k : ℕ) → has k ws ≡ true → get_or active k false ≡ true)
    → CanStop ws active
can_stop [] active d f = tt
can_stop (w ∷ ws) active (a, d) f = (
  f w (ground (arith, has_cons w w ws)),
  a,
  can_stop ws active d (λ k h. f k (ground (arith, h, has_cons k w ws))),
)

has_nil : (k : ℕ) → has k [] ≡ false
unfolding has
has_nil k = refl

apart : {b : Bool} → b ≡ false → b ≢ true
apart h g = cc

pub no_owner-other : (o : Owner) → o ≢ Owner.no_owner → same_owner Owner.no_owner o ≡ false
unfolding same_owner
no_owner-other Owner.plq ne = refl
no_owner-other Owner.wlq ne = refl
no_owner-other Owner.no_owner ne = absurd (ne refl)

-- As many numbers more pass as there are in a list of those that came to pass.
count_below-more :
    (ws : List ℕ) (f g : ℕ → Bool) (n : ℕ)
    → AllDistinct ws
    → ((k : ℕ) → has k ws ≡ true → (k < n) × (f k ≡ false) × (g k ≡ true))
    → ((k : ℕ) → has k ws ≡ false → g k ≡ f k)
    → count_below g n ≡ count_below f n + length ws
count_below-more [] f g n d a b = omega (arith, count_below-same g f n (λ k lt. b k (has_nil k)))
count_below-more (w ∷ ws) f g n (new, d) a b =
    let h : ℕ → Bool = λ k. if k == w then true else f k in
    let (lt, fw, gw) = a w (ground (arith, has_cons w w ws)) in
    let one : count_below h n ≡ count_below f n + 1 =
      count_below-less h f w n lt (ground arith) fw (λ k ne. ground (arith, ne)) in
    let rest : count_below g n ≡ count_below h n + length ws =
      count_below-more ws h g n d
        (λ k m.
          let (x, y, z) = a k (ground (arith, m, has_cons k w ws)) in
          let ne : k ≢ w = λ q. apart new (subst (λ j. has j ws ≡ true) q m) in
          (x, ground (arith, y, ne), z))
        (λ k m. elim (ℕ_discrete k w) [
          | yes q ↦ ap g q ∙ gw ∙ sym (ground (arith, q))
          | no ne ↦ b k (ground (arith, m, has_cons k w ws, ne)) ∙ ground (arith, ne)
        ]) in
    omega (arith, one, rest)

-- The other stage notices nothing.
pub Agrees-other :
    (pool : List Resource) (a b o : Owner) (r : List Resource × List ℕ) (nw : ℕ)
    (active : List Bool)
    → Passed pool a b r
    → same_owner a o ≡ false
    → same_owner b o ≡ false
    → Agrees pool o nw active
    → Agrees r.0 o nw active
Agrees-other pool a b o r nw active v na nb g =
    let same : (k : ℕ) → owned r.0 o k ≡ owned pool o k = λ k. elim (Bool-cases (has k r.1)) [
      | inl h ↦
          ap (λ z. same_owner z o) (v.after k h)
          ∙ nb
          ∙ sym (ap (λ z. same_owner z o) (v.before k h).0 ∙ na)
      | inr h ↦ ap (λ z. same_owner z o) (v.others k h)
    ] in
    record {
      size = g.size ∙ sym v.size;
      agreed = λ k. g.agreed k ∙ sym (same k);
      degree =
          g.degree
          ∙ count_below-same (owned pool o) (owned r.0 o) (length pool) (λ k lt. sym (same k))
          ∙ ap (count_below (owned r.0 o)) (sym v.size);
    }

module _ (pool : List Resource) (o : Owner) (nw : ℕ) (active : List Bool) (ne : o ≢ Owner.no_owner)
    (g : Agrees pool o nw active) (r : List Resource × List ℕ) where
  pub added :
      Passed pool Owner.no_owner o r
      → CanStart r.1 active × Agrees r.0 o (nw + length r.1) (on r.1 active)
  added v =
      let was : (k : ℕ) → has k r.1 ≡ true → owned pool o k ≡ false =
        λ k h. ap (λ z. same_owner z o) (v.before k h).0 ∙ no_owner-other o ne in
      let now : (k : ℕ) → has k r.1 ≡ true → owned r.0 o k ≡ true =
        λ k h. ap (λ z. same_owner z o) (v.after k h) ∙ owner_self o in
      (
        can_start r.1 active v.distinct
            (λ k h. (g.agreed k ∙ was k h, omega (arith, (v.before k h).1, g.size))),
        record {
          size = length-on r.1 active ∙ g.size ∙ sym v.size;
          agreed = λ k. elim (Bool-cases (has k r.1)) [
            | inl h ↦ on_in r.1 active k (omega (arith, (v.before k h).1, g.size)) h ∙ sym (now k h)
            | inr h ↦
                on_other r.1 active k h ∙ g.agreed k ∙ sym (ap (λ z. same_owner z o) (v.others k h))
          ];
          degree =
              let more =
                count_below-more r.1 (owned pool o) (owned r.0 o) (length pool) v.distinct
                  (λ k h. ((v.before k h).1, was k h, now k h))
                  (λ k h. ap (λ z. same_owner z o) (v.others k h)) in
              omega (arith, more, g.degree, ap (count_below (owned r.0 o)) v.size);
        },
      )

  pub removed :
      Passed pool o Owner.no_owner r
      → CanStop r.1 active × Agrees r.0 o (nw - length r.1) (off r.1 active)
  removed v =
      let was : (k : ℕ) → has k r.1 ≡ true → owned pool o k ≡ true =
        λ k h. ap (λ z. same_owner z o) (v.before k h).0 ∙ owner_self o in
      let now : (k : ℕ) → has k r.1 ≡ true → owned r.0 o k ≡ false =
        λ k h. ap (λ z. same_owner z o) (v.after k h) ∙ no_owner-other o ne in
      (
        can_stop r.1 active v.distinct (λ k h. g.agreed k ∙ was k h),
        record {
          size = length-off r.1 active ∙ g.size ∙ sym v.size;
          agreed = λ k. elim (Bool-cases (has k r.1)) [
            | inl h ↦ off_in r.1 active k h ∙ sym (now k h)
            | inr h ↦
                off_other r.1 active k h
                ∙ g.agreed k
                ∙ sym (ap (λ z. same_owner z o) (v.others k h))
          ];
          degree =
              let fewer =
                count_below-more r.1 (owned r.0 o) (owned pool o) (length pool) v.distinct
                  (λ k h. ((v.before k h).1, now k h, was k h))
                  (λ k h. sym (ap (λ z. same_owner z o) (v.others k h))) in
              omega (arith, fewer, g.degree, ap (count_below (owned r.0 o)) v.size);
        },
      )
