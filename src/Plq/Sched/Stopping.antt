-- ===== src/Plq/Sched/Stopping.antt =====
-- The workers that a reconfiguration stops, and the multicasts of include/sched_plq.hpp.
use elastic_ppq.Common.{
  ℕ, ◌≡◌, refl, ◌∙◌, inl, inr, Bool, true, false, List, [], ◌∷◌, map, some, arith, ℕ_discrete,
  get_or, set, get_or-set_other, get_or-set_off, ◌==◌, ◌||◌, ◌≢◌, subst, keep, Bool-cases, All,
}
use elastic_ppq.Message.{Tuple}
use elastic_ppq.Plq.Sched.{Sched, has, switch_off, multicast}
use elastic_ppq.Plq.Sched.Informed.{notice}

-- The workers of the list are activated, and no two are the same.
abbrev pub CanStop : List ℕ → List Bool → Type 0
CanStop [] active = Unit
CanStop (w ∷ ws) active = (get_or active w false ≡ true) × (has w ws ≡ false) × CanStop ws active

unfoldable pub off : List ℕ → List Bool → List Bool
off [] active = active
off (w ∷ ws) active = off ws (set active w false)

pub off_other :
    (ws : List ℕ) (active : List Bool) (x : ℕ)
    → has x ws ≡ false
    → get_or (off ws active) x false ≡ get_or active x false
unfolding off has
off_other [] active x h = refl
off_other (w ∷ ws) active x h =
    off_other ws (set active w false) x (ground (arith, h))
    ∙ get_or-set_other active w x false false (ground (arith, h))

off-stays :
    (ws : List ℕ) (active : List Bool) (x : ℕ)
    → get_or active x false ≡ false
    → get_or (off ws active) x false ≡ false
unfolding off
off-stays [] active x e = e
off-stays (w ∷ ws) active x e = off-stays ws (set active w false) x (elim (ℕ_discrete x w) [
  | yes q ↦ rw q (get_or-set_off active w)
  | no ne ↦ get_or-set_other active w x false false ne ∙ e
])

pub off_in :
    (ws : List ℕ) (active : List Bool) (x : ℕ)
    → has x ws ≡ true
    → get_or (off ws active) x false ≡ false
unfolding off has
off_in [] active x h = absurd (cc)
off_in (w ∷ ws) active x h = elim (Bool-cases (w == x)) [
  | inl e ↦
      let same : x ≡ w = ground (arith, e) in
      off-stays ws (set active w false) x (rw same (get_or-set_off active w))
  | inr e ↦ off_in ws (set active w false) x (ground (arith, h, e))
]

pub CanStop-set :
    (w : ℕ) (ws : List ℕ) (active : List Bool)
    → has w ws ≡ false
    → CanStop ws active
    → CanStop ws (set active w false)
unfolding has
CanStop-set w [] active h c = tt
CanStop-set w (v ∷ ws) active h (a, b, c) = (
  get_or-set_other active w v false false (ground (arith, h)) ∙ a,
  b,
  CanStop-set w ws active (ground (arith, h)) c,
)

pub switch_off-some :
    (ws : List ℕ) (s : Sched)
    → CanStop ws s.activated_worker
    → switch_off ws s ≡ some (record s { activated_worker = off ws s.activated_worker })
unfolding switch_off off
switch_off-some [] s c = refl
switch_off-some (w ∷ ws) s (a, b, c) = rw a (
    switch_off-some ws (record s { activated_worker = set s.activated_worker w false })
      (CanStop-set w ws s.activated_worker b c))

pub has-All : (P : ℕ → Type 0) (ws : List ℕ) → ((w : ℕ) → has w ws ≡ true → P w) → All P ws
unfolding has
has-All P [] f = tt
has-All P (w ∷ ws) f = (f w (ground arith), has-All P ws (λ v h. f v (ground (arith, h))))

pub nobody : (x : ℕ) → has x [] ≢ true
unfolding has
nobody x h = cc

-- The activated ones of some workers.
pub has-keep :
    (active : List Bool) (ws : List ℕ) (x : ℕ)
    → has x (keep (λ w. get_or active w false) ws) ≡ true
    → (has x ws ≡ true) × (get_or active x false ≡ true)
unfolding has
has-keep active [] x h = absurd (cc)
has-keep active (w ∷ ws) x h = elim (Bool-cases (get_or active w false)) [
  | inr e ↦ let (a, b) = has-keep active ws x (rw (e, keep) at h) in (ground (arith, a), b)
  | inl e ↦
      let h' : ((w == x) || has x (keep (λ v. get_or active v false) ws)) ≡ true =
        rw (e, keep) at h in
      elim (Bool-cases (w == x)) [
        | inl q ↦ (rw q refl, subst (λ z. get_or active z false ≡ true) (ground (arith, q)) e)
        | inr q ↦
            let (a, b) = has-keep active ws x (ground (arith, q, h')) in (ground (arith, a), b)
      ]
]

pub keep-has :
    (active : List Bool) (ws : List ℕ) (x : ℕ)
    → has x ws ≡ true
    → get_or active x false ≡ true
    → has x (keep (λ w. get_or active w false) ws) ≡ true
unfolding has
keep-has active [] x h a = h
keep-has active (w ∷ ws) x h a = elim (Bool-cases (w == x)) [
  | inl q ↦
      let e : get_or active w false ≡ true =
        subst (λ z. get_or active z false ≡ true) (ground (arith, q)) a in
      rw (e, keep) (ground (arith, q))
  | inr q ↦
      let r = keep-has active ws x (ground (arith, h, q)) a in
      elim (Bool-cases (get_or active w false)) [
        | inl e ↦ rw (e, keep) (ground (arith, r))
        | inr e ↦ rw (e, keep) r
      ]
]

module _ {W : Type 0} where
  pub silent :
      (u : Tuple W) (ws : List ℕ)
      → notice u.kind ≡ false
      → All (λ (m : ℕ × Tuple W). notice m.1.kind ≡ false) (map (λ x. (x, u)) ws)
  silent u [] e = tt
  silent u (w ∷ ws) e = (e, silent u ws e)

  pub multicast-true :
      (t : Tuple W) (ws : List ℕ) (s : Sched)
      → All (λ w. get_or s.activated_worker w false ≡ true) ws
      → multicast true t ws s ≡ some (map (λ x. (x, t)) ws)
  unfolding multicast
  multicast-true t [] s a = refl
  multicast-true t (w ∷ ws) s (e, a) = rw e (rw (multicast-true t ws s a) refl)

  pub multicast-false :
      (t : Tuple W) (ws : List ℕ) (s : Sched)
      → All (λ w. get_or s.activated_worker w false ≡ false) ws
      → multicast false t ws s ≡ some (map (λ x. (x, t)) ws)
  unfolding multicast
  multicast-false t [] s a = refl
  multicast-false t (w ∷ ws) s (e, a) = rw e (rw (multicast-false t ws s a) refl)
