-- ===== src/Plq/Sched/Choice.antt =====
-- The choice of the least loaded worker.
use native.Mathlib.Nat.{mod-add-mod, mod-eq_of_lt, add-mod_right}
use elastic_ppq.Common.{
  ℕ, zero, suc, ◌+◌, ◌-◌, ◌%◌, ◌^◌, ◌≤◌, ◌<◌, ◌≡◌, ◌≢◌, refl, sym, ap, ◌∙◌, subst, inl, inr, Bool,
  true, false, List, none, some, arith, ℕ_discrete, get_or, ltb, Bool-cases,
}
use elastic_ppq.Plq.Sched.{Sched, Llw, llw_step, llw_scan, get_llw_w}

-- The scan has seen an activated worker, and keeps one with the shortest queue; or it has seen none.
data Best (queue : ℕ → ℕ) (ws : List Bool) (c : Llw) : Type 0 where
  unseen : c.is_found ≡ false → c.least ≡ 2 ^ 64 - 1 → Best queue ws c
  seen :
      (i : ℕ)
      → c.is_found ≡ true
      → c.llw_id ≡ some i
      → get_or ws i false ≡ true
      → c.least ≡ queue i
      → Best queue ws c

-- No activated worker among the first n from w0 on is loaded less.
abbrev IsLeast : (ℕ → ℕ) → List Bool → ℕ → ℕ → ℕ → Llw → Type 0
IsLeast queue ws num w0 n c =
    (k : ℕ)
    → k < n
    → get_or ws ((w0 + k) % num) false ≡ true
    → (c.is_found ≡ true) × (c.least ≤ queue ((w0 + k) % num))

module _ (queue : ℕ → ℕ) (ws : List Bool) (num w0 : ℕ)
    (short : (i : ℕ) → queue i < 2 ^ 64 - 1) where
  step-Best : (w : ℕ) (c : Llw) → Best queue ws c → Best queue ws (llw_step queue ws w c)
  unfolding llw_step
  step-Best w c b = elim (Bool-cases (get_or ws w false)) [
    | inr h ↦ rw h b
    | inl h ↦ rw h (elim (Bool-cases (ltb (queue w) c.least)) [
      | inl l ↦ rw l (seen w refl refl h refl)
      | inr l ↦ rw l (elim b [
        | unseen f m ↦ absurd (ground (arith, l, m, short w))
        | seen i f e a m ↦ seen i refl e a m
      ])
    ])
  ]

  -- The step takes worker w into account, and forgets none before it.
  step-least :
      (w : ℕ) (c : Llw)
      → (get_or ws w false ≡ true
          → ((llw_step queue ws w c).is_found ≡ true) × ((llw_step queue ws w c).least ≤ queue w))
        × ((llw_step queue ws w c).least ≤ c.least)
        × (c.is_found ≡ true → (llw_step queue ws w c).is_found ≡ true)
  unfolding llw_step
  step-least w c = (λ h. ground (arith, h), ground arith, λ h. ground (arith, h))

  scan_lem :
      (n m w : ℕ) (c : Llw)
      → w ≡ (w0 + m) % num
      → Best queue ws c
      → IsLeast queue ws num w0 m c
      → Best queue ws (llw_scan num queue ws n w c)
        × IsLeast queue ws num w0 (m + n) (llw_scan num queue ws n w c)
  unfolding llw_scan
  scan_lem zero m w c e b l = (b, λ k lt. l k (omega (arith, lt)))
  scan_lem (suc n) m w c e b l =
      let c' = llw_step queue ws w c in
      let (here, less, stays) = step-least w c in
      let l' : IsLeast queue ws num w0 (m + 1) c' = λ k lt h. elim (ℕ_discrete k m) [
        | yes q ↦
            let at : (w0 + k) % num ≡ w = ap (λ j. (w0 + j) % num) q ∙ sym e in
            let (f, le) = here (subst (λ j. get_or ws j false ≡ true) at h) in
            (f, subst (λ j. c'.least ≤ queue j) (sym at) le)
        | no ne ↦ let (f, le) = l k (omega (arith, lt, ne)) h in (stays f, omega (arith, le, less))
      ] in
      let next : (w + 1) % num ≡ (w0 + (m + 1)) % num =
        ap (λ j. (j + 1) % num) e ∙ mod-add-mod (w0 + m) num 1 ∙ ap (λ j. j % num) (omega arith) in
      let (b', z) = scan_lem n (m + 1) ((w + 1) % num) c' next (step-Best w c b) l' in
      (b', λ k lt. z k (omega (arith, lt)))

false-ne-true : false ≢ true
false-ne-true h = cc

-- Every worker is some steps ahead in the round.
ahead : (num w0 j : ℕ) → w0 < num → j < num → (k : ℕ) × (k < num) × ((w0 + k) % num ≡ j)
ahead num w0 j h lt = elim (Bool-cases (ltb j w0)) [
  | inr ge ↦
      let e : w0 + (j - w0) ≡ j = ground (arith, ge) in
      (j - w0, ground (arith, ge, lt), ap (λ x. x % num) e ∙ mod-eq_of_lt lt)
  | inl less ↦
      let e : w0 + (j + num - w0) ≡ j + num = ground (arith, less, h) in
      (
        j + num - w0,
        ground (arith, less, h),
        ap (λ x. x % num) e ∙ add-mod_right j num ∙ mod-eq_of_lt lt,
      )
]

-- With an activated worker and queues of a length below the largest `size_t`, the choice does not abort:
-- it is an activated worker, no activated worker has a shorter queue, and the next search starts
-- behind it.
pub get_llw_w_lem :
    (num w : ℕ) (queue : ℕ → ℕ) (s : Sched)
    → w < num
    → get_or s.activated_worker w false ≡ true
    → s.last_w < num
    → ((i : ℕ) → queue i < 2 ^ 64 - 1)
    → (i : ℕ) × (get_llw_w num queue s ≡ some (record s { last_w = (i + 1) % num }, i))
      × (get_or s.activated_worker i false ≡ true)
      × ((j : ℕ) → j < num → get_or s.activated_worker j false ≡ true → queue i ≤ queue j)
unfolding get_llw_w
get_llw_w_lem num w queue s lt act turn short =
    let ws = s.activated_worker in
    let start : Llw = record { is_found = false; least = 2 ^ 64 - 1; llw_id = none } in
    let (b, l) =
      scan_lem queue ws num s.last_w short num 0 s.last_w start
        (sym (mod-eq_of_lt turn) ∙ ap (λ x. x % num) (omega arith)) (unseen refl refl)
        (λ k le h. absurd (omega (arith, le))) in
    let all : (j : ℕ)
        → j < num
        → get_or ws j false ≡ true
        → ((llw_scan num queue ws num s.last_w start).is_found ≡ true)
          × ((llw_scan num queue ws num s.last_w start).least ≤ queue j) =
      λ j le h.
        let (k, kl, e) = ahead num s.last_w j turn le in
        subst
          (λ x.
            ((llw_scan num queue ws num s.last_w start).is_found ≡ true)
            × ((llw_scan num queue ws num s.last_w start).least ≤ queue x))
          e (l k (omega (arith, kl)) (subst (λ x. get_or ws x false ≡ true) (sym e) h)) in
    elim b [
      | unseen f m ↦ absurd (false-ne-true (sym f ∙ (all w lt act).0))
      | seen i f e a m ↦ (i, rw f (rw e refl), a, λ j le h. omega (arith, m, (all j le h).1))
    ]
