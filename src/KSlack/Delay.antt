-- ===== src/KSlack/Delay.antt =====
-- The slack, and the punctuations that are derived from it.
use elastic_ppq.Common.{
  ℕ, ◌+◌, ◌-◌, ◌≤◌, ◌<◌, ◌≡◌, refl, inl, inr, ◌⊎◌, List, [], ◌∷◌, ◌++◌, none, some, All, All-append,
  All-map, arith, ltb, leb, ◌==◌, exists, true, Bool-cases, if◌then◌else◌,
}
use elastic_ppq.KSlack.{Slack, max_delay, advance, check_stream_progress}

-- No timestamp since the last punctuation is above the highest one seen, nor is the slack.
pub record IsSlack (s : Slack) : Type 0 where
  pub k_le : s.k ≤ s.tcurr
  pub ts_le : All (λ t. t ≤ s.tcurr) s.ts_vect

max_delay-ge : (tcurr max_d : ℕ) (ts : List ℕ) → max_d ≤ max_delay tcurr max_d ts
unfolding max_delay
max_delay-ge tcurr max_d [] = omega arith
max_delay-ge tcurr max_d (t ∷ ts) =
    ground (arith, max_delay-ge tcurr (if ltb max_d (tcurr - t) then tcurr - t else max_d) ts)

max_delay-All : (tcurr max_d : ℕ) (ts : List ℕ) → All (λ t. tcurr - t ≤ max_delay tcurr max_d ts) ts
unfolding max_delay
max_delay-All tcurr max_d [] = tt
max_delay-All tcurr max_d (t ∷ ts) =
    let next : ℕ = if ltb max_d (tcurr - t) then tcurr - t else max_d in
    (ground (arith, max_delay-ge tcurr next ts), max_delay-All tcurr next ts)

max_delay-le : (tcurr max_d : ℕ) (ts : List ℕ) → max_d ≤ tcurr → max_delay tcurr max_d ts ≤ tcurr
unfolding max_delay
max_delay-le tcurr max_d [] h = h
max_delay-le tcurr max_d (t ∷ ts) h =
    max_delay-le tcurr (if ltb max_d (tcurr - t) then tcurr - t else max_d) ts (ground (arith, h))

-- The maximum is the one at the start, or the delay of a timestamp.
max_delay-attained :
    (tcurr max_d : ℕ) (ts : List ℕ)
    → All (λ t. t ≤ tcurr) ts
    → (max_delay tcurr max_d ts ≡ max_d)
      ⊎ (exists (λ t. t + max_delay tcurr max_d ts == tcurr) ts ≡ true)
unfolding max_delay
max_delay-attained tcurr max_d [] _ = inl refl
max_delay-attained tcurr max_d (t ∷ ts) (le, les) =
    let next : ℕ = if ltb max_d (tcurr - t) then tcurr - t else max_d in
    elim (max_delay-attained tcurr next ts les) [
      | inr later ↦ inr (ground (arith, later))
      | inl same ↦ elim (Bool-cases (ltb max_d (tcurr - t))) [
        | inr h ↦ inl (ground (arith, same, h))
        | inl h ↦ inr (ground (arith, same, h, le))
      ]
    ]

-- the bound that a punctuation keeps below every timestamp
covers : (k tcurr : ℕ) (ts : List ℕ) → All (λ t. tcurr - t ≤ k) ts → All (λ t. tcurr - k ≤ t) ts
covers k tcurr [] _ = tt
covers k tcurr (t ∷ ts) (h, hs) = (omega (arith, h), covers k tcurr ts hs)

-- What a timestamp `ts` above all before makes of the slack s, and the punctuation p: the slack is the one
-- from before or a larger delay of a timestamp that was noted, and no such delay is larger.
pub record Progress (s next : Slack) (ts p : ℕ) : Type 0 where
  pub later : s.tcurr < ts
  pub tcurr_eq : next.tcurr ≡ ts
  pub cleared : next.ts_vect ≡ []
  pub k_grows : s.k ≤ next.k
  pub k_seen : (next.k ≡ s.k) ⊎ (exists (λ x. x + next.k == ts) (s.ts_vect ++ ts ∷ []) ≡ true)
  pub punctuation : p + next.k ≡ ts
  pub passes_none : All (λ t. p ≤ t) (s.ts_vect ++ ts ∷ [])

pub advance-Progress :
    (s : Slack) (ts : ℕ)
    → IsSlack s
    → s.tcurr < ts
    → let next = advance (record s { ts_vect = s.ts_vect ++ ts ∷ [] }) ts in
      Progress s next ts (next.tcurr - next.k)
unfolding advance
advance-Progress s ts v lt =
    let all : List ℕ = s.ts_vect ++ ts ∷ [] in
    let d : ℕ = max_delay ts 0 all in
    let k : ℕ = if ltb s.k d then d else s.k in
    let k_le : k ≤ ts = ground (arith, max_delay-le ts 0 all (omega arith), v.k_le, lt) in
    let noted : All (λ t. t ≤ ts) all =
      All-append (λ t. t ≤ ts) s.ts_vect (ts ∷ [])
        (All-map (λ t. t ≤ s.tcurr) (λ t. t ≤ ts) (λ t h. omega (arith, h, lt)) s.ts_vect v.ts_le)
        (omega arith, tt) in
    let seen : (k ≡ s.k) ⊎ (exists (λ x. x + k == ts) all ≡ true) = elim (Bool-cases (ltb s.k d)) [
      | inr h ↦ inl (ground (arith, h))
      | inl h ↦ elim (max_delay-attained ts 0 all noted) [
        | inl z ↦ absurd (ground (arith, h, z))
        | inr e ↦ inr (rw h e)
      ]
    ] in
    record {
      later = lt;
      tcurr_eq = refl;
      cleared = refl;
      k_grows = ground arith;
      k_seen = seen;
      punctuation = omega (arith, k_le);
      passes_none = covers k ts all (
          All-map (λ t. ts - t ≤ d) (λ t. ts - t ≤ k) (λ t h. ground (arith, h)) all
            (max_delay-All ts 0 all));
    }

pub note-IsSlack :
    (s : Slack) (ts : ℕ)
    → IsSlack s
    → ts ≤ s.tcurr
    → IsSlack (record s { ts_vect = s.ts_vect ++ ts ∷ [] })
note-IsSlack s ts v le = record {
  k_le = v.k_le;
  ts_le = All-append (λ t. t ≤ s.tcurr) s.ts_vect (ts ∷ []) v.ts_le (le, tt);
}

pub advance-IsSlack :
    (s : Slack) (ts : ℕ)
    → IsSlack s
    → s.tcurr < ts
    → IsSlack (advance (record s { ts_vect = s.ts_vect ++ ts ∷ [] }) ts)
advance-IsSlack s ts v lt =
    let p = advance-Progress s ts v lt in
    record { k_le = omega (arith, p.punctuation, p.tcurr_eq); ts_le = unfold advance in tt }

-- A timestamp that is not above the highest one seen makes no punctuation, and changes nothing but that
-- it is noted. A higher one makes a punctuation p that is the slack behind it, that is at most the
-- timestamp of every tuple since the last punctuation. The slack never shrinks, and it grows only to the
-- delay of a tuple since then.
pub check_stream_progress_lem :
    (s : Slack) (ts : ℕ)
    → IsSlack s
    → IsSlack (check_stream_progress s ts).0
      × (((ts ≤ s.tcurr)
            × (check_stream_progress s ts ≡ (record s { ts_vect = s.ts_vect ++ ts ∷ [] }, none)))
          ⊎ ((p : ℕ) × ((check_stream_progress s ts).1 ≡ some p)
              × Progress s (check_stream_progress s ts).0 ts p))
unfolding check_stream_progress
check_stream_progress_lem s ts v =
    let all : List ℕ = s.ts_vect ++ ts ∷ [] in
    elim (Bool-cases (leb ts s.tcurr)) [
      | inl h ↦
          let le : ts ≤ s.tcurr = ground arith in rw h (note-IsSlack s ts v le, inl (le, refl))
      | inr h ↦
          let lt : s.tcurr < ts = ground arith in
          rw h (advance-IsSlack s ts v lt, inr (_, refl, advance-Progress s ts v lt))
    ]
