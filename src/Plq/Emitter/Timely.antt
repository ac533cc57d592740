-- ===== src/Plq/Emitter/Timely.antt =====
-- What the emitter schedules, and the panes that its punctuations have named.
use native.Mathlib.Nat.{le-div_iff_mul-le, div-mul-le_self}
use elastic_ppq.Common.{
  ℕ, ◌+◌, ◌-◌, ◌*◌, ◌/◌, ◌%◌, ◌^◌, ◌≤◌, ◌<◌, ◌≡◌, refl, sym, subst, inl, inr, Bool, true, false,
  List, [], ◌∷◌, ◌++◌, Option, none, some, arith, ltb, leb, Bool-cases, if◌then◌else◌,
}
use elastic_ppq.Message.{Tuple}
use elastic_ppq.KSlack.{check_stream_progress}
use elastic_ppq.Panes.{pane_of}
use elastic_ppq.Plq.Emitter.{
  Adaptive, Emitter, Action, start, raise_p, restart, punctuate, progress, forward, mechanism,
  process_new_tuple, process_all,
}

abbrev pub raise : ℕ → ℕ → ℕ
raise b p = if ltb b p then p else b

module _ {W : Type 0} (pane_length : ℕ) where
  -- b is the highest pane that a punctuation has named so far: a punctuation names the pane of its
  -- timestamp, and a tuple that is scheduled is of no pane below b.
  abbrev pub IsTimely : ℕ → List (Action W) → Type 0
  IsTimely b [] = Unit
  IsTimely b (Action.stream_progress p q ∷ as1) =
      (q ≡ pane_of pane_length p) × IsTimely (raise b q) as1
  IsTimely b (Action.schedule t ∷ as1) = (b ≤ pane_of pane_length t.app_ts) × IsTimely b as1
  IsTimely b (Action.discard t ∷ as1) = IsTimely b as1

  abbrev pub highest : ℕ → List (Action W) → ℕ
  highest b [] = b
  highest b (Action.stream_progress p q ∷ as1) = highest (raise b q) as1
  highest b (Action.schedule t ∷ as1) = highest b as1
  highest b (Action.discard t ∷ as1) = highest b as1

  IsTimely-append :
      (b : ℕ) (xs ys : List (Action W))
      → IsTimely b xs
      → IsTimely (highest b xs) ys
      → IsTimely b (xs ++ ys)
  IsTimely-append b [] ys _ k = k
  IsTimely-append b (Action.stream_progress p q ∷ xs) ys (e, h) k =
      (e, IsTimely-append (raise b q) xs ys h k)
  IsTimely-append b (Action.schedule t ∷ xs) ys (e, h) k = (e, IsTimely-append b xs ys h k)
  IsTimely-append b (Action.discard t ∷ xs) ys h k = IsTimely-append b xs ys h k

  highest-append :
      (b : ℕ) (xs ys : List (Action W)) → highest b (xs ++ ys) ≡ highest (highest b xs) ys
  highest-append b [] ys = refl
  highest-append b (Action.stream_progress p q ∷ xs) ys = highest-append (raise b q) xs ys
  highest-append b (Action.schedule t ∷ xs) ys = highest-append b xs ys
  highest-append b (Action.discard t ∷ xs) ys = highest-append b xs ys

module _ {W M : Type 0} (pane_length : ℕ) where
  -- A part of the emitter's work, begun when the punctuations had named panes up to b: it keeps to the
  -- panes, and the highest punctuation stays ahead of what was named.
  record Kept (b : ℕ) (r : Emitter M × List (Action W)) : Type 0 where
    timely : IsTimely pane_length b r.1
    ahead : highest pane_length b r.1 * (pane_length * 1000) ≤ r.0.last_p

  Kept-then :
      (b : ℕ) (one two : Emitter M × List (Action W))
      → Kept b one
      → Kept (highest pane_length b one.1) two
      → Kept b (two.0, one.1 ++ two.1)
  Kept-then b one two v w = record {
    timely = IsTimely-append pane_length b one.1 two.1 v.timely w.timely;
    ahead =
        subst (λ n. n * (pane_length * 1000) ≤ two.0.last_p)
          (sym (highest-append pane_length b one.1 two.1)) w.ahead;
  }

module _ {M : Type 0} where
  raise_p-last_p :
      (e : Emitter M) (p : ℕ) → (e.last_p ≤ (raise_p e p).last_p) × (p ≤ (raise_p e p).last_p)
  unfolding raise_p
  raise_p-last_p e p = ground arith

  restart-last_p : (over : Bool) (e : Emitter M) → (restart over e).last_p ≡ e.last_p
  unfolding restart
  restart-last_p true e = refl
  restart-last_p false e = refl

raise-ahead : (b q k z : ℕ) → b * k ≤ z → q * k ≤ z → raise b q * k ≤ z
raise-ahead b q k z h g = elim (Bool-cases (ltb b q)) [ inl c ↦ rw c g | inr c ↦ rw c h ]

module _ {W M : Type 0} (usecs : ℕ → ℕ) (max_time pane_length : ℕ) where
  punctuate-Kept :
      (e : Emitter M) (p b : ℕ) (ticks : ℕ → ℕ)
      → b * (pane_length * 1000) ≤ e.last_p
      → Kept {W = W} pane_length b (punctuate usecs max_time pane_length e p ticks)
  unfolding punctuate pane_of
  punctuate-Kept e p b ticks h =
      let k : ℕ = pane_length * 1000 in
      let low : p / k * k ≤ p = div-mul-le_self p k in
      let noted : Emitter M = record e { last_punct_time = ticks 1; n_punc = e.n_punc + 1 } in
      let up = raise_p-last_p noted p in
      let same = raise_p-last_p e p in
      elim (Bool-cases (leb max_time (usecs ((ticks 0 + 2 ^ 64 - e.last_punct_time) % 2 ^ 64)))) [
        | inl d ↦ rw d (record {
          timely = (refl, tt);
          ahead =
              raise-ahead b (p / k) k (raise_p noted p).last_p (omega (arith, h, up.0))
                (omega (arith, low, up.1));
        })
        | inr d ↦ rw d (record { timely = tt; ahead = omega (arith, h, same.0) })
      ]

  progress-Kept :
      (e : Emitter M) (o : Option ℕ) (b : ℕ) (ticks : ℕ → ℕ)
      → b * (pane_length * 1000) ≤ e.last_p
      → Kept {W = W} pane_length b (progress usecs max_time pane_length e o ticks)
  progress-Kept e none b ticks h = record { timely = tt; ahead = h }
  progress-Kept e (some p) b ticks h = punctuate-Kept e p b ticks h

  forward-Kept :
      (e : Emitter M) (t : Tuple W) (b : ℕ)
      → 0 < pane_length
      → b * (pane_length * 1000) ≤ e.last_p
      → Kept pane_length b (forward usecs max_time pane_length e t)
  unfolding forward pane_of
  forward-Kept e t b pos h = elim (Bool-cases (ltb t.app_ts e.last_p)) [
    | inl c ↦ rw c (record { timely = tt; ahead = h })
    | inr c ↦
        let in_time : b * (pane_length * 1000) ≤ t.app_ts = ground (arith, h) in
        rw c
          (record { timely = ((le-div_iff_mul-le (omega (arith, pos))).1 in_time, tt); ahead = h })
  ]

  module _ ⦃a : Adaptive M⦄ where
    mechanism-Kept :
        (pid : Bool) (e : Emitter M) (t : Tuple W) (b : ℕ) (ticks : ℕ → ℕ)
        → b * (pane_length * 1000) ≤ e.last_p
        → Kept pane_length b (mechanism usecs max_time pane_length pid e t ticks)
    unfolding mechanism
    mechanism-Kept true e t b ticks h =
        let adapted = a.adapt e.kslackpid e.dropped_sample e.rcv_sample (ticks 2) in
        let checked = a.check adapted.0 t.app_ts in
        let e1 : Emitter M = record e { kslackpid = checked.0 } in
        progress-Kept (restart adapted.1 e1) checked.1 b ticks
          (subst (λ n. b * (pane_length * 1000) ≤ n) (sym (restart-last_p adapted.1 e1)) h)
    mechanism-Kept false e t b ticks h =
        let checked = check_stream_progress e.kslack t.app_ts in
        progress-Kept (record e { kslack = checked.0 }) checked.1 b ticks h

    process_new_tuple-Kept :
        (e : Emitter M) (t : Tuple W) (b : ℕ) (ticks : ℕ → ℕ)
        → 0 < pane_length
        → b * (pane_length * 1000) ≤ e.last_p
        → Kept pane_length b (process_new_tuple usecs max_time pane_length e t ticks)
    unfolding process_new_tuple
    process_new_tuple-Kept e t b ticks pos h =
        let counted = record e { rcv_sample = e.rcv_sample + 1; rcv_total = e.rcv_total + 1 } in
        let one = mechanism usecs max_time pane_length e.pid_enabled counted t ticks in
        let v = mechanism-Kept e.pid_enabled counted t b ticks h in
        Kept-then pane_length b one (forward usecs max_time pane_length one.0 t) v
          (forward-Kept one.0 t (highest pane_length b one.1) pos v.ahead)

    process_all-Kept :
        (e : Emitter M) (ts : List (Tuple W × (ℕ → ℕ))) (b : ℕ)
        → 0 < pane_length
        → b * (pane_length * 1000) ≤ e.last_p
        → Kept pane_length b (process_all usecs max_time pane_length e ts)
    unfolding process_all
    process_all-Kept e [] b pos h = record { timely = tt; ahead = h }
    process_all-Kept e ((t, ticks) ∷ ts) b pos h =
        let one = process_new_tuple usecs max_time pane_length e t ticks in
        let v = process_new_tuple-Kept e t b ticks pos h in
        Kept-then pane_length b one (process_all usecs max_time pane_length one.0 ts) v
          (process_all-Kept one.0 ts (highest pane_length b one.1) pos v.ahead)

    -- Whatever tuples come in, in whatever order and with either mechanism, from the start on: a
    -- punctuation names the pane of its timestamp, and no tuple is scheduled that belongs to a pane
    -- below one that an earlier punctuation has named.
    pub process_all-IsTimely :
        (pid_enabled : Bool) (m : M) (ts : List (Tuple W × (ℕ → ℕ)))
        → 0 < pane_length
        → IsTimely pane_length 0 (process_all usecs max_time pane_length (start pid_enabled m) ts).1
    process_all-IsTimely pid_enabled m ts pos =
        (process_all-Kept (start pid_enabled m) ts 0 pos (omega arith)).timely
