-- ===== src/Plq/Emitter/Counts.antt =====
-- The tuples that the emitter receives, and its counters.
use mathlib.Core.Path.{ap₂}
use elastic_ppq.Common.{
  ℕ, suc, ◌+◌, ◌-◌, ◌%◌, ◌^◌, ◌≡◌, refl, ap, ◌∙◌, inl, inr, Bool, true, false, List, [], ◌∷◌, ◌++◌,
  map, Option, none, some, arith, length, ltb, leb, Bool-cases,
}
use elastic_ppq.Message.{Tuple}
use elastic_ppq.KSlack.{check_stream_progress}
use elastic_ppq.Plq.Emitter.{
  Adaptive, Emitter, Action, raise_p, restart, punctuate, progress, forward, mechanism,
  process_new_tuple, process_all,
}

module _ {W : Type 0} where
  -- the tuples that some actions schedule or drop, and the numbers of punctuations and of drops
  abbrev pub handled : List (Action W) → List (Tuple W)
  handled [] = []
  handled (Action.stream_progress p q ∷ as1) = handled as1
  handled (Action.schedule t ∷ as1) = t ∷ handled as1
  handled (Action.discard t ∷ as1) = t ∷ handled as1

  abbrev pub punctuations : List (Action W) → ℕ
  punctuations [] = 0
  punctuations (Action.stream_progress p q ∷ as1) = suc (punctuations as1)
  punctuations (Action.schedule t ∷ as1) = punctuations as1
  punctuations (Action.discard t ∷ as1) = punctuations as1

  abbrev pub discards : List (Action W) → ℕ
  discards [] = 0
  discards (Action.stream_progress p q ∷ as1) = discards as1
  discards (Action.schedule t ∷ as1) = discards as1
  discards (Action.discard t ∷ as1) = suc (discards as1)

  handled-append : (xs ys : List (Action W)) → handled (xs ++ ys) ≡ handled xs ++ handled ys
  handled-append [] ys = refl
  handled-append (Action.stream_progress p q ∷ xs) ys = handled-append xs ys
  handled-append (Action.schedule t ∷ xs) ys = ap (◌∷◌ t) (handled-append xs ys)
  handled-append (Action.discard t ∷ xs) ys = ap (◌∷◌ t) (handled-append xs ys)

  punctuations-append :
      (xs ys : List (Action W)) → punctuations (xs ++ ys) ≡ punctuations xs + punctuations ys
  punctuations-append [] ys = omega arith
  punctuations-append (Action.stream_progress p q ∷ xs) ys =
      omega (arith, punctuations-append xs ys)
  punctuations-append (Action.schedule t ∷ xs) ys = punctuations-append xs ys
  punctuations-append (Action.discard t ∷ xs) ys = punctuations-append xs ys

  discards-append : (xs ys : List (Action W)) → discards (xs ++ ys) ≡ discards xs + discards ys
  discards-append [] ys = omega arith
  discards-append (Action.stream_progress p q ∷ xs) ys = discards-append xs ys
  discards-append (Action.schedule t ∷ xs) ys = discards-append xs ys
  discards-append (Action.discard t ∷ xs) ys = omega (arith, discards-append xs ys)

module _ {W M : Type 0} where
  -- A part of the emitter's work on the tuples ts: it handles just these, in order, and the totals grow
  -- by what it does.
  pub record Counted (e : Emitter M) (ts : List (Tuple W)) (r : Emitter M × List (Action W))
      : Type 0 where
    pub all_handled : handled r.1 ≡ ts
    pub punc : r.0.n_punc ≡ e.n_punc + punctuations r.1
    pub dropped : r.0.dropped_total ≡ e.dropped_total + discards r.1
    pub received : r.0.rcv_total ≡ e.rcv_total
    pub pid : r.0.pid_enabled ≡ e.pid_enabled

  Counted-then :
      (e : Emitter M) (xs ys : List (Tuple W)) (one two : Emitter M × List (Action W))
      → Counted e xs one
      → Counted one.0 ys two
      → Counted e (xs ++ ys) (two.0, one.1 ++ two.1)
  Counted-then e xs ys one two v w = record {
    all_handled = handled-append one.1 two.1 ∙ ap₂ ◌++◌ v.all_handled w.all_handled;
    punc = omega (arith, v.punc, w.punc, punctuations-append one.1 two.1);
    dropped = omega (arith, v.dropped, w.dropped, discards-append one.1 two.1);
    received = w.received ∙ v.received;
    pid = w.pid ∙ v.pid;
  }

module _ {W M : Type 0} (usecs : ℕ → ℕ) (max_time pane_length : ℕ) where
  quiet : (e : Emitter M) → Counted {W = W} e [] (e, [])
  quiet e = record {
    all_handled = refl;
    punc = omega arith;
    dropped = omega arith;
    received = refl;
    pid = refl;
  }

  raise_p-Counted :
      (e f : Emitter M) (p : ℕ) (as1 : List (Action W))
      → Counted e [] (f, as1)
      → Counted e [] (raise_p f p, as1)
  unfolding raise_p
  raise_p-Counted e f p as1 v = elim (Bool-cases (ltb f.last_p p)) [
    | inl h ↦ rw h (record {
      all_handled = v.all_handled;
      punc = v.punc;
      dropped = v.dropped;
      received = v.received;
      pid = v.pid;
    })
    | inr h ↦ rw h v
  ]

  punctuate-Counted :
      (e : Emitter M) (p : ℕ) (ticks : ℕ → ℕ)
      → Counted {W = W} e [] (punctuate usecs max_time pane_length e p ticks)
  unfolding punctuate
  punctuate-Counted e p ticks =
      elim (Bool-cases (leb max_time (usecs ((ticks 0 + 2 ^ 64 - e.last_punct_time) % 2 ^ 64)))) [
        | inl d ↦ rw d (
            raise_p-Counted e _ p _ (record {
              all_handled = refl;
              punc = omega arith;
              dropped = omega arith;
              received = refl;
              pid = refl;
            }))
        | inr d ↦ rw d (raise_p-Counted e e p [] (quiet e))
      ]

  progress-Counted :
      (e : Emitter M) (o : Option ℕ) (ticks : ℕ → ℕ)
      → Counted {W = W} e [] (progress usecs max_time pane_length e o ticks)
  progress-Counted e none ticks = quiet e
  progress-Counted e (some p) ticks = punctuate-Counted e p ticks

  forward-Counted :
      (e : Emitter M) (t : Tuple W) → Counted e (t ∷ []) (forward usecs max_time pane_length e t)
  unfolding forward
  forward-Counted e t = elim (Bool-cases (ltb t.app_ts e.last_p)) [
    | inl c ↦ rw c (record {
      all_handled = refl;
      punc = omega arith;
      dropped = omega arith;
      received = refl;
      pid = refl;
    })
    | inr c ↦ rw c (record {
      all_handled = refl;
      punc = omega arith;
      dropped = omega arith;
      received = refl;
      pid = refl;
    })
  ]

  restart-Counted :
      (over : Bool) (e f : Emitter M) (o : Option ℕ) (ticks : ℕ → ℕ)
      → Counted {W = W} e [] (f, [])
      → Counted {W = W} e [] (progress usecs max_time pane_length (restart over f) o ticks)
  unfolding restart
  restart-Counted true e f o ticks v =
      Counted-then e [] [] (_, []) _
        (record {
          all_handled = refl;
          punc = v.punc;
          dropped = v.dropped;
          received = v.received;
          pid = v.pid;
        })
        (progress-Counted (record f { dropped_sample = 0; rcv_sample = 0 }) o ticks)
  restart-Counted false e f o ticks v =
      Counted-then e [] [] (f, []) _ v (progress-Counted f o ticks)

  module _ ⦃a : Adaptive M⦄ where
    mechanism-Counted :
        (pid : Bool) (e : Emitter M) (t : Tuple W) (ticks : ℕ → ℕ)
        → Counted e [] (mechanism usecs max_time pane_length pid e t ticks)
    unfolding mechanism
    mechanism-Counted true e t ticks = restart-Counted _ e _ _ ticks (record {
      all_handled = refl;
      punc = omega arith;
      dropped = omega arith;
      received = refl;
      pid = refl;
    })
    mechanism-Counted false e t ticks =
        let checked = check_stream_progress e.kslack t.app_ts in
        let v = progress-Counted (record e { kslack = checked.0 }) checked.1 ticks in
        record {
          all_handled = v.all_handled;
          punc = v.punc;
          dropped = v.dropped;
          received = v.received;
          pid = v.pid;
        }

    -- For every sequence of tuples, from any state and with either mechanism: each tuple is scheduled or
    -- dropped, exactly once and in the order of arrival; the total of received tuples grows by their
    -- number, that of dropped ones by the drops, and that of punctuations by the calls that make one.
    pub process_all-Counted :
        (e : Emitter M) (ts : List (Tuple W × (ℕ → ℕ)))
        → (handled (process_all usecs max_time pane_length e ts).1 ≡ map (λ p. p.0) ts)
          × ((process_all usecs max_time pane_length e ts).0.rcv_total ≡ e.rcv_total + length ts)
          × ((process_all usecs max_time pane_length e ts).0.dropped_total
              ≡ e.dropped_total + discards (process_all usecs max_time pane_length e ts).1)
          × ((process_all usecs max_time pane_length e ts).0.n_punc
              ≡ e.n_punc + punctuations (process_all usecs max_time pane_length e ts).1)
    unfolding process_all process_new_tuple
    process_all-Counted e [] = (refl, omega arith, omega arith, omega arith)
    process_all-Counted e ((t, ticks) ∷ ts) =
        let counted = record e { rcv_sample = e.rcv_sample + 1; rcv_total = e.rcv_total + 1 } in
        let one = mechanism usecs max_time pane_length e.pid_enabled counted t ticks in
        let two = forward usecs max_time pane_length one.0 t in
        let v =
          Counted-then counted [] (t ∷ []) one two (mechanism-Counted e.pid_enabled counted t ticks)
            (forward-Counted one.0 t) in
        let rest = process_all usecs max_time pane_length two.0 ts in
        let (h, n, d, p) = process_all-Counted two.0 ts in
        (
          handled-append (one.1 ++ two.1) rest.1 ∙ ap₂ ◌++◌ v.all_handled h,
          omega (arith, n, v.received),
          omega (arith, d, v.dropped, discards-append (one.1 ++ two.1) rest.1),
          omega (arith, p, v.punc, punctuations-append (one.1 ++ two.1) rest.1),
        )
