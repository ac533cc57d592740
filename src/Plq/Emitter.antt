-- ===== src/Plq/Emitter.antt =====
-- `class PLQ_Emitter` of include/plq.hpp: how a received tuple makes punctuations, and is scheduled or
-- dropped. The scheduler is what receives the calls, so a call is an action of the emitter. The
-- adaptive mechanism `KSlackPID_Punc`, whose controller works on real numbers, is an interface;
-- `usecs` is the macro FROM_TICKS_TO_USECS and `max_time` is MAX_TIME_BETWEEN_PUNC_USEC.
pub mod Timely
pub mod Counts
mod Tests
use elastic_ppq.Common.{
  ℕ, ◌+◌, ◌-◌, ◌*◌, ◌/◌, ◌%◌, ◌^◌, Bool, true, false, List, [], ◌∷◌, ◌++◌, Option, none, some, ltb,
  leb, if◌then◌else◌,
}
use elastic_ppq.Message.{Tuple}
use elastic_ppq.KSlack.{Slack, fresh, check_stream_progress}

-- `checkStreamProgress` and `adapt` of the adaptive mechanism; `adapt` is given the numbers of dropped
-- and of received tuples and the time.
pub record Adaptive (M : Type 0) : Type 0 where
  pub check : M → ℕ → M × Option ℕ
  pub adapt : M → ℕ → ℕ → ℕ → M × Bool

pub record Emitter (M : Type 0) : Type 0 where
  pub pid_enabled : Bool
  pub kslack : Slack
  pub kslackpid : M
  pub rcv_sample : ℕ
  pub dropped_sample : ℕ
  pub dropped_total : ℕ
  pub rcv_total : ℕ
  pub last_p : ℕ
  pub n_punc : ℕ
  pub last_punct_time : ℕ

-- The calls `executeStreamProgress` and `sched_to_worker`, and `delete` of a late tuple.
pub data Action (W : Type 0) : Type 0 where
  stream_progress : ℕ → ℕ → Action W
  schedule : Tuple W → Action W
  discard : Tuple W → Action W

unfoldable pub start : {M : Type 0} → Bool → M → Emitter M
start pid_enabled m = record {
  pid_enabled = pid_enabled;
  kslack = fresh;
  kslackpid = m;
  rcv_sample = 0;
  dropped_sample = 0;
  dropped_total = 0;
  rcv_total = 0;
  last_p = 0;
  n_punc = 0;
  last_punct_time = 0;
}

module _ {M : Type 0} where
  -- `if(new_punctuation > last_P) last_P = new_punctuation`
  unfoldable pub raise_p : Emitter M → ℕ → Emitter M
  raise_p e p = if ltb e.last_p p then record e { last_p = p } else e

  -- the counters after `adapt`, where it returns whether a sampling interval is over
  unfoldable pub restart : Bool → Emitter M → Emitter M
  restart true e = record e { dropped_sample = 0; rcv_sample = 0 }
  restart false e = e

module _ {W M : Type 0} (usecs : ℕ → ℕ) (max_time pane_length : ℕ) where
  -- what a new punctuation does: `ticks 0` and `ticks 1` are the two readings of the clock
  unfoldable pub punctuate : Emitter M → ℕ → (ℕ → ℕ) → Emitter M × List (Action W)
  punctuate e p ticks =
      if leb max_time (usecs ((ticks 0 + 2 ^ 64 - e.last_punct_time) % 2 ^ 64))
      then (
        raise_p (record e { last_punct_time = ticks 1; n_punc = e.n_punc + 1 }) p,
        Action.stream_progress p (p / (pane_length * 1000)) ∷ [],
      )
      else (raise_p e p, [])

  -- the test on the result of `checkStreamProgress`
  abbrev pub progress : Emitter M → Option ℕ → (ℕ → ℕ) → Emitter M × List (Action W)
  progress e none ticks = (e, [])
  progress e (some p) ticks = punctuate e p ticks

  -- the end of the method: a tuple behind the highest punctuation is dropped
  unfoldable pub forward : Emitter M → Tuple W → Emitter M × List (Action W)
  forward e t =
      if ltb t.app_ts e.last_p
      then (
        record e { dropped_sample = e.dropped_sample + 1; dropped_total = e.dropped_total + 1 },
        Action.discard t ∷ [],
      )
      else (e, Action.schedule t ∷ [])

  module _ ⦃a : Adaptive M⦄ where
    -- the punctuation mechanism, adaptive or standard by `pidEnabled`; `ticks 2` is the time of `adapt`
    unfoldable pub mechanism : Bool → Emitter M → Tuple W → (ℕ → ℕ) → Emitter M × List (Action W)
    mechanism true e t ticks =
        let adapted = a.adapt e.kslackpid e.dropped_sample e.rcv_sample (ticks 2) in
        let checked = a.check adapted.0 t.app_ts in
        progress (restart adapted.1 (record e { kslackpid = checked.0 })) checked.1 ticks
    mechanism false e t ticks =
        let checked = check_stream_progress e.kslack t.app_ts in
        progress (record e { kslack = checked.0 }) checked.1 ticks

    unfoldable pub process_new_tuple : Emitter M → Tuple W → (ℕ → ℕ) → Emitter M × List (Action W)
    process_new_tuple e t ticks =
        let counted = record e { rcv_sample = e.rcv_sample + 1; rcv_total = e.rcv_total + 1 } in
        let punctuated = mechanism e.pid_enabled counted t ticks in
        let done = forward punctuated.0 t in (done.0, punctuated.1 ++ done.1)

    -- tuples one after another, with what the emitter does
    unfoldable pub process_all : Emitter M → List (Tuple W × (ℕ → ℕ)) → Emitter M × List (Action W)
    process_all e [] = (e, [])
    process_all e ((t, ticks) ∷ ts) =
        let one = process_new_tuple e t ticks in
        let rest = process_all one.0 ts in (rest.0, one.1 ++ rest.1)
