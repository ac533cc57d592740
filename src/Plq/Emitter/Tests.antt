-- ===== src/Plq/Emitter/Tests.antt =====
-- Tests of the PLQ emitter, and examples of its theorems.
use elastic_ppq.Common.{ℕ, ◌+◌, ◌≡◌, refl, List, [], ◌∷◌, map, none, arith, false, length}
use elastic_ppq.Double.{nat_double}
use elastic_ppq.Message.{Tuple, empty}
use elastic_ppq.KSlack.{fresh, max_delay, advance, check_stream_progress}
use elastic_ppq.Plq.Emitter.{
  Adaptive, Emitter, Action, start, raise_p, punctuate, forward, mechanism, process_new_tuple,
  process_all,
}
use elastic_ppq.Plq.Emitter.Timely.{IsTimely, process_all-IsTimely}
use elastic_ppq.Plq.Emitter.Counts.{handled, discards, punctuations, process_all-Counted}

-- an adaptive mechanism that makes no punctuation
instance abbrev silent : Adaptive ℕ
silent = record { check = λ m ts. (m, none); adapt = λ m dropped received now. (m, false) }

abbrev stamped : ℕ → Tuple ℕ × (ℕ → ℕ)
stamped ts = (record empty { app_ts = ts }, λ i. ts)

abbrev stream : List (Tuple ℕ × (ℕ → ℕ))
stream = stamped 5000 ∷ stamped 9000 ∷ stamped 8500 ∷ stamped 12000 ∷ stamped 3000 ∷ []

abbrev begun : Emitter ℕ
begun = start false 0

abbrev all_done : Emitter ℕ × List (Action ℕ)
all_done = process_all (λ t. t) 100 4 begun stream

-- The tuples at 8500 and 3000 are behind the punctuation at 9000, and are dropped. The punctuation that
-- the tuple at 12000 makes is at 8500, as the slack has grown, and does not lower the highest one.
all_done-counts :
    (all_done.0.dropped_total ≡ 2) × (all_done.0.last_p ≡ 9000) × (all_done.0.n_punc ≡ 3)
unfolding process_all process_new_tuple mechanism forward punctuate raise_p start fresh
    check_stream_progress advance max_delay empty
all_done-counts = (refl, refl, refl)

process_all-IsTimely_example : IsTimely 4 0 all_done.1
process_all-IsTimely_example = process_all-IsTimely (λ t. t) 100 4 false 0 stream (omega arith)

process_all-Counted_example :
    (handled all_done.1 ≡ map (λ p. p.0) stream)
    × (all_done.0.rcv_total ≡ begun.rcv_total + length stream)
    × (all_done.0.dropped_total ≡ begun.dropped_total + discards all_done.1)
    × (all_done.0.n_punc ≡ begun.n_punc + punctuations all_done.1)
process_all-Counted_example = process_all-Counted (λ t. t) 100 4 begun stream
