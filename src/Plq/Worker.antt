-- ===== src/Plq/Worker.antt =====
-- `class PLQ_Worker` of include/plq.hpp.
-- Each reading of the clock is an argument: `ticks i` is the i-th call of `getticks()` while a message
-- is handled. `std::lower_bound` splits the deque in front of the first results set whose identifier
-- is not below the one searched for. `none` for a whole step is `abort()`.
pub mod Deque
pub mod Shares
pub mod Served
pub mod Closing
pub mod Once
mod Tests
use elastic_ppq.Common.{
  ℕ, zero, suc, ◌+◌, ◌-◌, ◌%◌, ◌^◌, Bool, List, [], ◌∷◌, ◌++◌, Option, none, some, ltb, and_then,
  ◌==◌, if◌then◌else◌,
}
use elastic_ppq.Message.{Tuple, Kind}
use elastic_ppq.Rset.{Rset}
use elastic_ppq.ResultsSet.{Derived, ResultsSet}
use elastic_ppq.Panes.{count_windows}

-- the fields `wp`, `sp` and `paneSet`
pub record Worker (S : Type 0) : Type 0 where
  pub wp : ℕ
  pub sp : ℕ
  pub pane_set : List S

-- What `svc` leaves: the worker, the results sets sent to the next stage, and the message, `none` when
-- it was deleted.
pub record Step (W S : Type 0) : Type 0 where
  pub worker : Worker S
  pub sent : List S
  pub message : Option (Tuple W)

-- `refCounter.fetch_sub(1)`, and `delete` by the last receiver
unfoldable pub release : {W : Type 0} → Tuple W → Option (Tuple W)
release t =
    if t.ref_counter == 1
    then none
    else some (record t { ref_counter = (t.ref_counter + 2 ^ 64 - 1) % 2 ^ 64 })

module _ {S : Type 0} ⦃b : Derived S⦄ where
  abbrev pub id_of : S → ℕ
  id_of s = (b.base s).id

  -- `std::lower_bound` by identifier: what lies before the place found, and what lies from it on
  unfoldable pub lower_bound : ℕ → List S → List S × List S
  lower_bound p [] = ([], [])
  lower_bound p (s ∷ ss) =
      let rest = lower_bound p ss in if ltb (id_of s) p then (s ∷ rest.0, rest.1) else ([], s ∷ ss)

  abbrev pub set_no_instances : ℕ → S → S
  set_no_instances n s = b.with_base s (record (b.base s) { no_instances = n })

  abbrev pub set_closing_time : ℕ → S → S
  set_closing_time now s = b.with_base s (record (b.base s) { closing_time = now })

  abbrev pub set_times : ℕ → ℕ → S → S
  set_times start finish s =
      b.with_base s (record (b.base s) { starting_time = start; ending_time = finish })

  -- the loop that sends results sets, each with a closing time; `i` readings were taken before
  unfoldable pub close_all : (ℕ → ℕ) → ℕ → List S → List S
  close_all ticks i [] = []
  close_all ticks i (s ∷ ss) = set_closing_time (ticks i) s ∷ close_all ticks (i + 1) ss

  -- the same with the number of instances set back to unspecified
  unfoldable pub flush_all : (ℕ → ℕ) → ℕ → List S → List S
  flush_all ticks i [] = []
  flush_all ticks i (s ∷ ss) =
      set_closing_time (ticks i) (set_no_instances 0 s) ∷ flush_all ticks (i + 1) ss

module _ {W S : Type 0} ⦃b : Derived S⦄ ⦃r : ResultsSet W S⦄ where
  unfoldable pub new_pane : Worker S → Tuple W → S
  new_pane w t = r.create (count_windows w.wp w.sp t.pane_id) t.pane_id t.no_instances

  unfoldable pub handle_punct : Worker S → Tuple W → (ℕ → ℕ) → Step W S
  handle_punct w t ticks =
      let parts = lower_bound t.pane_id w.pane_set in
      record {
        worker = record w { pane_set = parts.1 };
        sent = close_all ticks 0 parts.0;
        message = release t;
      }

  unfoldable pub handle_end : Worker S → Tuple W → (ℕ → ℕ) → Step W S
  handle_end w t ticks = record {
    worker = record w { pane_set = [] };
    sent = close_all ticks 0 w.pane_set;
    message = release t;
  }

  -- the test on the place that the search found, with what lies before it and from it on
  unfoldable pub renew : Worker S → Tuple W → List S → List S → Option (Step W S)
  renew w t before [] = none
  renew w t before (s ∷ rest) =
      if id_of s == t.pane_id
      then some (record {
        worker = record w { pane_set = before ++ set_no_instances t.no_instances s ∷ rest };
        sent = [];
        message = release t;
      })
      else none

  unfoldable pub handle_new_inst : Worker S → Tuple W → Option (Step W S)
  handle_new_inst w t = let parts = lower_bound t.pane_id w.pane_set in renew w t parts.0 parts.1

  unfoldable pub handle_flush : Worker S → Tuple W → (ℕ → ℕ) → Step W S
  handle_flush w t ticks = record {
    worker = record w { pane_set = [] };
    sent = flush_all ticks 0 w.pane_set;
    message = release t;
  }

  -- This handler keeps the message.
  unfoldable pub handle_lull : Worker S → Tuple W → (ℕ → ℕ) → Step W S
  handle_lull w t ticks = record {
    worker = w;
    sent = set_closing_time (ticks 2) (set_times (ticks 0) (ticks 1) (new_pane w t)) ∷ [];
    message = some t;
  }

  -- the results set of the pane, found or new, and what stands behind it
  unfoldable pub find_or_create : Worker S → Tuple W → List S → S × List S
  find_or_create w t [] = (new_pane w t, [])
  find_or_create w t (s ∷ rest) =
      if id_of s == t.pane_id then (s, rest) else (new_pane w t, s ∷ rest)

  -- `addComputeTuple` for a regular tuple, and only the times for an empty pane
  unfoldable pub enter : Kind → Tuple W → (ℕ → ℕ) → S → S
  enter Kind.regular t ticks s = r.add_compute_tuple s t (ticks 0)
  enter _ t ticks s = set_times (ticks 0) (ticks 1) s

  unfoldable pub handle_tuple : Worker S → Tuple W → (ℕ → ℕ) → Step W S
  handle_tuple w t ticks =
      let parts = lower_bound t.pane_id w.pane_set in
      let found = find_or_create w t parts.1 in
      record {
        worker = record w { pane_set = parts.0 ++ enter t.kind t ticks found.0 ∷ found.1 };
        sent = [];
        message = none;
      }

  -- the tests of the message type, one after another
  unfoldable pub dispatch : Kind → Worker S → Tuple W → (ℕ → ℕ) → Option (Step W S)
  dispatch Kind.punct w t ticks = some (handle_punct w t ticks)
  dispatch Kind.ends w t ticks = some (handle_end w t ticks)
  dispatch Kind.new_inst w t ticks = handle_new_inst w t
  dispatch Kind.flush w t ticks = some (handle_flush w t ticks)
  dispatch Kind.lull w t ticks = some (handle_lull w t ticks)
  dispatch _ w t ticks = some (handle_tuple w t ticks)

  unfoldable pub svc : Worker S → Tuple W → (ℕ → ℕ) → Option (Step W S)
  svc w t ticks = dispatch t.kind w t ticks

  -- Messages one after another: the worker at the end and all that was sent.
  unfoldable pub run : Worker S → List S → List (Tuple W × (ℕ → ℕ)) → Option (Worker S × List S)
  run w out [] = some (w, out)
  run w out ((t, ticks) ∷ ms) = and_then (svc w t ticks) (λ st. run st.worker (out ++ st.sent) ms)
