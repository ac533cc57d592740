-- ===== src/Plq/WorkerIop.antt =====
-- `class PLQ_Worker_IOP` of include/plq.hpp, the worker for tuples that come in order. What it shares
-- with `PLQ_Worker` is taken from there. A PUNCT message, which no emitter sends to it, falls in the
-- last branch.
pub mod InOrder
mod Tests
use elastic_ppq.Common.{ℕ, ◌+◌, List, [], ◌∷◌, ◌++◌, Option, none, some, ltb, leb, if◌then◌else◌}
use elastic_ppq.Message.{Tuple, Kind}
use elastic_ppq.ResultsSet.{Derived, ResultsSet}
use elastic_ppq.Plq.Worker.{
  Worker, Step, release, id_of, lower_bound, set_no_instances, set_closing_time, new_pane,
  handle_new_inst, handle_lull, enter,
}

module _ {S : Type 0} ⦃b : Derived S⦄ where
  -- the loop of a FLUSH message: only the panes from p on have an unspecified number of instances
  unfoldable pub flush_from : ℕ → List S → List S
  flush_from p [] = []
  flush_from p (s ∷ ss) = (if leb p (id_of s) then set_no_instances 0 s else s) ∷ flush_from p ss

module _ {W S : Type 0} ⦃b : Derived S⦄ ⦃r : ResultsSet W S⦄ where
  unfoldable pub handle_end : Worker S → Tuple W → Step W S
  handle_end w t = record {
    worker = record w { pane_set = [] };
    sent = w.pane_set;
    message = release t;
  }

  unfoldable pub handle_flush : Worker S → Tuple W → Step W S
  handle_flush w t = record {
    worker = record w { pane_set = [] };
    sent = flush_from t.pane_id w.pane_set;
    message = release t;
  }

  -- The clock is read at the end of `addComputeTuple`, or twice for an empty pane, and then once more.
  unfoldable pub fill : Tuple W → (ℕ → ℕ) → S → S
  fill t ticks s =
      let closing : ℕ = elim t.kind [ Kind.regular ↦ 1 | _ ↦ 2 ] in
      set_closing_time (ticks closing) (enter t.kind t ticks s)

  -- The deque afterwards. The results sets that were sent are erased where a new one is made; where
  -- the search ends at one, that one is filled, and the deque is left as it is.
  unfoldable pub place : Worker S → Tuple W → (ℕ → ℕ) → List S → List S → List S
  place w t ticks before [] = fill t ticks (new_pane w t) ∷ []
  place w t ticks before (s ∷ rest) = before ++ fill t ticks s ∷ rest

  unfoldable pub handle_tuple : Worker S → Tuple W → (ℕ → ℕ) → Step W S
  handle_tuple w t ticks =
      let parts = lower_bound t.pane_id w.pane_set in
      record {
        worker = record w { pane_set = place w t ticks parts.0 parts.1 };
        sent = parts.0;
        message = none;
      }

  unfoldable pub dispatch : Kind → Worker S → Tuple W → (ℕ → ℕ) → Option (Step W S)
  dispatch Kind.ends w t ticks = some (handle_end w t)
  dispatch Kind.new_inst w t ticks = handle_new_inst w t
  dispatch Kind.flush w t ticks = some (handle_flush w t)
  dispatch Kind.lull w t ticks = some (handle_lull w t ticks)
  dispatch _ w t ticks = some (handle_tuple w t ticks)

  unfoldable pub svc : Worker S → Tuple W → (ℕ → ℕ) → Option (Step W S)
  svc w t ticks = dispatch t.kind w t ticks

  -- tuples one after another: the worker at the end, and all that was sent
  unfoldable pub run_tuples : Worker S → List S → List (Tuple W × (ℕ → ℕ)) → Worker S × List S
  run_tuples w out [] = (w, out)
  run_tuples w out ((t, ticks) ∷ ms) =
      let st = handle_tuple w t ticks in run_tuples st.worker (out ++ st.sent) ms
