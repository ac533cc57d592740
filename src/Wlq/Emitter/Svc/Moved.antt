-- ===== src/Wlq/Emitter/Svc/Moved.antt =====
-- The window of a task that is sent.
use elastic_ppq.Common.{
  ℕ, ◌+◌, ◌<◌, ◌≡◌, ◌≢◌, refl, sym, ap, true, false, List, ◌∷◌, Option, none, some, arith, get_or,
  set, length, set_as_is,
}
use elastic_ppq.ResultsSet.{Derived}
use elastic_ppq.Wlq.Emitter.{TaskType, Task, WinDescr, begin_update}
use elastic_ppq.Wlq.Emitter.Svc.{mark}
use elastic_ppq.Wlq.Emitter.Svc.Invariant.{takes-returns}
use elastic_ppq.Wlq.Emitter.Svc.Places.{at_descr-set}
use elastic_ppq.Wlq.Emitter.Svc.Traffic.{
  held, total, load, final, live, updating, update_by, Traffic, Same, Closed, Open, Slot, of_maybe,
}
use elastic_ppq.Wlq.Emitter.Svc.Measures.{held-set, held-live-load, measures_other}

module _ {S : Type 0} where
  -- the window of a task that is sent
  abbrev pub marked : TaskType → WinDescr S → WinDescr S
  marked TaskType.win_update wd = begin_update wd
  marked TaskType.merge wd = wd

  pub mark-set :
      (c : TaskType) (i : ℕ) (l : List (Option (WinDescr S))) (wd : WinDescr S)
      → i < length l
      → get_or l i none ≡ some wd
      → mark c i l ≡ some (set l i (some (marked c wd)))
  unfolding mark
  mark-set TaskType.win_update i l wd lt e = at_descr-set begin_update i l wd lt e
  mark-set TaskType.merge i l wd lt e = ap some (sym (set_as_is l i (some wd) none lt e))

  pub marked-queue :
      (c : TaskType) (wd : WinDescr S) → (marked c wd).pending_queue ≡ wd.pending_queue
  unfolding begin_update
  marked-queue TaskType.win_update wd = refl
  marked-queue TaskType.merge wd = refl

module _ {S : Type 0} ⦃b : Derived S⦄ (arrived : ℕ → ℕ) (a : Traffic S) (k : ℕ) where
  -- A window of which a task is found is open.
  pub Slot-Open :
      (o : Option (WinDescr S))
      → Slot arrived a k o
      → 0 < total (load k) a.todo
      → (wd : WinDescr S) × (o ≡ some wd) × Open arrived a k wd
  Slot-Open none v pos = absurd (omega (arith, pos, v.loads))
  Slot-Open (some wd) v pos = (wd, refl, v)

module _ {S : Type 0} where
  abbrev pub before : List (Option (Task S)) → Task S → List (Task S) → Traffic S
  before sent t todo = record { sent = sent; todo = t ∷ todo }

  abbrev pub after : List (Option (Task S)) → Task S → List (Task S) → ℕ → Traffic S
  after sent t todo i = record { sent = set sent i (some t); todo = todo }

  pub takes-pos : (t : Task S) → 0 < load t.win_id t
  unfolding load
  takes-pos t = ground (arith, takes-returns t.task_type)

  module _ (sent : List (Option (Task S))) (t : Task S) (i : ℕ) (lt : i < length sent)
      (nothing : get_or sent i none ≡ none) where
    pub moved : (f : Task S → ℕ) → held f (set sent i (some t)) ≡ held f sent + f t
    moved f = omega (arith, held-set f sent i (some t) lt, ap (of_maybe f) nothing)

    pub other :
        (todo : List (Task S)) (j : ℕ)
        → j ≢ t.win_id
        → Same (before sent t todo) (after sent t todo i) j
    other todo j ne =
        let (x, y, z, u) = measures_other j t (λ e. ne (sym e)) in
        record {
          loads = omega (arith, moved (load j), x);
          lives = omega (arith, moved (live j), z);
          finals = omega (arith, moved (final j), y);
          next = omega (arith, x);
          last = omega (arith, y);
          updates = omega (arith, moved (updating j), u);
          next_updates = omega (arith, u);
        }

module _ {S : Type 0} ⦃b : Derived S⦄ (arrived : ℕ → ℕ) (sent : List (Option (Task S))) (t : Task S)
    (todo : List (Task S)) (i : ℕ) (lt : i < length sent)
    (nothing : get_or sent i none ≡ none) where
  pub sent-Open :
      (wd : WinDescr S)
      → t.finalize ≡ false
      → Open arrived (before sent t todo) t.win_id wd
      → Open arrived (after sent t todo i) t.win_id (marked t.task_type wd)
  unfolding begin_update
  sent-Open wd f v = by_type t.task_type refl
    where
      k : ℕ
      k = t.win_id

      zero_final : final k t ≡ 0
      zero_final = unfold final in ground (arith, f)

      update : (c : TaskType) → t.task_type ≡ c → updating k t ≡ update_by c
      update c e = unfold updating in ground (arith, ap update_by e)

      by_type :
          (c : TaskType) → t.task_type ≡ c → Open arrived (after sent t todo i) k (marked c wd)
      by_type TaskType.win_update e = record {
        named = v.named;
        sum = omega (arith, v.sum, moved sent t i lt nothing (load k));
        promise = v.promise;
        unsent = omega (arith, v.unsent, moved sent t i lt nothing (final k), zero_final);
        alone = λ pos. v.alone (omega (arith, pos));
        busy =
            omega (
              arith,
              v.single,
              moved sent t i lt nothing (updating k),
              update TaskType.win_update e,
            );
        single = omega (arith, v.single, moved sent t i lt nothing (updating k));
      }
      by_type TaskType.merge e = record {
        named = v.named;
        sum = omega (arith, v.sum, moved sent t i lt nothing (load k));
        promise = v.promise;
        unsent = omega (arith, v.unsent, moved sent t i lt nothing (final k), zero_final);
        alone = λ pos. v.alone (omega (arith, pos));
        busy =
            omega (arith, v.busy, moved sent t i lt nothing (updating k), update TaskType.merge e);
        single = omega (arith, v.single, moved sent t i lt nothing (updating k));
      }

  -- Once the task that finalizes the window is sent, no other task of the window is under way.
  pub sent-Closed :
      (wd : WinDescr S)
      → t.finalize ≡ true
      → Open arrived (before sent t todo) t.win_id wd
      → Closed (after sent t todo i) t.win_id × (length wd.pending_queue ≡ 0)
  sent-Closed wd f v =
      let k = t.win_id in
      let one : final k t ≡ 1 = unfold final in ground (arith, f) in
      let not_live : live k t ≡ 0 = unfold live in ground (arith, f) in
      let few = v.alone (omega (arith, one)) in
      (
        record {
          lives = omega (
            arith,
            moved sent t i lt nothing (live k),
            not_live,
            held-live-load k sent,
            v.sum,
            few,
            takes-pos t,
          );
          loads = omega (arith, v.sum, few, takes-pos t);
        },
        omega (arith, v.sum, few, takes-pos t),
      )
