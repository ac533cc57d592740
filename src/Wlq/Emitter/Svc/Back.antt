-- ===== src/Wlq/Emitter/Svc/Back.antt =====
-- The window of a task that comes back.
use elastic_ppq.Common.{
  ℕ, zero, suc, ◌+◌, ◌<◌, ◌≡◌, ◌≢◌, refl, sym, ap, inl, inr, ◌⊎◌, Bool, true, false, List, [], ◌∷◌,
  Option, none, some, arith, get_or, set, length, length-append, ℕ_discrete,
}
use elastic_ppq.ResultsSet.{Derived}
use elastic_ppq.Wlq.Emitter.{
  TaskType, Task, WinDescr, increment_completed_task, complete_update, complete_merge,
}
use elastic_ppq.Wlq.Emitter.Svc.{at_descr, complete_by}
use elastic_ppq.Wlq.Emitter.Svc.Assigning.{at_rest}
use elastic_ppq.Wlq.Emitter.Svc.Places.{free}
use elastic_ppq.Wlq.Emitter.Svc.Traffic.{
  held, takes, returns, load, odd_by, final, live, updating, update_by, Traffic, Same, Closed, Open,
  Slot, Slot-same, Windows, of_maybe,
}
use elastic_ppq.Wlq.Emitter.Svc.Measures.{held-set, measures_other}

module _ {S : Type 0} where
  -- the window of a task that is done and did not finalize it
  abbrev pub completed : TaskType → S → WinDescr S → WinDescr S
  completed TaskType.win_update p1 wd = complete_update wd
  completed TaskType.merge p1 wd = complete_merge p1 wd

  pub complete-cases :
      (c : TaskType) (f : Bool) (p1 : S) (i : ℕ) (l : List (Option (WinDescr S)))
      → odd_by c f ≡ 0
      → ((f ≡ true) × (complete_by c f p1 i l ≡ some l))
        ⊎ ((f ≡ false) × (complete_by c f p1 i l ≡ at_descr (completed c p1) i l))
  unfolding complete_by
  complete-cases TaskType.win_update true p1 i l e = inl (refl, refl)
  complete-cases TaskType.win_update false p1 i l e = inr (refl, refl)
  complete-cases TaskType.merge true p1 i l e = absurd (omega (arith, e))
  complete-cases TaskType.merge false p1 i l e = inr (refl, refl)

  pub completed-queue :
      (c : TaskType) (p1 : S) (wd : WinDescr S)
      → length (completed c p1 wd).pending_queue ≡ length wd.pending_queue + returns c
  unfolding complete_update complete_merge increment_completed_task
  completed-queue TaskType.win_update p1 wd = omega arith
  completed-queue TaskType.merge p1 wd = length-append wd.pending_queue (p1 ∷ [])

  pub free-back :
      (ws : List (Option (Task S))) (i : ℕ) (t : Task S)
      → i < length ws
      → get_or ws i none ≡ some t
      → free (set ws i none) ≡ free ws + 1
  free-back [] i t lt e = absurd (omega (arith, lt))
  free-back (none ∷ ws) zero t lt e = absurd (cc)
  free-back (some u ∷ ws) zero t lt e = refl
  free-back (none ∷ ws) (suc i) t lt e = omega (arith, free-back ws i t (omega (arith, lt)) e)
  free-back (some u ∷ ws) (suc i) t lt e = free-back ws i t (omega (arith, lt)) e

module _ {S : Type 0} ⦃b : Derived S⦄ (arrived : ℕ → ℕ) where
  pub Windows-map :
      (a c : Traffic S) (k : ℕ) (l : List (Option (WinDescr S)))
      → ((j : ℕ) (o : Option (WinDescr S)) → Slot arrived a j o → Slot arrived c j o)
      → Windows arrived a k l
      → Windows arrived c k l
  Windows-map a c k [] f v = tt
  Windows-map a c k (o ∷ l) f (v, vs) = (f k o v, Windows-map a c (k + 1) l f vs)

module _ {S : Type 0} (ws : List (Option (Task S))) (w : ℕ) (t : Task S) (lt : w < length ws)
    (has : get_or ws w none ≡ some t) where
  pub gone : (f : Task S → ℕ) → held f (set ws w none) + f t ≡ held f ws
  gone f = omega (arith, held-set f ws w none lt, ap (of_maybe f) has)

  pub back_other : (j : ℕ) → j ≢ t.win_id → Same (at_rest ws) (at_rest (set ws w none)) j
  back_other j ne =
      let (x, y, z, u) = measures_other j t (λ e. ne (sym e)) in
      record {
        loads = omega (arith, gone (load j), x);
        lives = omega (arith, gone (live j), z);
        finals = omega (arith, gone (final j), y);
        next = refl;
        last = refl;
        updates = omega (arith, gone (updating j), u);
        next_updates = refl;
      }

  pub back-Closed : (j : ℕ) → Closed (at_rest ws) j → Closed (at_rest (set ws w none)) j
  back-Closed j v = record { lives = omega (arith, gone (live j), v.lives); loads = refl }

module _ {S : Type 0} ⦃b : Derived S⦄ (arrived : ℕ → ℕ) (ws : List (Option (Task S))) (w : ℕ)
    (t : Task S) (lt : w < length ws) (has : get_or ws w none ≡ some t) where
  -- The window that the task did not finalize.
  pub completed-Open :
      (wd : WinDescr S)
      → Open arrived (at_rest ws) t.win_id wd
      → Open arrived (at_rest (set ws w none)) t.win_id (completed t.task_type t.p1 wd)
  unfolding complete_update complete_merge increment_completed_task
  completed-Open wd v = by_type t.task_type refl
    where
      k : ℕ
      k = t.win_id

      weight : load k t ≡ takes t.task_type
      weight = unfold load in ground arith

      update : updating k t ≡ update_by t.task_type
      update = unfold updating in ground arith

      kept :
          (c : TaskType)
          → t.task_type ≡ c
          → held (updating k) (set ws w none) + update_by c ≡ held (updating k) ws
      kept c e = omega (arith, gone ws w t lt has (updating k), update, ap update_by e)

      by_type :
          (c : TaskType)
          → t.task_type ≡ c
          → Open arrived (at_rest (set ws w none)) k (completed c t.p1 wd)
      by_type TaskType.win_update e = record {
        named = v.named;
        sum = omega (arith, v.sum, gone ws w t lt has (load k), weight, ap takes e);
        promise = v.promise;
        unsent = omega (arith, v.unsent, gone ws w t lt has (final k));
        alone = λ pos. absurd (omega (arith, pos));
        busy = omega (arith, kept TaskType.win_update e, v.single);
        single = omega (arith, kept TaskType.win_update e, v.single);
      }
      by_type TaskType.merge e = record {
        named = v.named;
        sum = omega (
          arith,
          v.sum,
          gone ws w t lt has (load k),
          weight,
          ap takes e,
          length-append wd.pending_queue (t.p1 ∷ []),
        );
        promise = v.promise;
        unsent = omega (arith, v.unsent, gone ws w t lt has (final k));
        alone = λ pos. absurd (omega (arith, pos));
        busy = omega (arith, kept TaskType.merge e, v.busy);
        single = omega (arith, kept TaskType.merge e, v.single);
      }

  -- A task that finalized its window finds it closed.
  pub final-Slot :
      t.finalize ≡ true
      → (j : ℕ) (o : Option (WinDescr S)) → Slot arrived (at_rest ws) j o
      → Slot arrived (at_rest (set ws w none)) j o
  final-Slot f j o v = elim (ℕ_discrete j t.win_id) [
    | no ne ↦
        Slot-same arrived (at_rest ws) (at_rest (set ws w none)) j o (back_other ws w t lt has j ne)
          v
    | yes e ↦ at o v e
  ]
    where
      at :
          (o : Option (WinDescr S))
          → Slot arrived (at_rest ws) j o
          → j ≡ t.win_id
          → Slot arrived (at_rest (set ws w none)) j o
      at none v e = back-Closed ws w t lt has j v
      at (some wd) v e =
          let one : final j t ≡ 1 = unfold final in ground (arith, f, e) in
          absurd (omega (arith, v.unsent, gone ws w t lt has (final j), one))
