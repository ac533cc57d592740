-- ===== src/Wlq/Emitter/Tasks.antt =====
-- Which tasks the WLQ emitter finds, and how many.
use elastic_ppq.Common.{
  ℕ, zero, suc, ◌+◌, ◌-◌, ◌*◌, ◌≤◌, ◌<◌, ◌≡◌, refl, sym, ap, subst, inl, inr, ◌⊎◌, true, List, [],
  ◌∷◌, ◌++◌, Option, none, some, arith, length, length-append, Bool-cases,
}
use elastic_ppq.ResultsSet.{Derived}
use elastic_ppq.Wlq.Emitter.{
  Task, WinDescr, push_front, split_last, make_update, update_task, make_merge, merge_task, found,
  phase, get_wtasks_to_schedule,
}

module _ {S : Type 0} where
  -- the last one of a list that has one, and the others
  pub split_last_lem :
      (ss : List S)
      → ((ss ≡ []) × (split_last ss ≡ none))
        ⊎ ((rest : List S) × (l : S) × (split_last ss ≡ some (rest, l)) × (ss ≡ rest ++ l ∷ []))
  unfolding split_last
  split_last_lem [] = inl (refl, refl)
  split_last_lem (s ∷ ss) = elim (split_last_lem ss) [
    | inl (e, f) ↦ inr ([], s, ap (λ o. some (push_front s o)) f, ap (◌∷◌ s) e)
    | inr (rest, l, e, f) ↦ inr (s ∷ rest, l, ap (λ o. some (push_front s o)) e, ap (◌∷◌ s) f)
  ]

  -- the results sets that wait in the queues of the open windows
  abbrev pub pending : List (Option (WinDescr S)) → ℕ
  pending [] = 0
  pending (none ∷ l) = pending l
  pending (some wd ∷ l) = length wd.pending_queue + pending l

  -- what holds for every open window
  abbrev pub Each : (WinDescr S → Type 0) → List (Option (WinDescr S)) → Type 0
  Each P [] = Unit
  Each P (none ∷ l) = Each P l
  Each P (some wd ∷ l) = P wd × Each P l

module _ {S : Type 0} ⦃b : Derived S⦄ where
  -- What a phase finds that takes k results sets per task and passes over the windows that P is true of.
  pub record Found (k n : ℕ) (P : WinDescr S → Type 0) (l : List (Option (WinDescr S)))
      (r : List (Option (WinDescr S)) × List (Task S)) : Type 0 where
    pub at_most : length r.1 ≤ n
    pub taken : pending l ≡ pending r.0 + k * length r.1
    pub none_left : 0 < n → length r.1 ≡ 0 → Each P l × (r.0 ≡ l)

  -- one descriptor: a task takes k results sets, and without a task P holds
  abbrev Takes : ℕ → (WinDescr S → Type 0) → (WinDescr S → Option (WinDescr S × Task S)) → Type 0
  Takes k P f =
      (wd : WinDescr S)
      → ((f wd ≡ none) × P wd)
        ⊎ ((wd' : WinDescr S) × (t : Task S) × (f wd ≡ some (wd', t))
            × (length wd.pending_queue ≡ length wd'.pending_queue + k))

  phase-Found :
      (k : ℕ) (P : WinDescr S → Type 0) (f : WinDescr S → Option (WinDescr S × Task S)) (n : ℕ)
      (l : List (Option (WinDescr S)))
      → Takes k P f
      → Found k n P l (phase f n l)
  unfolding phase
  phase-Found k P f zero l h = record {
    at_most = omega arith;
    taken = omega arith;
    none_left = λ pos e. absurd (omega (arith, pos));
  }
  phase-Found k P f (suc n) [] h = record {
    at_most = omega arith;
    taken = omega arith;
    none_left = λ pos e. (tt, refl);
  }
  phase-Found k P f (suc n) (none ∷ l) h =
      let v = phase-Found k P f (suc n) l h in
      record {
        at_most = v.at_most;
        taken = v.taken;
        none_left = λ pos e. let w = v.none_left pos e in (w.0, ap (◌∷◌ none) w.1);
      }
  phase-Found k P f (suc n) (some wd ∷ l) h =
      let others = phase f (suc n) l in
      let fewer = phase f n l in
      elim (h wd) [
        | inl (e, p) ↦
            let v = phase-Found k P f (suc n) l h in
            subst (λ o. Found k (suc n) P (some wd ∷ l) (found wd o others fewer)) (sym e)
              (record {
                at_most = v.at_most;
                taken = omega (arith, v.taken);
                none_left =
                    λ pos e'. let w = v.none_left pos e' in ((p, w.0), ap (◌∷◌ (some wd)) w.1);
              })
        | inr (wd', t, e, q) ↦
            let v = phase-Found k P f n l h in
            subst (λ o. Found k (suc n) P (some wd ∷ l) (found wd o others fewer)) (sym e)
              (record {
                at_most = omega (arith, v.at_most);
                taken = omega (arith, v.taken, q);
                none_left = λ pos e'. absurd (omega (arith, e'));
              })
      ]

  -- no WIN_UPDATE task: the window is busy, or nothing waits
  abbrev pub NoUpdate : WinDescr S → Type 0
  NoUpdate wd = (wd.is_busy ≡ true) ⊎ (wd.pending_queue ≡ [])

  -- no MERGE task: at most one results set waits
  abbrev pub NoMerge : WinDescr S → Type 0
  NoMerge wd = length wd.pending_queue ≤ 1

  update_task-Takes : Takes 1 NoUpdate update_task
  unfolding update_task make_update
  update_task-Takes wd = elim (Bool-cases wd.is_busy) [
    | inl h ↦ inl (rw h refl, inl h)
    | inr h ↦ elim (split_last_lem wd.pending_queue) [
      | inl (e, f) ↦ inl (rw (h, f) refl, inr e)
      | inr (rest, l, e, f) ↦ inr (
        (make_update wd (rest, l)).0,
        (make_update wd (rest, l)).1,
        rw (h, e) refl,
        omega (arith, ap length f, length-append rest (l ∷ [])),
      )
    ]
  ]

  merge_task-Takes : Takes 2 NoMerge merge_task
  unfolding merge_task make_merge
  merge_task-Takes wd = elim (split_last_lem wd.pending_queue) [
    | inl (e, f) ↦ inl (rw f refl, omega (arith, ap length e))
    | inr (rest, p1, e, f) ↦ elim (split_last_lem rest) [
      | inl (e', f') ↦
          inl (
            rw (e, f') refl,
            omega (arith, ap length f, ap length e', length-append rest (p1 ∷ [])),
          )
      | inr (rest', p2, e', f') ↦ inr (
        (make_merge wd p1 (rest', p2)).0,
        (make_merge wd p1 (rest', p2)).1,
        rw (e, e') refl,
        omega (
          arith,
          ap length f,
          ap length f',
          length-append rest (p1 ∷ []),
          length-append rest' (p2 ∷ []),
        ),
      )
    ]
  ]

  -- Asked for n tasks, the emitter finds at most n. A WIN_UPDATE task takes one results set out of the
  -- queues and a MERGE task two; and where it finds no task although n is above 0, every open window is
  -- busy or has an empty queue, and no queue has more than one results set.
  pub get_wtasks_to_schedule_lem :
      (n : ℕ) (l : List (Option (WinDescr S)))
      → (length (get_wtasks_to_schedule n l).1 ≤ n)
        × ((updates : ℕ) × (merges : ℕ) × (length (get_wtasks_to_schedule n l).1 ≡ updates + merges)
            × (pending l ≡ pending (get_wtasks_to_schedule n l).0 + updates + 2 * merges))
        × (0 < n → length (get_wtasks_to_schedule n l).1 ≡ 0 → Each NoUpdate l × Each NoMerge l)
  unfolding get_wtasks_to_schedule
  get_wtasks_to_schedule_lem n l =
      let one = phase update_task n l in
      let left : ℕ = n - length one.1 in
      let two = phase merge_task left one.0 in
      let v = phase-Found 1 NoUpdate update_task n l update_task-Takes in
      let w = phase-Found 2 NoMerge merge_task left one.0 merge_task-Takes in
      let size = length-append one.1 two.1 in
      (
        omega (arith, size, v.at_most, w.at_most),
        (length one.1, length two.1, size, omega (arith, v.taken, w.taken)),
        λ pos e.
            let first = v.none_left pos (omega (arith, e, size)) in
            let second = w.none_left (omega (arith, pos, e, size)) (omega (arith, e, size)) in
            (first.0, subst (Each NoMerge) first.1 second.0),
      )
