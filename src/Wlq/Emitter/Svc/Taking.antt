-- ===== src/Wlq/Emitter/Svc/Taking.antt =====
-- The tasks of a search: from which windows they are, and what each took out of its window.
use elastic_ppq.Common.{
  ℕ, ◌+◌, ◌≤◌, ◌<◌, ◌≡◌, refl, ap, inl, inr, ◌⊎◌, true, List, [], ◌∷◌, ◌++◌, Option, none, some,
  arith, length, length-append, All, Bool-cases, false,
}
use elastic_ppq.ResultsSet.{Derived}
use elastic_ppq.Wlq.Emitter.{
  TaskType, Task, WinDescr, sum_ins, is_next, to_finalize, make_update, update_task, make_merge,
  merge_task,
}
use elastic_ppq.Wlq.Emitter.Tasks.{split_last_lem}
use elastic_ppq.Wlq.Emitter.Svc.Traffic.{
  total, takes, load, odd, final, updating, update_by, Traffic, Same,
}
use elastic_ppq.Wlq.Emitter.Svc.Measures.{total-append, measures_other}

is_next-true : (n : ℕ) (o : Option ℕ) → is_next n o ≡ true → o ≡ some (n + 1)
is_next-true n none h = absurd (cc)
is_next-true n (some sum) h = ap some (ground (arith, h))

module _ {S : Type 0} where
  -- the tasks of a list that were found on top of others
  abbrev pub with_found : List (Task S) → Traffic S → Traffic S
  with_found ts a = record a { todo = ts ++ a.todo }

  -- tasks of the windows from lo on and before hi
  abbrev pub Within : ℕ → ℕ → List (Task S) → Type 0
  Within lo hi ts = All (λ t. (lo ≤ t.win_id) × (t.win_id < hi)) ts

  pub Within-wider :
      (lo hi lo' hi' : ℕ) (ts : List (Task S))
      → lo' ≤ lo
      → hi ≤ hi'
      → Within lo hi ts
      → Within lo' hi' ts
  Within-wider lo hi lo' hi' [] le ge v = tt
  Within-wider lo hi lo' hi' (t ∷ ts) le ge ((x, y), v) =
      ((omega (arith, le, x), omega (arith, ge, y)), Within-wider lo hi lo' hi' ts le ge v)

  pub Within-append :
      (lo hi : ℕ) (xs ys : List (Task S))
      → Within lo hi xs
      → Within lo hi ys
      → Within lo hi (xs ++ ys)
  Within-append lo hi [] ys v w = w
  Within-append lo hi (x ∷ xs) ys (u, v) w = (u, Within-append lo hi xs ys v w)

  -- The other windows have no part in the tasks.
  pub others :
      (lo hi j : ℕ) (ts : List (Task S))
      → (j < lo) ⊎ (hi ≤ j)
      → Within lo hi ts
      → (total (load j) ts ≡ 0) × (total (final j) ts ≡ 0) × (total (updating j) ts ≡ 0)
  others lo hi j [] out v = (refl, refl, refl)
  others lo hi j (t ∷ ts) out ((x, y), v) =
      let (a, c, d) = others lo hi j ts out v in
      let (a', c', _, d') =
        measures_other j t (elim out [
          | inl o ↦ λ e. omega (arith, e, o, x)
          | inr o ↦ λ e. omega (arith, e, o, y)
        ]) in
      (omega (arith, a, a'), omega (arith, c, c'), omega (arith, d, d'))

  pub found-Same :
      (lo hi j : ℕ) (ts : List (Task S)) (a : Traffic S)
      → (j < lo) ⊎ (hi ≤ j)
      → Within lo hi ts
      → Same a (with_found ts a) j
  found-Same lo hi j ts a out v =
      let (x, y, z) = others lo hi j ts out v in
      record {
        loads = refl;
        lives = refl;
        finals = refl;
        next = omega (arith, x, total-append (load j) ts a.todo);
        last = omega (arith, y, total-append (final j) ts a.todo);
        updates = refl;
        next_updates = omega (arith, z, total-append (updating j) ts a.todo);
      }

  -- The order of the tasks does not matter.
  pub swapped :
      (j : ℕ) (xs ys : List (Task S)) (a : Traffic S)
      → Same (with_found ys (with_found xs a)) (with_found (xs ++ ys) a) j
  swapped j xs ys a =
      let eq : (f : Task S → ℕ) → total f (ys ++ (xs ++ a.todo)) ≡ total f ((xs ++ ys) ++ a.todo) =
        λ f. omega (
          arith,
          total-append f ys (xs ++ a.todo),
          total-append f xs a.todo,
          total-append f (xs ++ ys) a.todo,
          total-append f xs ys,
        ) in
      record {
        loads = refl;
        lives = refl;
        finals = refl;
        next = eq (load j);
        last = eq (final j);
        updates = refl;
        next_updates = eq (updating j);
      }

  -- What a task took out of its window.
  pub record Taken (wd wd' : WinDescr S) (t : Task S) : Type 0 where
    pub window : wd'.w ≡ wd.w
    pub less : length wd.pending_queue ≡ length wd'.pending_queue + takes t.task_type
    pub same_count : wd'.cnt_tasks_com ≡ wd.cnt_tasks_com
    pub same_ins : wd'.cnt_ins ≡ wd.cnt_ins
    pub same_busy : wd'.is_busy ≡ wd.is_busy
    pub not_busy : 0 < update_by t.task_type → wd.is_busy ≡ false
    pub sane : odd t ≡ 0
    pub last_one : t.finalize ≡ true → sum_ins wd.cnt_ins ≡ some (wd.cnt_tasks_com + 1)

module _ {S : Type 0} ⦃b : Derived S⦄ where
  -- a phase finds tasks of the type c
  abbrev pub Finds : TaskType → (WinDescr S → Option (WinDescr S × Task S)) → Type 0
  Finds c f =
      (wd : WinDescr S)
      → (f wd ≡ none)
        ⊎ ((wd' : WinDescr S) × (t : Task S) × (f wd ≡ some (wd', t))
            × (t.win_id ≡ (b.base wd.w).id)
            × (t.task_type ≡ c)
            × Taken wd wd' t)

  pub update_task-Finds : Finds TaskType.win_update update_task
  unfolding update_task make_update to_finalize odd
  update_task-Finds wd = elim (Bool-cases wd.is_busy) [
    | inl h ↦ inl (rw h refl)
    | inr h ↦ elim (split_last_lem wd.pending_queue) [
      | inl (e, f) ↦ inl (rw (h, f) refl)
      | inr (rest, l, e, f) ↦ inr (
        (make_update wd (rest, l)).0,
        (make_update wd (rest, l)).1,
        rw (h, e) refl,
        refl,
        refl,
        record {
          window = refl;
          less = omega (arith, ap length f, length-append rest (l ∷ []));
          same_count = refl;
          same_ins = refl;
          same_busy = refl;
          not_busy = λ _. h;
          sane = refl;
          last_one = λ z. is_next-true wd.cnt_tasks_com (sum_ins wd.cnt_ins) z;
        },
      )
    ]
  ]

  pub merge_task-Finds : Finds TaskType.merge merge_task
  unfolding merge_task make_merge odd
  merge_task-Finds wd = elim (split_last_lem wd.pending_queue) [
    | inl (e, f) ↦ inl (rw f refl)
    | inr (rest, p1, e, f) ↦ elim (split_last_lem rest) [
      | inl (e', f') ↦ inl (rw (e, f') refl)
      | inr (rest', p2, e', f') ↦ inr (
        (make_merge wd p1 (rest', p2)).0,
        (make_merge wd p1 (rest', p2)).1,
        rw (e, e') refl,
        refl,
        refl,
        record {
          window = refl;
          less = omega (
            arith,
            ap length f,
            ap length f',
            length-append rest (p1 ∷ []),
            length-append rest' (p2 ∷ []),
          );
          same_count = refl;
          same_ins = refl;
          same_busy = refl;
          not_busy = λ pos. absurd (omega (arith, pos));
          sane = refl;
          last_one = λ z. absurd (cc);
        },
      )
    ]
  ]
