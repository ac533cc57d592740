-- ===== src/Wlq/Emitter/Finalize.antt =====
-- The life of a window between the emitter and the workers, and when it is finalized.
use mathlib.Core.Option.{some-injective, none-ne-some}
use elastic_ppq.Common.{
  ℕ, suc, ◌+◌, ◌*◌, ◌≤◌, ◌≡◌, refl, sym, ap, ◌∙◌, subst, inl, inr, ◌↔◌, true, false, [], ◌∷◌, none,
  some, arith, length, length-append, and_then, ◌==◌, Bool-cases, if◌then◌else◌,
}
use elastic_ppq.ResultsSet.{Derived}
use elastic_ppq.Wlq.Emitter.{
  Task, WinDescr, sum_ins, is_next, to_finalize, increment_completed_task, begin_update,
  complete_update, complete_merge, split_last, new_descr, update_count, enqueue, make_update,
  update_task, make_merge, merge_task,
}
use elastic_ppq.Wlq.Emitter.Tasks.{split_last_lem}

-- A window, how many results sets of pane partitions have arrived for it, and how many of its tasks of
-- each type the workers have.
pub record Life (S : Type 0) : Type 0 where
  pub wd : WinDescr S
  pub arrived : ℕ
  pub updating : ℕ
  pub merging : ℕ

module _ {S : Type 0} ⦃b : Derived S⦄ where
  -- What the emitter does with one window, in any order: a results set arrives, a task of either type
  -- is sent, the feedback of one comes back. The task that finalizes the window is the last event.
  pub data Step : Life S → Life S → Type 0 where
    arrive :
        (s : Life S) (p : S) → Step s (record s { wd = enqueue p s.wd; arrived = s.arrived + 1 })
    send_update :
        (s : Life S) (wd' : WinDescr S) (t : Task S)
        → update_task s.wd ≡ some (wd', t)
        → t.finalize ≡ false
        → Step s (record s { wd = begin_update wd'; updating = s.updating + 1 })
    update_done :
        (s : Life S) (u : ℕ)
        → s.updating ≡ suc u
        → Step s (record s { wd = complete_update s.wd; updating = u })
    send_merge :
        (s : Life S) (wd' : WinDescr S) (t : Task S)
        → merge_task s.wd ≡ some (wd', t)
        → Step s (record s { wd = wd'; merging = s.merging + 1 })
    merge_done :
        (s : Life S) (m : ℕ) (p : S)
        → s.merging ≡ suc m
        → Step s (record s { wd = complete_merge p s.wd; merging = m })

  -- the states of a window from its creation on
  pub data Reachable : Life S → Type 0 where
    created :
        (new_set : ℕ → ℕ → ℕ → S) (id wp first : ℕ)
        → Reachable
            (record { wd = new_descr new_set id wp first; arrived = 0; updating = 0; merging = 0 })
    stepped : (s s' : Life S) → Reachable s → Step s s' → Reachable s'

  -- Every results set that arrived was worked off, waits, or is with a worker.
  pub record Balanced (s : Life S) : Type 0 where
    pub sum :
        s.arrived ≡ s.wd.cnt_tasks_com + length s.wd.pending_queue + s.updating + 2 * s.merging
    pub busy : s.updating ≡ (if s.wd.is_busy then 1 else 0)

  -- an update task that was found
  pub record Update (wd wd' : WinDescr S) (t : Task S) : Type 0 where
    pub not_busy : wd.is_busy ≡ false
    pub one_less : length wd.pending_queue ≡ length wd'.pending_queue + 1
    pub same_count : wd'.cnt_tasks_com ≡ wd.cnt_tasks_com
    pub final : t.finalize ≡ to_finalize wd

  pub update_task-Update :
      (wd wd' : WinDescr S) (t : Task S) → update_task wd ≡ some (wd', t) → Update wd wd' t
  unfolding update_task make_update
  update_task-Update wd wd' t e = elim (Bool-cases wd.is_busy) [
    | inl h ↦ absurd (none-ne-some (wd', t) (rw h at e))
    | inr h ↦ elim (split_last_lem wd.pending_queue) [
      | inl (_, f) ↦ absurd (none-ne-some (wd', t) (rw (h, f) at e))
      | inr (rest, l, f, g) ↦
          let open_now : and_then (split_last wd.pending_queue) (λ q. some (make_update wd q))
              ≡ some (wd', t) =
            subst
              (λ c.
                (if c
                  then none
                  else and_then (split_last wd.pending_queue) (λ q. some (make_update wd q)))
                ≡ some (wd', t))
              h e in
          let same : make_update wd (rest, l) ≡ (wd', t) =
            some-injective _ _
              (subst (λ o. and_then o (λ q. some (make_update wd q)) ≡ some (wd', t)) f open_now) in
          subst (λ z. Update wd z.0 z.1) same
            (record {
              not_busy = h;
              one_less = ap length g ∙ length-append rest (l ∷ []);
              same_count = refl;
              final = refl;
            })
    ]
  ]

  merge_task-less :
      (wd wd' : WinDescr S) (t : Task S)
      → merge_task wd ≡ some (wd', t)
      → (length wd.pending_queue ≡ length wd'.pending_queue + 2)
        × (wd'.cnt_tasks_com ≡ wd.cnt_tasks_com)
        × (wd'.is_busy ≡ wd.is_busy)
  unfolding merge_task make_merge
  merge_task-less wd wd' t e = elim (split_last_lem wd.pending_queue) [
    | inl (_, f) ↦ absurd (none-ne-some (wd', t) (rw f at e))
    | inr (rest, p1, f, g) ↦ elim (split_last_lem rest) [
      | inl (_, f') ↦ absurd (none-ne-some (wd', t) (rw (f, f') at e))
      | inr (rest', p2, f', g') ↦
          let same : make_merge wd p1 (rest', p2) ≡ (wd', t) =
            some-injective _ _ (rw (f, f') at e) in
          subst
            (λ z.
              (length wd.pending_queue ≡ length z.0.pending_queue + 2)
              × (z.0.cnt_tasks_com ≡ wd.cnt_tasks_com)
              × (z.0.is_busy ≡ wd.is_busy))
            same
            (
              omega (
                arith,
                ap length g,
                ap length g',
                length-append rest (p1 ∷ []),
                length-append rest' (p2 ∷ []),
              ),
              refl,
              refl,
            )
    ]
  ]

  step-Balanced : (s s' : Life S) → Step s s' → Balanced s → Balanced s'
  unfolding enqueue update_count begin_update complete_update complete_merge
      increment_completed_task
  step-Balanced s s' (Step.arrive _ p) v = record {
    sum = omega (arith, v.sum, length-append s.wd.pending_queue (p ∷ []));
    busy = v.busy;
  }
  step-Balanced s s' (Step.send_update _ wd' t e f) v =
      let u = update_task-Update s.wd wd' t e in
      record {
        sum = omega (arith, v.sum, u.one_less, u.same_count);
        busy = ground (arith, v.busy, u.not_busy);
      }
  step-Balanced s s' (Step.update_done _ u e) v = record {
    sum = omega (arith, v.sum, e);
    busy = ground (arith, v.busy, e);
  }
  step-Balanced s s' (Step.send_merge _ wd' t e) v =
      let m = merge_task-less s.wd wd' t e in
      record {
        sum = omega (arith, v.sum, m.0, m.1);
        busy = v.busy ∙ ap (λ c. if c then 1 else 0) (sym m.2);
      }
  step-Balanced s s' (Step.merge_done _ m p e) v = record {
    sum = omega (arith, v.sum, e, length-append s.wd.pending_queue (p ∷ []));
    busy = v.busy;
  }

  -- In every state that a window can come to, whatever the order of events, the results sets that
  -- arrived are as many as the completed tasks, those that wait, one for an update that a worker has and
  -- two for each merge; and a worker has an update exactly if the window is busy, and then just one.
  pub Reachable-Balanced : (s : Life S) → Reachable s → Balanced s
  unfolding new_descr
  Reachable-Balanced s (Reachable.created new_set id wp first) = record {
    sum = omega arith;
    busy = refl;
  }
  Reachable-Balanced s (Reachable.stepped r _ h e) = step-Balanced r s e (Reachable-Balanced r h)

  -- Let the numbers of partitions of all panes of a window be known, and their sum be at least the
  -- number that arrived. Then an update task of the window is marked to finalize it exactly if all
  -- partitions have arrived, none waits beside the one of this task, and no merge is with a worker.
  pub finalize_iff :
      (s : Life S) (wd' : WinDescr S) (t : Task S) (sum : ℕ)
      → Reachable s
      → update_task s.wd ≡ some (wd', t)
      → sum_ins s.wd.cnt_ins ≡ some sum
      → s.arrived ≤ sum
      → (t.finalize ≡ true) ↔ ((s.arrived ≡ sum) × (length wd'.pending_queue ≡ 0) × (s.merging ≡ 0))
  unfolding to_finalize
  finalize_iff s wd' t sum h e k le =
      let v = Reachable-Balanced s h in
      let u = update_task-Update s.wd wd' t e in
      let idle : s.updating ≡ 0 = v.busy ∙ ap (λ c. if c then 1 else 0) u.not_busy in
      let final : t.finalize ≡ (sum == s.wd.cnt_tasks_com + 1) =
        u.final ∙ ap (is_next s.wd.cnt_tasks_com) k in
      ground (arith, final, idle, v.sum, u.one_less, le)
