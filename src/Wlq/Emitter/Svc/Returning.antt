-- ===== src/Wlq/Emitter/Svc/Returning.antt =====
-- A task comes back from its worker.
use elastic_ppq.Common.{
  ℕ, ◌+◌, ◌-◌, ◌≤◌, ◌<◌, ◌≡◌, refl, sym, ap, ◌∙◌, subst, inl, inr, Bool, true, false, List, Option,
  none, some, arith, get_or, set, length, length-set, get_or-set_other, get_or-set_self, ℕ_discrete,
  Bool-cases, ltb,
}
use elastic_ppq.ResultsSet.{Derived}
use elastic_ppq.Wlq.Pool.{worker_back}
use elastic_ppq.Wlq.Emitter.{TaskType, Task, WinDescr}
use elastic_ppq.Wlq.Emitter.Tasks.{pending}
use elastic_ppq.Wlq.Emitter.Svc.{WlqEmitter, local_id, at_descr, complete_by}
use elastic_ppq.Wlq.Emitter.Svc.Assigning.{at_rest}
use elastic_ppq.Wlq.Emitter.Svc.Back.{
  completed, complete-cases, completed-queue, free-back, Windows-map, gone, back_other, back-Closed,
  completed-Open, final-Slot,
}
use elastic_ppq.Wlq.Emitter.Svc.Places.{is_none, queue, pending-set, at_descr-set}
use elastic_ppq.Wlq.Emitter.Svc.Invariant.{IsRunning, local_id_lem}
use elastic_ppq.Wlq.Emitter.Svc.Traffic.{
  held, returns, load, odd, odd_by, final, live, Open, Slot, Windows, Windows-at, Windows-set,
}
use elastic_ppq.Wlq.Emitter.Svc.Measures.{held-live-load}

module _ {S : Type 0} ⦃b : Derived S⦄ (num : ℕ) (arrived : ℕ → ℕ) (e : WlqEmitter S)
    (ws : List (Option (Task S))) (v : IsRunning num arrived e (at_rest ws)) where
  -- A window to which a task comes back is open.
  live-Open :
      (k : ℕ)
      → 0 < held (live k) ws
      → (e.first_win_id ≤ k)
        × (k < e.first_win_id + length e.descr_set)
        × (wd : WinDescr S) × (get_or e.descr_set (k - e.first_win_id) none ≡ some wd)
        × Open arrived (at_rest ws) k wd
  live-Open k pos = elim (Bool-cases (ltb k e.first_win_id)) [
    | inl p ↦ absurd (omega (arith, pos, (v.past k (ground (arith, p))).lives))
    | inr p ↦ elim (Bool-cases (ltb k (e.first_win_id + length e.descr_set))) [
      | inr q ↦
          let f = v.future k (ground (arith, q)) in
          absurd (omega (arith, pos, f.sent_loads, held-live-load k ws))
      | inl q ↦
          let from : e.first_win_id ≤ k = ground (arith, p) in
          let to : k < e.first_win_id + length e.descr_set = ground (arith, q) in
          let i : ℕ = k - e.first_win_id in
          let slot =
            subst (λ j. Slot arrived (at_rest ws) j (get_or e.descr_set i none))
              (omega (arith, from))
              (Windows-at arrived (at_rest ws) e.first_win_id i e.descr_set v.windows
                (omega (arith, from, to))) in
          let (wd, g, o) = known (get_or e.descr_set i none) slot in (from, to, wd, g, o)
    ]
  ]
    where
      known :
          (o : Option (WinDescr S))
          → Slot arrived (at_rest ws) k o
          → (wd : WinDescr S) × (o ≡ some wd) × Open arrived (at_rest ws) k wd
      known none c = absurd (omega (arith, pos, c.lives))
      known (some wd) o = (wd, refl, o)

  module _ (w : ℕ) (t : Task S) (lt : w < num) (has : get_or ws w none ≡ some t) where
    inside : w < length ws
    inside = omega (arith, lt, v.size)

    -- The windows when the task is back.
    record Done (l : List (Option (WinDescr S))) : Type 0 where
      windows : Windows arrived (at_rest (set ws w none)) e.first_win_id l
      size : length l ≡ length e.descr_set
      count : pending l ≡ pending e.descr_set + returns t.task_type

    complete_by-Done :
        (l : List (Option (WinDescr S))) × (complete_by t.task_type t.finalize t.p1
            (local_id e.first_win_id t.win_id)
            e.descr_set
          ≡ some l)
        × Done l
    complete_by-Done =
        let i = local_id e.first_win_id t.win_id in
        let a = at_rest ws in
        let c = at_rest (set ws w none) in
        let first = e.first_win_id in
        let not_odd : odd_by t.task_type t.finalize ≡ 0 =
          unfold odd in omega (arith, v.sane.0, gone ws w t inside has odd) in
        elim (complete-cases t.task_type t.finalize t.p1 i e.descr_set not_odd) [
          | inl (f, g) ↦ (
            e.descr_set,
            g,
            record {
              windows =
                  Windows-map arrived a c first e.descr_set (final-Slot arrived ws w t inside has f)
                    v.windows;
              size = refl;
              count = final-returns t.task_type t.finalize f not_odd;
            },
          )
          | inr (f, g) ↦
              let k = t.win_id in
              let one : live k t ≡ 1 = unfold live in ground (arith, f) in
              let (from, to, wd, at, o) =
                live-Open k (omega (arith, one, gone ws w t inside has (live k))) in
              let p : ℕ = k - first in
              let place = local_id_lem first k from (omega (arith, to, v.bound)) in
              let here : p < length e.descr_set = omega (arith, from, to) in
              let wd' = completed t.task_type t.p1 wd in
              let l = set e.descr_set p (some wd') in
              let k_at : k ≡ first + p = omega (arith, from) in
              (
                l,
                g
                    ∙ ap (λ j. at_descr (completed t.task_type t.p1) j e.descr_set) place
                    ∙ at_descr-set (completed t.task_type t.p1) p e.descr_set wd here at,
                record {
                  windows =
                      Windows-set arrived a c first p (some wd') e.descr_set
                        (λ j ne. back_other ws w t inside has j (λ z. ne (z ∙ k_at)))
                        (subst (λ j. Open arrived c j wd') k_at
                          (completed-Open arrived ws w t inside has wd o))
                        v.windows;
                  size = length-set e.descr_set p (some wd');
                  count = omega (
                    arith,
                    pending-set e.descr_set p (some wd') here,
                    ap queue at,
                    completed-queue t.task_type t.p1 wd,
                  );
                },
              )
        ]
      where
        final-returns :
            (c : TaskType) (f : Bool)
            → f ≡ true
            → odd_by c f ≡ 0
            → pending e.descr_set ≡ pending e.descr_set + returns c
        final-returns TaskType.win_update f q z = omega arith
        final-returns TaskType.merge true q z = absurd (omega (arith, z))
        final-returns TaskType.merge false q z = absurd (cc)

    -- A task that a worker has comes back: its window is there to take it, and all fits again.
    pub done-IsRunning :
        (l : List (Option (WinDescr S))) × (complete_by t.task_type t.finalize t.p1
            (local_id e.first_win_id t.win_id)
            e.descr_set
          ≡ some l)
        × IsRunning num arrived
            (record e { descr_set = l; pool = worker_back e.pool w })
            (at_rest (set ws w none))
        × (pending l ≡ pending e.descr_set + returns t.task_type)
    unfolding worker_back
    done-IsRunning =
        let (l, g, d) = complete_by-Done in
        let drop : (f : Task S → ℕ) → held f (set ws w none) ≤ held f ws =
          λ f. omega (arith, gone ws w t inside has f) in
        (
          l,
          g,
          record {
            size = length-set ws w none ∙ v.size;
            windows = d.windows;
            past = λ k less. back-Closed ws w t inside has k (v.past k less);
            future = λ k ge.
                let f = v.future k (omega (arith, ge, d.size)) in
                record {
                  none_arrived = f.none_arrived;
                  sent_loads = omega (arith, f.sent_loads, drop (load k));
                  todo_loads = refl;
                  finals = omega (arith, f.finals, drop (final k));
                };
            bound = omega (arith, v.bound, d.size);
            tasks =
                omega (arith, v.tasks, d.count, gone ws w t inside has (λ u. returns u.task_type));
            ready = omega (arith, v.ready, free-back ws w t inside has);
            idle = λ j less. elim (ℕ_discrete j w) [
              | yes z ↦
                  subst
                    (λ y.
                      get_or (set e.pool.worker_ready w true) y false
                      ≡ is_none (get_or (set ws w none) y none))
                    (sym z)
                    (get_or-set_self e.pool.worker_ready w true false (omega (arith, lt, v.wide))
                      ∙ sym (ap is_none (get_or-set_self ws w none none inside)))
              | no ne ↦
                  get_or-set_other e.pool.worker_ready w j true false ne
                  ∙ v.idle j less
                  ∙ sym (ap is_none (get_or-set_other ws w j none none ne))
            ];
            wide = length-set e.pool.worker_ready w true ∙ v.wide;
            turn = v.turn;
            sane = (omega (arith, v.sane.0, drop odd), refl);
            found = tt;
          },
          d.count,
        )
