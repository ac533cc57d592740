-- ===== src/Wlq/Emitter/Svc/Choosing.antt =====
-- The tasks that are found, and what the windows are left with.
use elastic_ppq.Common.{
  ℕ, zero, suc, ◌+◌, ◌-◌, ◌≤◌, ◌<◌, ◌≡◌, refl, sym, ap, ◌∙◌, subst, inl, inr, List, [], ◌∷◌, ◌++◌,
  Option, none, some, arith, length, length-append, Bool-cases, ltb, if◌then◌else◌,
}
use elastic_ppq.ResultsSet.{Derived}
use elastic_ppq.Wlq.Emitter.{
  TaskType, Task, WinDescr, sum_ins, update_task, merge_task, found, phase, get_wtasks_to_schedule,
}
use elastic_ppq.Wlq.Emitter.Tasks.{pending}
use elastic_ppq.Wlq.Emitter.Svc.Traffic.{
  total, takes, load, odd, final, updating, update_by, update_by_small, Traffic, Open, Windows,
  Open-same, Closed-same, Windows-same,
}
use elastic_ppq.Wlq.Emitter.Svc.Measures.{total-append}
use elastic_ppq.Wlq.Emitter.Svc.Taking.{
  with_found, Within, Within-wider, Within-append, found-Same, swapped, Taken, Finds,
  update_task-Finds, merge_task-Finds,
}

module _ {S : Type 0} ⦃b : Derived S⦄ where
  -- The window that a task was found of.
  Open-found :
      (arrived : ℕ → ℕ) (a : Traffic S) (k : ℕ) (wd wd' : WinDescr S) (t : Task S)
      → Open arrived a k wd
      → t.win_id ≡ k
      → (0 < update_by t.task_type → total (updating k) a.todo ≡ 0)
      → Taken wd wd' t
      → Open arrived (with_found (t ∷ []) a) k wd'
  unfolding load final updating
  Open-found arrived a k wd wd' t v e first x = record {
    named = ap (λ w. (b.base w).id) x.window ∙ v.named;
    sum = ground (arith, v.sum, x.less, x.same_count, e);
    promise = λ n h. v.promise n (subst (λ c. sum_ins c ≡ some n) x.same_ins h);
    unsent = v.unsent;
    alone = λ pos. elim (Bool-cases t.finalize) [
      | inl f ↦ omega (arith, v.promise (wd.cnt_tasks_com + 1) (x.last_one f), x.same_count)
      | inr f ↦ omega (arith, v.alone (ground (arith, pos, f)), x.same_count)
    ];
    busy = v.busy ∙ ap (λ c. if c then 1 else 0) (sym x.same_busy);
    single = elim (Bool-cases (ltb 0 (update_by t.task_type))) [
      | inl u ↦
          let pos : 0 < update_by t.task_type = ground (arith, u) in
          ground (arith, v.busy, x.not_busy pos, first pos, e, update_by_small t.task_type)
      | inr u ↦ ground (arith, v.single, u)
    ];
  }

  -- What the tasks ts of the windows from k on change, which were l and are l' after it.
  pub record Chosen (arrived : ℕ → ℕ) (a : Traffic S) (k n : ℕ) (l l' : List (Option (WinDescr S)))
      (ts : List (Task S)) : Type 0 where
    pub windows : Windows arrived (with_found ts a) k l'
    pub within : Within k (k + length l) ts
    pub same_length : length l' ≡ length l
    pub at_most : length ts ≤ n
    pub sane : total odd ts ≡ 0
    pub taken : pending l ≡ pending l' + total (λ t. takes t.task_type) ts

  phase-Chosen :
      (c : TaskType) (f : WinDescr S → Option (WinDescr S × Task S)) (n : ℕ) (arrived : ℕ → ℕ)
      (a : Traffic S) (k : ℕ) (l : List (Option (WinDescr S)))
      → Finds c f
      → ((j : ℕ) → 0 < update_by c → total (updating j) a.todo ≡ 0)
      → Windows arrived a k l
      → Chosen arrived a k n l (phase f n l).0 (phase f n l).1
  unfolding phase
  phase-Chosen c f zero arrived a k l h fresh v = record {
    windows = v;
    within = tt;
    same_length = refl;
    at_most = omega arith;
    sane = refl;
    taken = omega arith;
  }
  phase-Chosen c f (suc n) arrived a k [] h fresh v = record {
    windows = tt;
    within = tt;
    same_length = refl;
    at_most = omega arith;
    sane = refl;
    taken = omega arith;
  }
  phase-Chosen c f (suc n) arrived a k (none ∷ l) h fresh (o, v) =
      let r = phase f (suc n) l in
      let x = phase-Chosen c f (suc n) arrived a (k + 1) l h fresh v in
      let same = found-Same (k + 1) (k + 1 + length l) k r.1 a (inl (omega arith)) x.within in
      record {
        windows = (Closed-same a (with_found r.1 a) k same o, x.windows);
        within =
            Within-wider (k + 1) (k + 1 + length l) k _ r.1 (omega arith) (omega arith) x.within;
        same_length = ap suc x.same_length;
        at_most = x.at_most;
        sane = x.sane;
        taken = x.taken;
      }
  phase-Chosen c f (suc n) arrived a k (some wd ∷ l) h fresh (v, vs) =
      let others = phase f (suc n) l in
      let fewer = phase f n l in
      elim (h wd) [
        | inl e ↦
            let x = phase-Chosen c f (suc n) arrived a (k + 1) l h fresh vs in
            let same =
              found-Same (k + 1) (k + 1 + length l) k others.1 a (inl (omega arith)) x.within in
            subst
              (λ o.
                Chosen arrived a k (suc n) (some wd ∷ l) (found wd o others fewer).0
                  (found wd o others fewer).1)
              (sym e)
              (record {
                windows = (Open-same arrived a (with_found others.1 a) k wd same v, x.windows);
                within =
                    Within-wider (k + 1) (k + 1 + length l) k _ others.1 (omega arith) (omega arith)
                      x.within;
                same_length = ap suc x.same_length;
                at_most = x.at_most;
                sane = x.sane;
                taken = omega (arith, x.taken);
              })
        | inr (wd', t, e, q, by, z) ↦
            let x = phase-Chosen c f n arrived a (k + 1) l h fresh vs in
            let a1 = with_found fewer.1 a in
            let same =
              found-Same (k + 1) (k + 1 + length l) k fewer.1 a (inl (omega arith)) x.within in
            let here = q ∙ v.named in
            subst
              (λ o.
                Chosen arrived a k (suc n) (some wd ∷ l) (found wd o others fewer).0
                  (found wd o others fewer).1)
              (sym e)
              (record {
                windows = (
                  Open-found arrived a1 k wd wd' t (Open-same arrived a a1 k wd same v) here
                      (λ pos. sym same.next_updates ∙ fresh k (subst (λ y. 0 < update_by y) by pos))
                      z,
                  Windows-same arrived a1 (with_found (t ∷ []) a1) (k + 1) fewer.0
                      (λ j ge lt.
                        found-Same k (k + 1) j (t ∷ []) a1 (inr ge)
                          ((omega (arith, here), omega (arith, here)), tt))
                      x.windows,
                );
                within = (
                  (omega (arith, here), omega (arith, here)),
                  Within-wider (k + 1) (k + 1 + length l) k _ fewer.1 (omega arith) (omega arith)
                      x.within,
                );
                same_length = ap suc x.same_length;
                at_most = omega (arith, x.at_most);
                sane = omega (arith, x.sane, z.sane);
                taken = omega (arith, x.taken, z.less);
              })
      ]

  -- Both phases of the search.
  pub get_wtasks-Chosen :
      (n : ℕ) (arrived : ℕ → ℕ) (a : Traffic S) (k : ℕ) (l : List (Option (WinDescr S)))
      → ((j : ℕ) → total (updating j) a.todo ≡ 0)
      → Windows arrived a k l
      → Chosen arrived a k n l (get_wtasks_to_schedule n l).0 (get_wtasks_to_schedule n l).1
  unfolding get_wtasks_to_schedule
  get_wtasks-Chosen n arrived a k l fresh v =
      let one = phase update_task n l in
      let m : ℕ = n - length one.1 in
      let two = phase merge_task m one.0 in
      let x =
        phase-Chosen TaskType.win_update update_task n arrived a k l update_task-Finds
          (λ j _. fresh j) v in
      let a1 = with_found one.1 a in
      let y =
        phase-Chosen TaskType.merge merge_task m arrived a1 k one.0 merge_task-Finds
          (λ j pos. absurd (omega (arith, pos))) x.windows in
      record {
        windows =
            Windows-same arrived (with_found two.1 a1) (with_found (one.1 ++ two.1) a) k two.0
              (λ j ge lt. swapped j one.1 two.1 a) y.windows;
        within =
            Within-append k (k + length l) one.1 two.1 x.within
              (subst (λ c. Within k (k + c) two.1) x.same_length y.within);
        same_length = y.same_length ∙ x.same_length;
        at_most = omega (arith, length-append one.1 two.1, x.at_most, y.at_most);
        sane = omega (arith, x.sane, y.sane, total-append odd one.1 two.1);
        taken = omega (arith, x.taken, y.taken, total-append (λ t. takes t.task_type) one.1 two.1);
      }
