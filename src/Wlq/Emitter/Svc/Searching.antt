-- ===== src/Wlq/Emitter/Svc/Searching.antt =====
-- The emitter searches for tasks, and finalized windows leave the deque.
use elastic_ppq.Common.{
  ℕ, ◌+◌, ◌≤◌, ◌<◌, ◌≡◌, refl, sym, ap, ◌∙◌, subst, inl, inr, ◌⊎◌, ℕ_discrete, List, [], ◌∷◌,
  Option, none, some, arith, length, append-nil,
}
use elastic_ppq.ResultsSet.{Derived}
use elastic_ppq.Wlq.Emitter.{Task, WinDescr, get_wtasks_to_schedule}
use elastic_ppq.Wlq.Emitter.Tasks.{pending}
use elastic_ppq.Wlq.Emitter.Svc.{WlqEmitter, drop_closed, drop_front}
use elastic_ppq.Wlq.Emitter.Svc.Choosing.{get_wtasks-Chosen}
use elastic_ppq.Wlq.Emitter.Svc.Taking.{Within, with_found, found-Same}
use elastic_ppq.Wlq.Emitter.Svc.Invariant.{IsRunning}
use elastic_ppq.Wlq.Emitter.Svc.Traffic.{
  total, takes, Traffic, Same, Closed, Closed-same, Future, Windows,
}
use elastic_ppq.Wlq.Emitter.Svc.Assigning.{at_rest}

module _ {S : Type 0} ⦃b : Derived S⦄ (num : ℕ) (arrived : ℕ → ℕ) where
  pub Future-same : (a c : Traffic S) (k : ℕ) → Same a c k → Future arrived a k → Future arrived c k
  Future-same a c k s f = record {
    none_arrived = f.none_arrived;
    sent_loads = sym s.loads ∙ f.sent_loads;
    todo_loads = sym s.next ∙ f.todo_loads;
    finals = sym s.finals ∙ f.finals;
  }

  -- The search for at most n tasks.
  pub chosen-IsRunning :
      (n : ℕ) (e : WlqEmitter S) (ws : List (Option (Task S)))
      → IsRunning num arrived e (at_rest ws)
      → let r = get_wtasks_to_schedule n e.descr_set in
        IsRunning num arrived (record e { descr_set = r.0 }) (record { sent = ws; todo = r.1 })
        × (length r.1 ≤ n)
        × (pending e.descr_set ≡ pending r.0 + total (λ t. takes t.task_type) r.1)
  chosen-IsRunning n e ws v =
      let first = e.first_win_id in
      let l = e.descr_set in
      let r = get_wtasks_to_schedule n l in
      let a = at_rest ws in
      let c : Traffic S = record { sent = ws; todo = r.1 } in
      let x = get_wtasks-Chosen n arrived a first l (λ j. refl) v.windows in
      let same : with_found r.1 a ≡ c =
        ap (λ ts. record { sent = ws; todo = ts }) (append-nil r.1) in
      let out : (j : ℕ) → (j < first) ⊎ (first + length l ≤ j) → Same a c j = λ j o.
        subst (λ z. Same a z j) same (found-Same first (first + length l) j r.1 a o x.within) in
      (
        record {
          size = v.size;
          windows = subst (λ z. Windows arrived z first r.0) same x.windows;
          past = λ k lt. Closed-same a c k (out k (inl lt)) (v.past k lt);
          future = λ k ge.
              let ge' : first + length l ≤ k = omega (arith, ge, x.same_length) in
              Future-same a c k (out k (inr ge')) (v.future k ge');
          bound = omega (arith, v.bound, x.same_length);
          tasks = omega (arith, v.tasks, x.taken);
          ready = v.ready;
          idle = v.idle;
          wide = v.wide;
          turn = v.turn;
          sane = (v.sane.0, x.sane);
          found = subst (λ m. Within first (first + m) r.1) (sym x.same_length) x.within;
        },
        x.at_most,
        x.taken,
      )

  -- The windows after the finalized ones at the front are taken off.
  record Dropped (a : Traffic S) (k : ℕ) (l : List (Option (WinDescr S)))
      (r : ℕ × List (Option (WinDescr S))) : Type 0 where
    windows : Windows arrived a r.0 r.1
    past : (j : ℕ) → j < r.0 → Closed a j
    size : r.0 + length r.1 ≡ k + length l
    count : pending r.1 ≡ pending l

  drop_closed-Dropped :
      (a : Traffic S) (k : ℕ) (l : List (Option (WinDescr S)))
      → Windows arrived a k l
      → ((j : ℕ) → j < k → Closed a j)
      → Dropped a k l (drop_closed k l)
  unfolding drop_closed
  drop_closed-Dropped a k [] v p = record { windows = tt; past = p; size = refl; count = refl }
  drop_closed-Dropped a k (some wd ∷ l) v p = record {
    windows = v;
    past = p;
    size = refl;
    count = refl;
  }
  drop_closed-Dropped a k (none ∷ l) (c, v) p =
      let x = drop_closed-Dropped a (k + 1) l v (λ j lt. elim (ℕ_discrete j k) [
        | yes e ↦ subst (Closed a) (sym e) c
        | no ne ↦ p j (omega (arith, lt, ne))
      ]) in
      record { windows = x.windows; past = x.past; size = omega (arith, x.size); count = x.count }

  pub drop_front-IsRunning :
      (e : WlqEmitter S) (ws : List (Option (Task S)))
      → IsRunning num arrived e (at_rest ws)
      → IsRunning num arrived (drop_front e) (at_rest ws)
        × (pending (drop_front e).descr_set ≡ pending e.descr_set)
  unfolding drop_front
  drop_front-IsRunning e ws v =
      let x = drop_closed-Dropped (at_rest ws) e.first_win_id e.descr_set v.windows v.past in
      (
        record {
          size = v.size;
          windows = x.windows;
          past = x.past;
          future = λ k ge. v.future k (omega (arith, ge, x.size));
          bound = omega (arith, v.bound, x.size);
          tasks = omega (arith, v.tasks, x.count);
          ready = v.ready;
          idle = v.idle;
          wide = v.wide;
          turn = v.turn;
          sane = v.sane;
          found = tt;
        },
        x.count,
      )
