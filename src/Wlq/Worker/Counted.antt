-- ===== src/Wlq/Worker/Counted.antt =====
-- The tasks of a WLQ worker, and the counters and contents of the objects that they use.
use mathlib.Core.Option.{some-injective}
use elastic_ppq.Common.{
  ℕ, ◌+◌, ◌<◌, ◌≡◌, ◌≢◌, refl, sym, ap, ◌∙◌, subst, Bool, true, false, ◌&&◌, ◌↔◌, List, [], ◌++◌,
  none, some, arith, ℕ_discrete, ◌==◌, if◌then◌else◌,
}
use elastic_ppq.ResultsSet.{Derived, ResultsSet, IsResultsSet}
use elastic_ppq.Rset
use elastic_ppq.Query.TData.{Row}
use elastic_ppq.Wlq.Emitter.{TaskType, Task}
use elastic_ppq.Wlq.Worker.{Store, put, WlqWorker, Outcome, add_set, execute, is_update, svc}
use elastic_ppq.Wlq.Worker.Uses.{without, IsCounted, put_self, put_other, release-IsCounted}

-- A new object with one use.
abbrev pub with_new : ℕ → (ℕ → ℕ) → ℕ → ℕ
with_new r uses q = if q == r then 1 else uses q

-- The uses after a task is executed: of the new object, and of those that the task was the user of.
abbrev pub uses_after : TaskType → ℕ → ℕ → ℕ → (ℕ → ℕ) → ℕ → ℕ
uses_after TaskType.win_update p1 p2 p3 uses = without p2 uses
uses_after TaskType.merge p1 p2 p3 uses = without p2 (without p1 (with_new p3 uses))

module _ {W S : Type 0} ⦃b : Derived S⦄ ⦃m : ResultsSet W S⦄ {Rep : S → List (Row W) → Type 0}
    (law : IsResultsSet Rep)
    (same_refs : (s u : S) (now : ℕ)
      → (b.base (m.add_compute_set s u now)).ref_counter ≡ (b.base s).ref_counter) where
  -- Object r has a result of the tuples xs.
  abbrev pub Has : Store S → ℕ → List (Row W) → Type 0
  Has st r xs = (s : S) × (st.cell r ≡ some s) × Rep s xs

  record Added (uses : ℕ → ℕ) (p1 p2 : ℕ) (st st' : Store S) : Type 0 where
    counted : IsCounted uses st'
    content : (xs ys : List (Row W)) → Has st p1 xs → Has st p2 ys → Has st' p1 (xs ++ ys)
    others : (q : ℕ) → q ≢ p1 → st'.cell q ≡ st.cell q
    next : st'.next ≡ st.next

  add_set-Added :
      (now : ℕ) (uses : ℕ → ℕ) (p1 p2 : ℕ) (st : Store S)
      → IsCounted uses st
      → 0 < uses p1
      → 0 < uses p2
      → (st' : Store S) × (add_set W now p1 p2 st ≡ some st') × Added uses p1 p2 st st'
  unfolding add_set
  add_set-Added now uses p1 p2 st v pos1 pos2 =
      let (s1, at1, c1) = v.live p1 pos1 in
      let (s2, at2, c2) = v.live p2 pos2 in
      let s = m.add_compute_set s1 s2 now in
      let st' = put p1 (some s) st in
      (
        st',
        rw at1 (rw at2 refl),
        record {
          counted = record {
            live = λ q pos. elim (ℕ_discrete q p1) [
              | yes e ↦ (
                s,
                ap st'.cell e ∙ put_self p1 (some s) st,
                same_refs s1 s2 now ∙ c1 ∙ sym (ap uses e),
              )
              | no ne ↦ let (u, at, c) = v.live q pos in (u, put_other p1 q (some s) st ne ∙ at, c)
            ];
            fresh = v.fresh;
            small = v.small;
          };
          content = λ xs ys (u1, a1, r1) (u2, a2, r2).
              let e1 : u1 ≡ s1 = some-injective u1 s1 (sym a1 ∙ at1) in
              let e2 : u2 ≡ s2 = some-injective u2 s2 (sym a2 ∙ at2) in
              (
                s,
                put_self p1 (some s) st,
                law.Rep-add_compute_set s1 s2 now xs ys (subst (λ z. Rep z xs) e1 r1)
                    (subst (λ z. Rep z ys) e2 r2),
              );
          others = λ q ne. put_other p1 q (some s) st ne;
          next = refl;
        },
      )

  Has-same :
      (st st' : Store S) (r : ℕ) (xs : List (Row W))
      → st'.cell r ≡ st.cell r
      → Has st r xs
      → Has st' r xs
  Has-same st st' r xs e (s, at, h) = (s, e ∙ at, h)

  new-IsCounted :
      (uses : ℕ → ℕ) (st : Store S)
      → IsCounted uses st
      → IsCounted
          (with_new st.next uses)
          (put st.next (some (m.create 1 0 1)) (record st { next = st.next + 1 }))
  unfolding Rset.create
  new-IsCounted uses st v =
      let o = some (m.create 1 0 1) in
      let st0 : Store S = record st { next = st.next + 1 } in
      record {
        live = λ q pos. elim (ℕ_discrete q st.next) [
          | yes e ↦ (
            m.create 1 0 1,
            ground (arith, e),
            ap (λ z. z.ref_counter) (law.base-create 1 0 1) ∙ ground (arith, e),
          )
          | no ne ↦
              let same : with_new st.next uses q ≡ uses q = ground (arith, ne) in
              let (s, at, c) = v.live q (omega (arith, pos, same)) in
              (s, put_other st.next q o st0 ne ∙ at, c ∙ sym same)
        ];
        fresh = λ q ge. ground (arith, ge, v.fresh q (omega (arith, ge)));
        small = λ q. ground (arith, v.small q);
      }

  -- What the execution of a task comes to.
  pub record Executed (c : TaskType) (p1 p2 : ℕ) (uses : ℕ → ℕ) (st : Store S) (r : Store S × ℕ)
      : Type 0 where
    pub counted : IsCounted (uses_after c p1 p2 st.next uses) r.0
    pub content : (xs ys : List (Row W)) → Has st p1 xs → Has st p2 ys → Has r.0 r.1 (xs ++ ys)
    pub others : (q : ℕ) → q ≢ p1 → q ≢ p2 → q < st.next → r.0.cell q ≡ st.cell q

  execute-Executed :
      (now : ℕ) (c : TaskType) (uses : ℕ → ℕ) (p1 p2 : ℕ) (st : Store S)
      → IsCounted uses st
      → 0 < uses p1
      → 0 < uses p2
      → p1 ≢ p2
      → (r : Store S × ℕ) × (execute W now c p1 p2 st ≡ some r) × Executed c p1 p2 uses st r
  unfolding execute
  execute-Executed now TaskType.win_update uses p1 p2 st v pos1 pos2 ne =
      let (st1, e1, x1) = add_set-Added now uses p1 p2 st v pos1 pos2 in
      let (st2, e2, v2, same, _) = release-IsCounted law.derived uses p2 st1 x1.counted pos2 in
      (
        (st2, p1),
        rw e1 (rw e2 refl),
        record {
          counted = v2;
          content =
              λ xs ys h1 h2. Has-same st1 st2 p1 (xs ++ ys) (same p1 ne) (x1.content xs ys h1 h2);
          others = λ q ne1 ne2 lt. same q ne2 ∙ x1.others q ne1;
        },
      )
  execute-Executed now TaskType.merge uses p1 p2 st v pos1 pos2 ne =
      let p3 = st.next in
      let u0 = with_new p3 uses in
      let o = some (m.create 1 0 1) in
      let st00 : Store S = record st { next = p3 + 1 } in
      let st0 = put p3 o st00 in
      let v0 : IsCounted u0 st0 = new-IsCounted uses st v in
      let none3 = v.fresh p3 (omega arith) in
      let ne1 : p1 ≢ p3 = λ e. omega (arith, pos1, none3, ap uses e) in
      let ne2 : p2 ≢ p3 = λ e. omega (arith, pos2, none3, ap uses e) in
      let pos3 : 0 < u0 p3 = ground arith in
      let l1 : 0 < u0 p1 = ground (arith, ne1, pos1) in
      let l2 : 0 < u0 p2 = ground (arith, ne2, pos2) in
      let (st1, e1, x1) = add_set-Added now u0 p3 p1 st0 v0 pos3 l1 in
      let (st2, e2, x2) = add_set-Added now u0 p3 p2 st1 x1.counted pos3 l2 in
      let (st3, e3, v3, same3, _) = release-IsCounted law.derived u0 p1 st2 x2.counted l1 in
      let u1 = without p1 u0 in
      let ne' : p2 ≢ p1 = λ e. ne (sym e) in
      let l2' : 0 < u1 p2 = ground (arith, l2, ne') in
      let (st4, e4, v4, same4, _) = release-IsCounted law.derived u1 p2 st3 v3 l2' in
      (
        (st4, p3),
        rw e1 (rw e2 (rw e3 (rw e4 refl))),
        record {
          counted = v4;
          content = λ xs ys h1 h2.
              let empty : Has st0 p3 [] =
                (m.create 1 0 1, put_self p3 o st00, law.Rep-create 1 0 1) in
              let one =
                x1.content [] xs empty (Has-same st st0 p1 xs (put_other p3 p1 o st00 ne1) h1) in
              let two =
                x2.content xs ys one
                  (Has-same st st1 p2 ys (x1.others p2 ne2 ∙ put_other p3 p2 o st00 ne2) h2) in
              Has-same st2 st4 p3 (xs ++ ys)
                (same4 p3 (λ e. ne2 (sym e)) ∙ same3 p3 (λ e. ne1 (sym e))) two;
          others = λ q n1 n2 lt.
              let n3 : q ≢ p3 = λ e. omega (arith, lt, e) in
              same4 q n2 ∙ same3 q n1 ∙ x2.others q n3 ∙ x1.others q n3 ∙ put_other p3 q o st00 n3;
        },
      )

  -- Where every object that is still to be used is there with the number of its uses as its counter, a
  -- task on two different objects is executed without a use of a deleted object, and the same holds
  -- afterwards of the uses that are left. The task goes back with a results set of the tuples of both,
  -- the other objects are as before, and the results set goes to the collector exactly if the task
  -- finalizes a window.
  pub svc-Executed :
      (now : ℕ) (t : Task ℕ) (w : WlqWorker) (uses : ℕ → ℕ) (st : Store S)
      → IsCounted uses st
      → 0 < uses t.p1
      → 0 < uses t.p2
      → t.p1 ≢ t.p2
      → (r : Outcome S) × (svc W now t w st ≡ some r)
        × Executed t.task_type t.p1 t.p2 uses st (r.store, r.back.p1)
        × ((r.result ≡ some r.back.p1) ↔ (t.task_type ≡ TaskType.win_update) × (t.finalize ≡ true))
  unfolding svc is_update
  svc-Executed now t w uses st v pos1 pos2 ne =
      let (r, e, x) = execute-Executed now t.task_type uses t.p1 t.p2 st v pos1 pos2 ne in
      let last = is_update t.task_type && t.finalize in
      (
        record {
          worker = record {
            rcv_wtasks = w.rcv_wtasks + 1;
            rcv_win_finalized = if last then w.rcv_win_finalized + 1 else w.rcv_win_finalized;
          };
          store = r.0;
          back = record t { p1 = r.1 };
          result = if last then some r.1 else none;
        },
        rw e refl,
        x,
        sent t.task_type t.finalize r.1,
      )
    where
      sent :
          (c : TaskType) (f : Bool) (p : ℕ)
          → ((if is_update c && f then some p else none) ≡ some p)
            ↔ (c ≡ TaskType.win_update) × (f ≡ true)
      sent TaskType.win_update true p = (λ _. (refl, refl), λ _. refl)
      sent TaskType.win_update false p = (λ e. absurd (cc), λ (a, e). absurd (cc))
      sent TaskType.merge f p = (λ e. absurd (cc), λ (a, e). absurd (cc))
