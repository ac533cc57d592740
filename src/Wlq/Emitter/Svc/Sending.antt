-- ===== src/Wlq/Emitter/Svc/Sending.antt =====
-- A task is sent to a worker.
use elastic_ppq.Common.{
  ℕ, ◌+◌, ◌-◌, ◌<◌, ◌≡◌, ◌≢◌, refl, sym, ap, ◌∙◌, subst, inl, inr, Bool, false, List, Option, none,
  some, arith, get_or, set, length, length-set, get_or-set_other, get_or-set_self, get_or-set_off,
  ℕ_discrete, Bool-cases, if◌then◌else◌,
}
use elastic_ppq.ResultsSet.{Derived}
use elastic_ppq.Wlq.Pool.{send_to}
use elastic_ppq.Wlq.Emitter.{Task, WinDescr}
use elastic_ppq.Wlq.Emitter.Tasks.{pending}
use elastic_ppq.Wlq.Emitter.Svc.{WlqEmitter, send_task}
use elastic_ppq.Wlq.Emitter.Svc.Taking.{Within}
use elastic_ppq.Wlq.Emitter.Svc.Moved.{
  marked, mark-set, marked-queue, Slot-Open, before, after, takes-pos, moved, other, sent-Open,
  sent-Closed,
}
use elastic_ppq.Wlq.Emitter.Svc.Invariant.{IsRunning, local_id_lem, takes-returns}
use elastic_ppq.Wlq.Emitter.Svc.Places.{is_none, set_twice, free-set, queue, pending-set}
use elastic_ppq.Wlq.Emitter.Svc.Traffic.{
  returns, odd, Same, Closed, Closed-same, Open, Slot, Windows, Windows-at, Windows-set,
}

module _ {S : Type 0} ⦃b : Derived S⦄ (num : ℕ) (arrived : ℕ → ℕ) where
  -- What sending leaves as it was.
  pub record Sent (e e' : WlqEmitter S) : Type 0 where
    pub first : e'.first_win_id ≡ e.first_win_id
    pub size : length e'.descr_set ≡ length e.descr_set
    pub active : e'.pool.activated_worker ≡ e.pool.activated_worker
    pub eos : e'.eos_received ≡ e.eos_received
    pub ended : e'.wlq_terminated ≡ e.wlq_terminated
    pub waiting : pending e'.descr_set ≡ pending e.descr_set

  -- The windows after a task of the open window at place p is sent, and how many results sets wait.
  abbrev SentWindows :
      Task S
      → List (Task S)
      → List (Option (Task S))
      → ℕ
      → ℕ
      → ℕ
      → List (Option (WinDescr S))
      → WinDescr S
      → Bool
      → Type 0
  SentWindows t todo sent i first p l wd c =
      let l2 = set l p (some (marked t.task_type wd)) in
      let l3 = if c then set l2 p none else l2 in
      Windows arrived (after sent t todo i) first l3
      × (pending l3 ≡ pending l)
      × (length l3 ≡ length l)

  sent-Windows :
      (t : Task S) (todo : List (Task S)) (sent : List (Option (Task S))) (i first p : ℕ)
      (l : List (Option (WinDescr S))) (wd : WinDescr S)
      → i < length sent
      → get_or sent i none ≡ none
      → p < length l
      → t.win_id ≡ first + p
      → get_or l p none ≡ some wd
      → Open arrived (before sent t todo) t.win_id wd
      → Windows arrived (before sent t todo) first l
      → SentWindows t todo sent i first p l wd t.finalize
  sent-Windows t todo sent i first p l wd lt nothing inside at e o ws =
      let a = before sent t todo in
      let c = after sent t todo i in
      let wd2 = marked t.task_type wd in
      let l2 = set l p (some wd2) in
      let q = ap length (marked-queue t.task_type wd) in
      let count = pending-set l p (some wd2) inside in
      let was = ap queue e in
      let same : (j : ℕ) → j ≢ first + p → Same a c j =
        λ j ne. other sent t i lt nothing todo j (λ z. ne (z ∙ at)) in
      let size = length-set l p (some wd2) in
      elim (Bool-cases t.finalize) [
        | inr f ↦ subst (SentWindows t todo sent i first p l wd) (sym f) (
          Windows-set arrived a c first p (some wd2) l same
              (subst (λ j. Open arrived c j wd2) at
                (sent-Open arrived sent t todo i lt nothing wd f o))
              ws,
          omega (arith, count, was, q),
          size,
        )
        | inl f ↦
            let (closed, empty) = sent-Closed arrived sent t todo i lt nothing wd f o in
            let inside2 : p < length l2 = omega (arith, inside, size) in
            let count2 = pending-set l2 p none inside2 in
            let was2 = ap queue (get_or-set_self l p (some wd2) none inside) in
            subst (SentWindows t todo sent i first p l wd) (sym f) (
              subst (Windows arrived c first) (sym (set_twice l p (some wd2) none)) (
                  Windows-set arrived a c first p none l same (subst (λ j. Closed c j) at closed)
                    ws),
              omega (arith, count, was, q, count2, was2, empty),
              length-set l2 p none ∙ size,
            )
      ]

  pub send_task-IsRunning :
      (e : WlqEmitter S) (sent : List (Option (Task S))) (t : Task S) (todo : List (Task S)) (i : ℕ)
      → IsRunning num arrived e (before sent t todo)
      → i < num
      → get_or sent i none ≡ none
      → (e' : WlqEmitter S) × (send_task t i e ≡ some e')
        × (e'.pool ≡ send_to e.pool i)
        × Sent e e'
        × IsRunning num arrived e' (after sent t todo i)
  unfolding send_task send_to
  send_task-IsRunning e sent t todo i v lt nothing =
      let l = e.descr_set in
      let first = e.first_win_id in
      let (from, to) = v.found.0 in
      let p : ℕ = t.win_id - first in
      let inside : p < length l = omega (arith, from, to) in
      let at : t.win_id ≡ first + p = omega (arith, from) in
      let lt' : i < length sent = omega (arith, lt, v.size) in
      let slot =
        subst (λ j. Slot arrived (before sent t todo) j (get_or l p none)) (sym at)
          (Windows-at arrived (before sent t todo) first p l v.windows inside) in
      let (wd, g, o) =
        Slot-Open arrived (before sent t todo) t.win_id (get_or l p none) slot
          (omega (arith, takes-pos t)) in
      let (w1, w2, w3) =
        sent-Windows t todo sent i first p l wd lt' nothing inside at g o v.windows in
      let l2 = set l p (some (marked t.task_type wd)) in
      let l3 = if t.finalize then set l2 p none else l2 in
      let place = local_id_lem first t.win_id from (omega (arith, to, v.bound)) in
      let e' : WlqEmitter S = record e {
        descr_set = l3;
        pool = send_to e.pool i;
        n_pendingtasks = e.n_pendingtasks - 1;
      } in
      let same : (j : ℕ) → j ≢ t.win_id → Same (before sent t todo) (after sent t todo i) j =
        other sent t i lt' nothing todo in
      (
        e',
        rw place (rw (mark-set t.task_type p l wd inside g) refl),
        refl,
        record { first = refl; size = w3; active = refl; eos = refl; ended = refl; waiting = w2 },
        record {
          size = length-set sent i (some t) ∙ v.size;
          windows = w1;
          past = λ k ge.
              Closed-same (before sent t todo) (after sent t todo i) k
                (same k (λ z. omega (arith, z, ge, from))) (v.past k ge);
          future = λ k ge.
              let f = v.future k (omega (arith, ge, w3)) in
              let s = same k (λ z. omega (arith, z, ge, to, w3)) in
              record {
                none_arrived = f.none_arrived;
                sent_loads = sym s.loads ∙ f.sent_loads;
                todo_loads = sym s.next ∙ f.todo_loads;
                finals = sym s.finals ∙ f.finals;
              };
          bound = omega (arith, v.bound, w3);
          tasks = omega (
            arith,
            v.tasks,
            w2,
            takes-returns t.task_type,
            moved sent t i lt' nothing (λ u. returns u.task_type),
          );
          ready = omega (arith, v.ready, free-set sent i t lt' nothing);
          idle = λ j less. elim (ℕ_discrete j i) [
            | yes z ↦
                subst
                  (λ y.
                    get_or (set e.pool.worker_ready i false) y false
                    ≡ is_none (get_or (set sent i (some t)) y none))
                  (sym z)
                  (get_or-set_off e.pool.worker_ready i
                    ∙ sym (ap is_none (get_or-set_self sent i (some t) none lt')))
            | no ne ↦
                get_or-set_other e.pool.worker_ready i j false false ne
                ∙ v.idle j less
                ∙ sym (ap is_none (get_or-set_other sent i j (some t) none ne))
          ];
          wide = length-set e.pool.worker_ready i false ∙ v.wide;
          turn = v.turn;
          sane = (
            omega (arith, moved sent t i lt' nothing odd, v.sane.0, v.sane.1),
            omega (arith, v.sane.1),
          );
          found = subst (λ n. Within first (first + n) todo) (sym w3) v.found.1;
        },
      )
