-- ===== src/Wlq/Emitter/Svc/Feeding.antt =====
-- A worker returns its task, and may get another one.
use elastic_ppq.Common.{
  ℕ, ◌+◌, ◌≤◌, ◌≢◌, ◌⊎◌, ◌<◌, ◌≡◌, refl, sym, ap, ◌∙◌, subst, inl, inr, true, false, List, [], ◌∷◌,
  Option, none, some, arith, get_or, set, length, length-set, get_or-set_self, get_or-set_other,
  ℕ_discrete, Bool-cases,
}
use elastic_ppq.ResultsSet.{Derived}
use elastic_ppq.Wlq.Pool.{worker_back}
use elastic_ppq.Wlq.Emitter.{Task, get_wtasks_to_schedule}
use elastic_ppq.Wlq.Emitter.Tasks.{pending}
use elastic_ppq.Wlq.Emitter.Svc.{WlqEmitter, send_one, terminate, handle_feedback}
use elastic_ppq.Wlq.Emitter.Svc.Assigning.{at_rest, hand_out, Handed, Handed-none, Handed-more}
use elastic_ppq.Wlq.Emitter.Svc.Searching.{Future-same, chosen-IsRunning}
use elastic_ppq.Wlq.Emitter.Svc.Commands.{}
use elastic_ppq.Wlq.Emitter.Svc.Places.{is_none, set_twice, free, free-set, free-most}
use elastic_ppq.Wlq.Emitter.Svc.Back.{free-back, gone}
use elastic_ppq.Wlq.Emitter.Svc.Returning.{done-IsRunning}
use elastic_ppq.Wlq.Emitter.Svc.Invariant.{IsRunning, takes-returns}
use elastic_ppq.Wlq.Emitter.Svc.Sending.{send_task-IsRunning}
use elastic_ppq.Wlq.Emitter.Svc.Traffic.{
  held, of_maybe, load, live, final, odd, updating, takes, returns, Same, Closed-same, Windows-same,
}
use elastic_ppq.Wlq.Emitter.Svc.Measures.{held-set}
use elastic_ppq.Wlq.Emitter.Svc.Settling.{none_found-pending}

-- The results sets that are not worked off: those that wait, and those that a task has taken.
abbrev pub remaining : {S : Type 0} → WlqEmitter S → List (Option (Task S)) → ℕ
remaining e ws = pending e.descr_set + held (λ t. takes t.task_type) ws

module _ {S : Type 0} ⦃b : Derived S⦄ (num : ℕ) (arrived : ℕ → ℕ) where
  send_one-Handed :
      (ts : List (Task S)) (w : ℕ) (e : WlqEmitter S) (ws : List (Option (Task S)))
      → IsRunning num arrived e (record { sent = ws; todo = ts })
      → length ts ≤ 1
      → w < num
      → get_or ws w none ≡ none
      → get_or e.pool.activated_worker w false ≡ true
      → (r : WlqEmitter S × List (ℕ × Task S)) × (send_one w ts e ≡ some r)
        × Handed num arrived e ws ts r
  unfolding send_one
  send_one-Handed [] w e ws v le lt nothing on = ((e, []), refl, Handed-none num arrived e ws v)
  send_one-Handed (t ∷ []) w e ws v le lt nothing on =
      let (e', f, _, s, v') = send_task-IsRunning num arrived e ws t [] w v lt nothing in
      (
        (e', (w, t) ∷ []),
        rw f refl,
        Handed-more num arrived e e' ws t [] w (e', []) (omega (arith, lt, v.size)) nothing on s
            (Handed-none num arrived e' (set ws w (some t)) v'),
      )
  send_one-Handed (t ∷ u ∷ ts) w e ws v le lt nothing on = absurd (omega (arith, le))

  -- The worker of a MERGE task returns it with the merged results set.
  merged-IsRunning :
      (e : WlqEmitter S) (ws : List (Option (Task S))) (w : ℕ) (t : Task S) (m : S)
      → IsRunning num arrived e (at_rest ws)
      → w < num
      → get_or ws w none ≡ some t
      → IsRunning num arrived e (at_rest (set ws w (some (record t { p1 = m }))))
  unfolding load live final odd updating
  merged-IsRunning e ws w t m v lt has =
      let u : Task S = record t { p1 = m } in
      let c = at_rest (set ws w (some u)) in
      let inside : w < length ws = omega (arith, lt, v.size) in
      let equal : (f : Task S → ℕ) → f u ≡ f t → held f ws ≡ held f (set ws w (some u)) =
        λ f q. omega (arith, held-set f ws w (some u) inside, ap (of_maybe f) has, q) in
      let same : (k : ℕ) → Same (at_rest ws) c k = λ k. record {
        loads = equal (load k) refl;
        lives = equal (live k) refl;
        finals = equal (final k) refl;
        next = refl;
        last = refl;
        updates = equal (updating k) refl;
        next_updates = refl;
      } in
      let fewer = free-back ws w t inside has in
      let gone : w < length (set ws w none) = omega (arith, inside, length-set ws w none) in
      let again = free-set (set ws w none) w u gone (get_or-set_self ws w none none inside) in
      record {
        size = length-set ws w (some u) ∙ v.size;
        windows =
            Windows-same arrived (at_rest ws) c e.first_win_id e.descr_set (λ j _ _. same j)
              v.windows;
        past = λ k less. Closed-same (at_rest ws) c k (same k) (v.past k less);
        future = λ k ge. Future-same num arrived (at_rest ws) c k (same k) (v.future k ge);
        bound = v.bound;
        tasks = omega (arith, v.tasks, equal (λ x. returns x.task_type) refl);
        ready = omega (arith, v.ready, fewer, again, ap free (set_twice ws w none (some u)));
        idle = λ j less. elim (ℕ_discrete j w) [
          | yes z ↦
              v.idle j less
              ∙ ap (λ y. is_none (get_or ws y none)) z
              ∙ ap is_none has
              ∙ sym (ap is_none (get_or-set_self ws w (some u) none inside))
              ∙ sym (ap (λ y. is_none (get_or (set ws w (some u)) y none)) z)
          | no ne ↦ v.idle j less ∙ sym (ap is_none (get_or-set_other ws w j (some u) none ne))
        ];
        wide = v.wide;
        turn = v.turn;
        sane = (omega (arith, v.sane.0, equal odd refl), refl);
        found = tt;
      }

  -- Who has a task after one was returned had it before.
  still :
      (ws : List (Option (Task S))) (w j : ℕ)
      → w < length ws
      → get_or (set ws w none) j none ≢ none
      → get_or ws j none ≢ none
  still ws w j lt h = elim (ℕ_discrete j w) [
    | yes e ↦
        absurd (h (ap (λ x. get_or (set ws w none) x none) e ∙ get_or-set_self ws w none none lt))
    | no ne ↦ λ z. h (get_or-set_other ws w j none none ne ∙ z)
  ]

  -- What holds after the feedback of worker w, before the end is checked: a task more is worked off.
  pub record Fed (e : WlqEmitter S) (ws : List (Option (Task S))) (w : ℕ) (s : WlqEmitter S)
      (ws' : List (Option (Task S))) : Type 0 where
    pub running : IsRunning num arrived s (at_rest ws')
    pub active : s.pool.activated_worker ≡ e.pool.activated_worker
    pub eos : s.eos_received ≡ e.eos_received
    pub ended : s.wlq_terminated ≡ e.wlq_terminated
    pub one_less : remaining s ws' + 1 ≡ remaining e ws
    pub given :
        (j : ℕ)
        → get_or ws' j none ≢ none
        → (get_or ws j none ≢ none) ⊎ (get_or e.pool.activated_worker j false ≡ true)
    pub settled :
        get_or e.pool.activated_worker w false ≡ true → free ws' ≡ num → pending s.descr_set ≡ 0

  -- The worker is still activated, and may get a task.
  feed_more :
      (e back : WlqEmitter S) (ws ws0 : List (Option (Task S))) (w : ℕ)
      → IsRunning num arrived back (at_rest ws0)
      → w < num
      → get_or ws0 w none ≡ none
      → get_or back.pool.activated_worker w false ≡ true
      → let q = get_wtasks_to_schedule 1 back.descr_set in
        (r : WlqEmitter S × List (ℕ × Task S)) × (send_one w q.1 (record back { descr_set = q.0 })
          ≡ some r)
        × Handed num arrived (record back { descr_set = q.0 }) ws0 q.1 r
        × (remaining r.0 (hand_out r.1 ws0) ≡ remaining back ws0)
        × (free (hand_out r.1 ws0) ≡ num → pending r.0.descr_set ≡ 0)
  feed_more e back ws ws0 w v lt nothing on =
      let q = get_wtasks_to_schedule 1 back.descr_set in
      let (vq, le, taken) = chosen-IsRunning num arrived 1 back ws0 v in
      let (r, f, h) =
        send_one-Handed q.1 w (record back { descr_set = q.0 }) ws0 vq le lt nothing on in
      let waiting = h.sent.waiting in
      let most = free-most ws0 in
      (
        r,
        f,
        h,
        omega (arith, waiting, taken, h.more),
        λ all. omega (
          arith,
          waiting,
          taken,
          none_found-pending num arrived 1 back ws0 v (omega arith)
              (omega (arith, all, h.fewer, most, v.size))
              (omega (arith, all, h.fewer, most, v.size)),
        ),
      )

  pub handle_feedback-Fed :
      (e : WlqEmitter S) (ws : List (Option (Task S))) (w : ℕ) (t : Task S) (m : S)
      → IsRunning num arrived e (at_rest ws)
      → w < num
      → get_or ws w none ≡ some t
      → (s : WlqEmitter S) × (out : List (ℕ × Task S)) × (handle_feedback num w
            (record t { p1 = m })
            e
          ≡ some (terminate num s, out))
        × Fed e ws w s (hand_out out (set ws w none))
  unfolding handle_feedback worker_back
  handle_feedback-Fed e ws w t m v0 lt has =
      let u : Task S = record t { p1 = m } in
      let ws0 = set ws w none in
      let ws1 = set ws w (some u) in
      let inside : w < length ws = omega (arith, lt, v0.size) in
      let v1 = merged-IsRunning e ws w t m v0 lt has in
      let (l, f, v2, count) =
        done-IsRunning num arrived e ws1 v1 w u lt (get_or-set_self ws w (some u) none inside) in
      let back : WlqEmitter S = record e { descr_set = l; pool = worker_back e.pool w } in
      let v : IsRunning num arrived back (at_rest ws0) =
        subst (λ z. IsRunning num arrived back (at_rest z)) (set_twice ws w (some u) none) v2 in
      let less : remaining back ws0 + 1 ≡ remaining e ws = omega (
        arith,
        count,
        gone ws w t inside has (λ x. takes x.task_type),
        takes-returns t.task_type,
      ) in
      elim (Bool-cases (get_or e.pool.activated_worker w false)) [
        | inl on ↦
            let (r, h, x, same, settled) =
              feed_more e back ws ws0 w v lt (get_or-set_self ws w none none inside) on in
            (
              r.0,
              r.1,
              rw f (rw on (rw h refl)),
              record {
                running = x.running;
                active = x.sent.active;
                eos = x.sent.eos;
                ended = x.sent.ended;
                one_less = omega (arith, same, less);
                given = λ j g. elim (x.given j g) [
                  | inl y ↦ inl (still ws w j inside y)
                  | inr y ↦ inr y
                ];
                settled = λ _ all. settled all;
              },
            )
        | inr off ↦ (
          back,
          [],
          rw f (rw off refl),
          record {
            running = v;
            active = refl;
            eos = refl;
            ended = refl;
            one_less = less;
            given = λ j g. inl (still ws w j inside g);
            settled = λ on all. absurd (cc);
          },
        )
      ]
