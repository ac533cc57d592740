-- ===== src/Wlq/Emitter/Svc/Draining.antt =====
-- The end of the WLQ stage: from the last EOS on, the emitter gets the feedback of its workers only.
use mathlib.Core.Option.{some-injective}
use elastic_ppq.Common.{
  ℕ, suc, ◌+◌, ◌<◌, ◌≡◌, refl, sym, ◌∙◌, subst, inl, inr, ◌↔◌, true, false, ◌&&◌, List, [], ◌∷◌,
  Option, none, some, arith, get_or, set, length, ◌==◌, Bool-cases, ℕ_discrete,
}
use elastic_ppq.ResultsSet.{Derived}
use elastic_ppq.Wlq.Pool.{check_termination}
use elastic_ppq.Wlq.Emitter.{TaskType, Task}
use elastic_ppq.Wlq.Emitter.Svc.{WlqEmitter, terminate, eosnotify, handle_feedback}
use elastic_ppq.Wlq.Emitter.Svc.Assigning.{at_rest, hand_out}
use elastic_ppq.Wlq.Emitter.Svc.Commands.{IsRunning-pool, terminate-IsRunning}
use elastic_ppq.Wlq.Emitter.Svc.Feeding.{remaining, handle_feedback-Fed}
use elastic_ppq.Wlq.Emitter.Svc.Places.{free, free-most, free-held}
use elastic_ppq.Wlq.Emitter.Svc.Invariant.{IsRunning}
use elastic_ppq.Wlq.Emitter.Svc.Steady.{IsSteady, terminate-IsSteady, Fed-IsSteady}
use elastic_ppq.Wlq.Emitter.Svc.Traffic.{held, takes, returns}

module _ {S : Type 0} where
  returns-takes :
      (ws : List (Option (Task S)))
      → held (λ t. returns t.task_type) ws + length ws ≡ held (λ t. takes t.task_type) ws + free ws
  returns-takes [] = refl
  returns-takes (none ∷ ws) = omega (arith, returns-takes ws)
  returns-takes (some t ∷ ws) = omega (arith, returns-takes ws, one t.task_type)
    where
      one : (c : TaskType) → returns c + 1 ≡ takes c
      one TaskType.win_update = refl
      one TaskType.merge = refl

  busy_worker :
      (ws : List (Option (Task S)))
      → free ws < length ws
      → (w : ℕ) × (t : Task S) × (w < length ws) × (get_or ws w none ≡ some t)
  busy_worker [] lt = absurd (omega (arith, lt))
  busy_worker (none ∷ ws) lt =
      let (w, t, less, has) = busy_worker ws (omega (arith, lt)) in
      (suc w, t, omega (arith, less), has)
  busy_worker (some t ∷ ws) lt = (0, t, omega arith, refl)

module _ {S : Type 0} ⦃b : Derived S⦄ (num : ℕ) where
  -- n tasks come back one after another, each from a worker that has it, a MERGE task with another
  -- first results set; the emitter hands out what it finds.
  pub data Drains
      : ℕ
        → WlqEmitter S
        → List (Option (Task S))
        → WlqEmitter S
        → List (Option (Task S))
        → Type 0 where
    nothing : (e : WlqEmitter S) (ws : List (Option (Task S))) → Drains 0 e ws e ws
    returned :
        (n : ℕ) (e : WlqEmitter S) (ws : List (Option (Task S))) (w : ℕ) (t : Task S) (m : S)
        (r : WlqEmitter S × List (ℕ × Task S)) (e' : WlqEmitter S) (ws' : List (Option (Task S)))
        → w < num
        → get_or ws w none ≡ some t
        → handle_feedback num w (record t { p1 = m }) e ≡ some r
        → Drains n r.0 (hand_out r.1 (set ws w none)) e' ws'
        → Drains (suc n) e ws e' ws'

module _ {S : Type 0} ⦃b : Derived S⦄ (num : ℕ) (arrived : ℕ → ℕ) where
  -- All EOS have come, and the emitter has propagated the EOS exactly if nothing remains.
  record Ending (e : WlqEmitter S) (ws : List (Option (Task S))) : Type 0 where
    running : IsRunning num arrived e (at_rest ws)
    steady : IsSteady num e ws
    eos : e.eos_received ≡ num
    ended : (e.wlq_terminated ≡ true) ↔ (remaining e ws ≡ 0)

  terminate-ended :
      (e : WlqEmitter S) (ws : List (Option (Task S)))
      → IsRunning num arrived e (at_rest ws)
      → e.eos_received ≡ num
      → e.wlq_terminated ≡ false
      → ((terminate num e).wlq_terminated ≡ true) ↔ (remaining e ws ≡ 0)
  unfolding terminate check_termination
  terminate-ended e ws v eos no_end =
      let both = returns-takes ws in
      let most = free-most ws in
      let done =
        (e.eos_received == num) && (e.n_pendingtasks == 0) && (e.pool.n_ready_workers == num) in
      let none_held : free ws ≡ length ws → held (λ t. takes t.task_type) ws ≡ 0 =
        λ all. free-held (λ t. takes t.task_type) ws all in
      elim (Bool-cases done) [
        | inl d ↦ rw d (
          λ _.
              let empty : e.n_pendingtasks ≡ 0 = ground (arith, d) in
              omega (arith, none_held (ground (arith, d, v.ready, v.size)), v.tasks, empty),
          λ _. refl,
        )
        | inr d ↦ rw d (
          λ t. absurd (cc),
          λ z. absurd (ground (arith, d, eos, v.tasks, v.ready, v.size, both, most, z)),
        )
      ]

  terminate-Ending :
      (e : WlqEmitter S) (ws : List (Option (Task S)))
      → IsRunning num arrived e (at_rest ws)
      → IsSteady num e ws
      → e.eos_received ≡ num
      → e.wlq_terminated ≡ false
      → Ending (terminate num e) ws
  unfolding terminate
  terminate-Ending e ws v y eos no_end = record {
    running = (terminate-IsRunning num arrived e ws v).0;
    steady = terminate-IsSteady num e ws y;
    eos = eos;
    ended = terminate-ended e ws v eos no_end;
  }

  drain-Ending :
      (n : ℕ) (e : WlqEmitter S) (ws : List (Option (Task S))) (e' : WlqEmitter S)
      (ws' : List (Option (Task S)))
      → Drains num n e ws e' ws'
      → Ending e ws
      → Ending e' ws' × (n + remaining e' ws' ≡ remaining e ws)
  unfolding terminate
  drain-Ending _ _ _ _ _ (Drains.nothing e ws) v = (v, omega arith)
  drain-Ending _ _ _ _ _ (Drains.returned n e ws w t m r e' ws' lt has g d) v =
      let (s, out, f, x) = handle_feedback-Fed num arrived e ws w t m v.running lt has in
      let same : (terminate num s, out) ≡ r = some-injective _ _ (sym f ∙ g) in
      let ws0 = hand_out out (set ws w none) in
      let open_still : s.wlq_terminated ≡ false = elim (Bool-cases s.wlq_terminated) [
        | inl h ↦ absurd (omega (arith, x.one_less, v.ended.0 (sym x.ended ∙ h)))
        | inr h ↦ h
      ] in
      let next : Ending r.0 (hand_out r.1 (set ws w none))
          × (remaining r.0 (hand_out r.1 (set ws w none)) + 1 ≡ remaining e ws) =
        subst
          (λ z.
            Ending z.0 (hand_out z.1 (set ws w none))
            × (remaining z.0 (hand_out z.1 (set ws w none)) + 1 ≡ remaining e ws))
          same
          (
            terminate-Ending s ws0 x.running
                (Fed-IsSteady num arrived e s ws ws0 w v.steady (λ z. cc) x) (x.eos ∙ v.eos)
                open_still,
            x.one_less,
          ) in
      let (w', q) = drain-Ending n r.0 (hand_out r.1 (set ws w none)) e' ws' d next.0 in
      (w', omega (arith, q, next.1))

  -- While something remains a worker has a task, and its return is handled without an abort.
  next_return :
      (e : WlqEmitter S) (ws : List (Option (Task S)))
      → Ending e ws
      → 0 < remaining e ws
      → (w : ℕ) × (t : Task S) × (w < num)
        × (get_or ws w none ≡ some t)
        × ((m : S)
            → (r : WlqEmitter S × List (ℕ × Task S)) × (handle_feedback num w
                  (record t { p1 = m })
                  e
                ≡ some r))
  next_return e ws v pos = elim (ℕ_discrete (free ws) num) [
    | yes all ↦ absurd (
        omega (
          arith,
          pos,
          v.steady.settled all,
          free-held (λ t. takes t.task_type) ws (all ∙ sym v.running.size),
        ))
    | no ne ↦
        let (w, t, lt, has) = busy_worker ws (omega (arith, ne, free-most ws, v.running.size)) in
        let less : w < num = omega (arith, lt, v.running.size) in
        (
          w,
          t,
          less,
          has,
          λ m.
              let (s, out, f, x) = handle_feedback-Fed num arrived e ws w t m v.running less has in
              ((terminate num s, out), f),
        )
  ]

  -- Let the emitter get the last EOS while it fits the tasks of its workers and leaves no results set to
  -- wait without need, and let n tasks come back after it. Then there are n results sets fewer to work
  -- off; while any remain a worker has a task, and its return is handled without an abort; and the EOS
  -- is propagated exactly if none remain. So the stage ends with as many returns as results sets remained
  -- at the last EOS.
  pub Drains-terminated :
      (e : WlqEmitter S) (ws : List (Option (Task S))) (n : ℕ) (e' : WlqEmitter S)
      (ws' : List (Option (Task S)))
      → IsRunning num arrived e (at_rest ws)
      → IsSteady num e ws
      → e.eos_received + 1 ≡ num
      → e.wlq_terminated ≡ false
      → Drains num n (eosnotify num e) ws e' ws'
      → (n + remaining e' ws' ≡ remaining e ws)
        × (0 < remaining e' ws'
            → (w : ℕ) × (t : Task S) × (w < num)
              × (get_or ws' w none ≡ some t)
              × ((m : S)
                  → (r : WlqEmitter S × List (ℕ × Task S)) × (handle_feedback num w
                        (record t { p1 = m })
                        e'
                      ≡ some r)))
        × ((e'.wlq_terminated ≡ true) ↔ (remaining e' ws' ≡ 0))
  unfolding eosnotify terminate
  Drains-terminated e ws n e' ws' v y eos no_end d =
      let e1 : WlqEmitter S = record e { eos_received = e.eos_received + 1 } in
      let v1 =
        IsRunning-pool num arrived e (at_rest ws) e.pool.nw_wlq (e.eos_received + 1)
          e.pool.activated_worker e.wlq_terminated v in
      let y1 : IsSteady num e1 ws = record {
        settled = y.settled;
        working = y.working;
        staff = y.staff;
        in_range = y.in_range;
        staffed = y.staffed;
      } in
      let (x, q) =
        drain-Ending n (terminate num e1) ws e' ws' d (terminate-Ending e1 ws v1 y1 eos no_end) in
      (q, next_return e' ws' x, x.ended)
