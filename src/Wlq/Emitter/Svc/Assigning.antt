-- ===== src/Wlq/Emitter/Svc/Assigning.antt =====
-- The tasks that were found get workers.
use elastic_ppq.Common.{
  ℕ, ◌+◌, ◌≤◌, ◌<◌, ◌≡◌, refl, sym, ap, ◌∙◌, inl, inr, ◌⊎◌, ◌≢◌, Bool, false, get_or-set_other,
  true, false, ℕ_discrete, List, [], ◌∷◌, Option, none, some, arith, get_or, set, length,
}
use elastic_ppq.ResultsSet.{Derived}
use elastic_ppq.Wlq.Pool.{Pool, is_idle, get_num_idle_workers}
use elastic_ppq.Wlq.Pool.Idle.{select_idle_worker_lem, send_to-count}
use elastic_ppq.Wlq.Emitter.{Task}
use elastic_ppq.Wlq.Emitter.Svc.{WlqEmitter, send_all}
use elastic_ppq.Wlq.Emitter.Svc.Places.{is_none, free, free-set}
use elastic_ppq.Wlq.Emitter.Svc.Invariant.{IsRunning}
use elastic_ppq.Wlq.Emitter.Svc.Moved.{before, moved}
use elastic_ppq.Wlq.Emitter.Svc.Sending.{Sent, send_task-IsRunning}
use elastic_ppq.Wlq.Emitter.Svc.Traffic.{held, total, takes, Traffic}

ready-idle : (p : Pool) (i : ℕ) → is_idle p i ≡ true → get_or p.worker_ready i false ≡ true
unfolding is_idle
ready-idle p i h = ground (arith, h)

idle-active : (p : Pool) (i : ℕ) → is_idle p i ≡ true → get_or p.activated_worker i false ≡ true
unfolding is_idle
idle-active p i h = ground (arith, h)

module _ {S : Type 0} where
  -- the tasks of the workers after others are sent
  abbrev pub hand_out : List (ℕ × Task S) → List (Option (Task S)) → List (Option (Task S))
  hand_out [] ws = ws
  hand_out ((i, t) ∷ l) ws = hand_out l (set ws i (some t))

  abbrev pub at_rest : List (Option (Task S)) → Traffic S
  at_rest ws = record { sent = ws; todo = [] }

  is_none-none : (o : Option (Task S)) → is_none o ≡ true → o ≡ none
  is_none-none none e = refl
  is_none-none (some t) e = absurd (cc)

module _ {S : Type 0} ⦃b : Derived S⦄ (num : ℕ) (arrived : ℕ → ℕ) where
  IsRunning-turn :
      (e : WlqEmitter S) (a : Traffic S) (i : ℕ)
      → i < num
      → IsRunning num arrived e a
      → IsRunning num arrived (record e { pool = record e.pool { last_w = i } }) a
  IsRunning-turn e a i lt v = record {
    size = v.size;
    windows = v.windows;
    past = v.past;
    future = v.future;
    bound = v.bound;
    tasks = v.tasks;
    ready = v.ready;
    idle = v.idle;
    wide = v.wide;
    turn = lt;
    sane = v.sane;
    found = v.found;
  }

  Sent-join :
      (e e' e2 : WlqEmitter S)
      → Sent num arrived e e'
      → Sent num arrived e' e2
      → Sent num arrived e e2
  Sent-join e e' e2 x y = record {
    first = y.first ∙ x.first;
    size = y.size ∙ x.size;
    active = y.active ∙ x.active;
    eos = y.eos ∙ x.eos;
    ended = y.ended ∙ x.ended;
    waiting = y.waiting ∙ x.waiting;
  }

  -- What holds when the tasks ts are with workers.
  pub record Handed (e : WlqEmitter S) (ws : List (Option (Task S))) (ts : List (Task S))
      (r : WlqEmitter S × List (ℕ × Task S)) : Type 0 where
    pub sent : Sent num arrived e r.0
    pub running : IsRunning num arrived r.0 (at_rest (hand_out r.1 ws))
    pub fewer : free (hand_out r.1 ws) + length ts ≡ free ws
    pub more :
        held (λ t. takes t.task_type) (hand_out r.1 ws)
        ≡ held (λ t. takes t.task_type) ws + total (λ t. takes t.task_type) ts
    pub given :
        (j : ℕ)
        → get_or (hand_out r.1 ws) j none ≢ none
        → (get_or ws j none ≢ none) ⊎ (get_or e.pool.activated_worker j false ≡ true)

  pub Handed-none :
      (e : WlqEmitter S) (ws : List (Option (Task S)))
      → IsRunning num arrived e (at_rest ws)
      → Handed e ws [] (e, [])
  Handed-none e ws v = record {
    sent = record {
      first = refl;
      size = refl;
      active = refl;
      eos = refl;
      ended = refl;
      waiting = refl;
    };
    running = v;
    fewer = omega arith;
    more = omega arith;
    given = λ j h. inl h;
  }

  -- A worker that had no task and has one now.
  given_one :
      (ws : List (Option (Task S))) (i : ℕ) (t : Task S) (active : List Bool)
      → get_or active i false ≡ true
      → (j : ℕ) → get_or (set ws i (some t)) j none ≢ none
      → (get_or ws j none ≢ none) ⊎ (get_or active j false ≡ true)
  given_one ws i t active on j h = elim (ℕ_discrete j i) [
    | yes e ↦ inr (ap (λ x. get_or active x false) e ∙ on)
    | no ne ↦ inl (λ z. h (get_or-set_other ws i j (some t) none ne ∙ z))
  ]

  -- The next task goes to the worker i, the others are with workers then.
  pub Handed-more :
      (e e' : WlqEmitter S) (ws : List (Option (Task S))) (t : Task S) (ts : List (Task S)) (i : ℕ)
      (r : WlqEmitter S × List (ℕ × Task S))
      → i < length ws
      → get_or ws i none ≡ none
      → get_or e.pool.activated_worker i false ≡ true
      → Sent num arrived e e'
      → Handed e' (set ws i (some t)) ts r
      → Handed e ws (t ∷ ts) (r.0, (i, t) ∷ r.1)
  Handed-more e e' ws t ts i r lt nothing on s h = record {
    sent = Sent-join e e' r.0 s h.sent;
    running = h.running;
    fewer = omega (arith, h.fewer, free-set ws i t lt nothing);
    more = omega (arith, h.more, moved ws t i lt nothing (λ u. takes u.task_type));
    given = λ j x. elim (h.given j x) [
      | inl y ↦ given_one ws i t e.pool.activated_worker on j y
      | inr y ↦ inr (ap (λ a. get_or a j false) (sym s.active) ∙ y)
    ];
  }

  pub send_all-IsRunning :
      (ts : List (Task S)) (e : WlqEmitter S) (ws : List (Option (Task S)))
      → IsRunning num arrived e (record { sent = ws; todo = ts })
      → length ts ≤ get_num_idle_workers num e.pool
      → (r : WlqEmitter S × List (ℕ × Task S)) × (send_all num ts e ≡ some r) × Handed e ws ts r
  unfolding send_all
  send_all-IsRunning [] e ws v le = ((e, []), refl, Handed-none e ws v)
  send_all-IsRunning (t ∷ ts) e ws v le = elim (select_idle_worker_lem num e.pool v.turn) [
    | inl (_, c) ↦ absurd (omega (arith, le, c))
    | inr (i, x) ↦
        let e1 : WlqEmitter S = record e { pool = record e.pool { last_w = i } } in
        let v1 = IsRunning-turn e (before ws t ts) i x.in_range v in
        let nothing =
          is_none-none (get_or ws i none)
            (sym (v.idle i x.in_range) ∙ ready-idle e.pool i x.idle) in
        let (e2, f, p, s, v2) =
          send_task-IsRunning num arrived e1 ws t ts i v1 x.in_range nothing in
        let fewer = send_to-count num e.pool i x.idle x.in_range in
        let count = ap (get_num_idle_workers num) p in
        let (r, g, h) =
          send_all-IsRunning ts e2 (set ws i (some t)) v2 (omega (arith, le, fewer, count)) in
        (
          (r.0, (i, t) ∷ r.1),
          rw x.chosen (rw f (rw g refl)),
          Handed-more e e2 ws t ts i r (omega (arith, x.in_range, v.size)) nothing
              (idle-active e.pool i x.idle)
              (record {
                first = s.first;
                size = s.size;
                active = s.active;
                eos = s.eos;
                ended = s.ended;
                waiting = s.waiting;
              })
              h,
        )
  ]
