-- ===== src/Wlq/Emitter/Svc/Running.antt =====
-- The emitter of the WLQ stage as a whole: every message it can get, and the end.
use elastic_ppq.Common.{
  ℕ, ◌+◌, ◌≤◌, ◌≢◌, ◌⊎◌, ◌<◌, ◌≡◌, refl, sym, ap, ◌∙◌, inl, inr, true, false, List, [], Option,
  none, some, arith, get_or, set, length,
}
use elastic_ppq.ResultsSet.{Derived}
use elastic_ppq.Panes.{first_win, last_win}
use elastic_ppq.Controller.{Reconf, is_reconf}
use elastic_ppq.Controller.Agree.{CanObey}
use elastic_ppq.Wlq.Pool.{is_idle, get_num_idle_workers}
use elastic_ppq.Wlq.Pool.Idle.{send_to-count}
use elastic_ppq.Wlq.Emitter.Tasks.{pending}
use elastic_ppq.Wlq.Emitter.{Task, get_wtasks_to_schedule}
use elastic_ppq.Wlq.Emitter.Svc.{
  WlqEmitter, Input, drop_front, terminate, eosnotify, handle_results, handle_feedback, svc,
}
use elastic_ppq.Wlq.Emitter.Svc.Arriving.{one_more, Expected, arrive-IsRunning}
use elastic_ppq.Wlq.Emitter.Svc.Assigning.{at_rest, hand_out, send_all-IsRunning}
use elastic_ppq.Wlq.Emitter.Svc.Searching.{chosen-IsRunning, drop_front-IsRunning}
use elastic_ppq.Wlq.Emitter.Svc.Commands.{
  IsRunning-pool, handle_reconf-IsRunning, IsFinished, terminate-IsRunning,
}
use elastic_ppq.Wlq.Emitter.Svc.Places.{is_none, free, free-most, free-all}
use elastic_ppq.Wlq.Emitter.Svc.Feeding.{handle_feedback-Fed}
use elastic_ppq.Wlq.Emitter.Svc.Settling.{none_found-pending}
use elastic_ppq.Wlq.Emitter.Svc.Invariant.{IsRunning}

module _ {S : Type 0} ⦃b : Derived S⦄ (num : ℕ) (arrived : ℕ → ℕ) where
  -- What holds after a results set has arrived.
  pub record Received (e : WlqEmitter S) (ws : List (Option (Task S))) (e' : WlqEmitter S)
      (ws' : List (Option (Task S))) : Type 0 where
    pub active : e'.pool.activated_worker ≡ e.pool.activated_worker
    pub ended : e'.wlq_terminated ≡ e.wlq_terminated
    pub given :
        (j : ℕ)
        → get_or ws' j none ≢ none
        → (get_or ws j none ≢ none) ⊎ (get_or e.pool.activated_worker j false ≡ true)
    pub settled :
        (i : ℕ)
        → i < num
        → get_or e.pool.activated_worker i false ≡ true
        → free ws' ≡ num
        → pending e'.descr_set ≡ 0

  -- An activated worker is idle where all are free.
  some_idle :
      (g : ℕ → ℕ) (e : WlqEmitter S) (ws : List (Option (Task S)))
      → IsRunning num g e (at_rest ws)
      → (i : ℕ) → i < num
      → get_or e.pool.activated_worker i false ≡ true
      → free ws ≡ num
      → 0 < get_num_idle_workers num e.pool
  some_idle g e ws v i lt on all =
      let ready = v.idle i lt ∙ ap is_none (free-all ws i (all ∙ sym v.size)) in
      let idle : is_idle e.pool i ≡ true = unfold is_idle in rw on ready in
      omega (arith, send_to-count num e.pool i idle lt)

  pub handle_results-IsRunning :
      (new_set : ℕ → ℕ → ℕ → S) (wp sp : ℕ) (e : WlqEmitter S) (ws : List (Option (Task S))) (p : S)
      → 0 < sp
      → sp ≤ wp
      → ((j : ℕ) → (b.base (new_set 1 j 1)).id ≡ j)
      → IsRunning num arrived e (at_rest ws)
      → Expected num new_set wp sp arrived e p
      → (r : WlqEmitter S × List (ℕ × Task S)) × (handle_results num new_set wp sp p e ≡ some r)
        × Received e ws r.0 (hand_out r.1 ws)
        × IsRunning num
            (one_more (first_win wp sp (b.base p).id) (last_win sp (b.base p).id) arrived)
            r.0
            (at_rest (hand_out r.1 ws))
  unfolding handle_results drop_front
  handle_results-IsRunning new_set wp sp e ws p pos wide named v x =
      let g = one_more (first_win wp sp (b.base p).id) (last_win sp (b.base p).id) arrived in
      let (a, f, same, ended, va) =
        arrive-IsRunning num new_set wp sp arrived e ws p pos wide named v x in
      let n = get_num_idle_workers num a.pool in
      let q = get_wtasks_to_schedule n a.descr_set in
      let (vq, le, taken) = chosen-IsRunning num g n a ws va in
      let (r, h, s) = send_all-IsRunning num g q.1 (record a { descr_set = q.0 }) ws vq le in
      let (vr, count) = drop_front-IsRunning num g r.0 (hand_out r.1 ws) s.running in
      let active = ap (λ z. z.activated_worker) same in
      (
        (drop_front r.0, r.1),
        rw f (rw h refl),
        record {
          active = s.sent.active ∙ active;
          ended = s.sent.ended ∙ ended;
          given = λ j y. elim (s.given j y) [
            | inl z ↦ inl z
            | inr z ↦ inr (ap (λ c. get_or c j false) (sym active) ∙ z)
          ];
          settled = λ i lt on all.
              let nothing : length q.1 ≡ 0 = omega (arith, all, s.fewer, free-most ws, v.size) in
              let all' : free ws ≡ num = omega (arith, all, s.fewer, nothing) in
              omega (
                arith,
                count,
                s.sent.waiting,
                taken,
                none_found-pending num g n a ws va
                    (some_idle g a ws va i lt (ap (λ c. get_or c i false) active ∙ on) all') nothing
                    all',
              );
        },
        vr,
      )

  pub handle_feedback-IsRunning :
      (e : WlqEmitter S) (ws : List (Option (Task S))) (w : ℕ) (t : Task S) (m : S)
      → IsRunning num arrived e (at_rest ws)
      → w < num
      → get_or ws w none ≡ some t
      → (r : WlqEmitter S × List (ℕ × Task S)) × (handle_feedback num w (record t { p1 = m }) e
          ≡ some r)
        × IsRunning num arrived r.0 (at_rest (hand_out r.1 (set ws w none)))
        × (e.wlq_terminated ≡ false
            → r.0.wlq_terminated ≡ true
            → IsFinished r.0.descr_set (hand_out r.1 (set ws w none)))
  unfolding terminate
  handle_feedback-IsRunning e ws w t m v lt has =
      let (s, out, f, x) = handle_feedback-Fed num arrived e ws w t m v lt has in
      let (vt, done) = terminate-IsRunning num arrived s (hand_out out (set ws w none)) x.running in
      ((terminate num s, out), f, vt, λ no_end end. done (x.ended ∙ no_end) end)

-- The tasks that workers have after a message has come in.
abbrev pub taken_back : {S : Type 0} → Input S → List (Option (Task S)) → List (Option (Task S))
taken_back (Input.results p) ws = ws
taken_back (Input.feedback w t) ws = set ws w none
taken_back (Input.command r) ws = ws
taken_back Input.eos ws = ws

module _ {S : Type 0} ⦃b : Derived S⦄ (num : ℕ) (new_set : ℕ → ℕ → ℕ → S) (wp sp : ℕ) where
  -- The messages that can come while the workers have the tasks ws, and the results sets that have
  -- arrived for each window before and after it. A worker returns the task that it has, and a MERGE task
  -- with another first results set; the controller sends what the emitter can obey.
  pub data Comes
      : (ℕ → ℕ) → WlqEmitter S → List (Option (Task S)) → Input S → (ℕ → ℕ) → Type 0 where
    from_plq :
        (arrived : ℕ → ℕ) (e : WlqEmitter S) (ws : List (Option (Task S))) (p : S)
        → Expected num new_set wp sp arrived e p
        → Comes arrived e ws
            (Input.results p)
            (one_more (first_win wp sp (b.base p).id) (last_win sp (b.base p).id) arrived)
    from_worker :
        (arrived : ℕ → ℕ) (e : WlqEmitter S) (ws : List (Option (Task S))) (w : ℕ) (t : Task S)
        (m : S)
        → w < num
        → get_or ws w none ≡ some t
        → Comes arrived e ws (Input.feedback w (record t { p1 = m })) arrived
    from_controller :
        (arrived : ℕ → ℕ) (e : WlqEmitter S) (ws : List (Option (Task S))) (r : Reconf)
        → is_reconf r ≡ true
        → CanObey r e.pool.activated_worker
        → Comes arrived e ws (Input.command r) arrived
    at_end :
        (arrived : ℕ → ℕ) (e : WlqEmitter S) (ws : List (Option (Task S)))
        → Comes arrived e ws Input.eos arrived

  module _ (pos : 0 < sp) (wide : sp ≤ wp) (named : (j : ℕ) → (b.base (new_set 1 j 1)).id ≡ j) where
    -- For windows of wp panes that begin every sp panes, 0 < sp ≤ wp, and any message that can come: the
    -- emitter does not abort and uses no descriptor that is deleted, and its state fits the tasks that
    -- the workers have again. Of every window's results sets each is then worked off, waits, or is with
    -- one task; an open window is being updated by one worker at most, and by one exactly if it is busy;
    -- the counter of pending tasks and the ready workers are right; and where a message makes the emitter
    -- propagate the EOS, no results set waits and no worker has a task.
    pub svc-IsRunning :
        (arrived arrived' : ℕ → ℕ) (e : WlqEmitter S) (ws : List (Option (Task S))) (i : Input S)
        → Comes arrived e ws i arrived'
        → IsRunning num arrived e (at_rest ws)
        → (r : WlqEmitter S × List (ℕ × Task S)) × (svc num new_set wp sp i e ≡ some r)
          × IsRunning num arrived' r.0 (at_rest (hand_out r.1 (taken_back i ws)))
          × (e.wlq_terminated ≡ false
              → r.0.wlq_terminated ≡ true
              → IsFinished r.0.descr_set (hand_out r.1 (taken_back i ws)))
    unfolding svc eosnotify terminate
    svc-IsRunning _ _ _ _ _ (from_plq arrived e ws p x) v =
        let (r, f, x', vr) =
          handle_results-IsRunning num arrived new_set wp sp e ws p pos wide named v x in
        (r, f, vr, λ no_end end. absurd (let same = x'.ended in cc))
    svc-IsRunning _ _ _ _ _ (from_worker arrived e ws w t m lt has) v =
        handle_feedback-IsRunning num arrived e ws w t m v lt has
    svc-IsRunning _ _ _ _ _ (from_controller arrived e ws r reconf obeys) v =
        let (e', f, same, _, _, vr) = handle_reconf-IsRunning num arrived e r ws reconf obeys v in
        ((e', []), f, vr, λ no_end end. absurd (cc))
    svc-IsRunning _ _ _ _ _ (at_end arrived e ws) v =
        let e1 : WlqEmitter S = record e { eos_received = e.eos_received + 1 } in
        let v1 =
          IsRunning-pool num arrived e (at_rest ws) e.pool.nw_wlq (e.eos_received + 1)
            e.pool.activated_worker e.wlq_terminated v in
        let (vt, done) = terminate-IsRunning num arrived e1 ws v1 in
        ((terminate num e1, []), refl, vt, done)
