-- ===== src/Plq/Sched/Progress.antt =====
-- `executeStreamProgress` of the scheduler: the stream reaches a pane.
use elastic_ppq.Common.{
  ℕ, zero, suc, ◌+◌, ◌-◌, ◌<◌, ◌≡◌, refl, sym, ap, ◌∙◌, subst, inl, inr, Bool, true, false, List,
  [], ◌∷◌, ◌++◌, append-nil, some, arith, get_or, length, ◌==◌, ltb, leb, Bool-cases, All,
  All-append, if◌then◌else◌,
}
use elastic_ppq.Double.{Double}
use mathlib.Core.Path.{ap₂}
use elastic_ppq.Message.{Tuple, Kind, empty, create_punctuation}
use elastic_ppq.Plq.Sched.{Sched, extend, broadcast, punctuate_to, execute_stream_progress}
use elastic_ppq.Plq.Sched.Passing.{
  empty_at, empty_panes, lull_of, lulls, IsActivated, get_or-resize, lulls-append,
  complete_panes-Passed,
}

module _ {W : Type 0} ⦃o : Double W⦄ where
  -- A punctuation goes to activated workers, and is no LULL message.
  broadcast_lem :
      (t : Tuple W) (i : ℕ) (ws vs : List Bool)
      → t.kind ≡ Kind.punct
      → ((j : ℕ) → get_or ws j false ≡ true → get_or vs (i + j) false ≡ true)
      → (lulls (broadcast t i ws) ≡ []) × All (λ q. get_or vs q.0 false ≡ true) (broadcast t i ws)
  unfolding broadcast lulls lull_of
  broadcast_lem t i [] vs k f = (refl, tt)
  broadcast_lem t i (false ∷ ws) vs k f =
      broadcast_lem t (i + 1) ws vs k
        (λ j h. subst (λ m. get_or vs m false ≡ true) (omega arith) (f (suc j) h))
  broadcast_lem t i (true ∷ ws) vs k f =
      let (a, b) =
        broadcast_lem t (i + 1) ws vs k
          (λ j h. subst (λ m. get_or vs m false ≡ true) (omega arith) (f (suc j) h)) in
      (
        ap₂ (λ x l. lull_of x t.pane_id ++ l) k a,
        (subst (λ m. get_or vs m false ≡ true) (omega arith) (f 0 refl), b),
      )

empty_panes-same :
    (xs ys : List ℕ) (i n : ℕ)
    → ((j : ℕ) → j < i + n → get_or xs j 0 ≡ get_or ys j 0)
    → empty_panes xs i n ≡ empty_panes ys i n
unfolding empty_panes empty_at
empty_panes-same xs ys i zero f = refl
empty_panes-same xs ys i (suc n) f =
    ap₂ ◌++◌ (ap (λ z. if z == 0 then i ∷ [] else []) (f i (omega arith)))
      (empty_panes-same xs ys (i + 1) n (λ j lt. f j (omega (arith, lt))))

from_zero : (j : ℕ) → j ≡ 0 + j
from_zero j = omega arith

-- What `extend` leaves: all that the rest of the method reads.
extend_lem :
    (p_id : ℕ) (s : Sched)
    → ((extend p_id s).activated_worker ≡ s.activated_worker)
      × ((extend p_id s).cm_panes_split ≡ s.cm_panes_split)
      × ((j : ℕ) → j < p_id → get_or (extend p_id s).pane_size j 0 ≡ get_or s.pane_size j 0)
unfolding extend
extend_lem p_id s = elim (Bool-cases (leb (length s.p_instances) p_id)) [
  | inl h ↦ (
    rw h refl,
    rw h refl,
    λ j lt. rw h (get_or-resize (p_id + 1) s.pane_size j (omega (arith, lt))),
  )
  | inr h ↦ (rw h refl, rw h refl, λ j lt. rw h refl)
]

module _ {W : Type 0} ⦃o : Double W⦄ where
  -- With an activated worker, the progress of the stream to a pane never aborts, and sends LULL messages
  -- for the panes without tuples between the next pane to complete and this one, in their order and for
  -- no others, whether or not the vectors reach that far. All messages go to activated workers, each
  -- pane passed is noted in the snapshot, and the next pane to complete never goes back.
  pub execute_stream_progress_lem :
      (num w ts p_id : ℕ) (s : Sched)
      → w < num
      → IsActivated s w
      → (r : Sched × List (ℕ × Tuple W)) × (execute_stream_progress num ts p_id s ≡ some r)
        × (lulls r.1 ≡ empty_panes s.pane_size s.next_pane_id (p_id - s.next_pane_id))
        × All (λ q. IsActivated s q.0) r.1
        × (length r.0.cm_panes_split ≡ length s.cm_panes_split + (p_id - s.next_pane_id))
        × (r.0.next_pane_id ≡ (if ltb p_id s.next_pane_id then s.next_pane_id else p_id))
  unfolding execute_stream_progress punctuate_to IsActivated create_punctuation empty_panes lulls
  execute_stream_progress_lem num w ts p_id s lt t = elim (Bool-cases (ltb p_id s.next_pane_id)) [
    | inl h ↦
        let none_passed : p_id - s.next_pane_id ≡ 0 = ground (arith, h) in
        ((s, []), rw h refl, rw none_passed refl, tt, omega (arith, none_passed), rw h refl)
    | inr h ↦
        let n = p_id - s.next_pane_id in
        let (workers, noted, sizes) = extend_lem p_id s in
        let (r, e, v) =
          complete_panes-Passed num w s.next_pane_id n (extend p_id s) lt
            (subst (λ ws. get_or ws w false ≡ true) (sym workers) t) in
        let p : Sched × List (ℕ × Tuple W) = punctuate_to ts p_id r.0 in
        let same = v.workers ∙ workers in
        let (a, b) =
          broadcast_lem (create_punctuation empty ts p_id r.0.nw_plq) 0 r.0.activated_worker
            s.activated_worker refl
            (λ j k.
              subst (λ m. get_or s.activated_worker m false ≡ true) (from_zero j)
                (subst (λ ws. get_or ws j false ≡ true) same k)) in
        (
          (p.0, r.1 ++ p.1),
          rw h (rw e refl),
          lulls-append r.1 p.1
              ∙ ap₂ ◌++◌ v.sent a
              ∙ append-nil (empty_panes (extend p_id s).pane_size s.next_pane_id n)
              ∙ empty_panes-same (extend p_id s).pane_size s.pane_size s.next_pane_id n
                  (λ j le. sizes j (ground (arith, le, h))),
          All-append (λ q. get_or s.activated_worker q.0 false ≡ true) r.1 p.1
              (subst (λ ws. All (λ q. get_or ws q.0 false ≡ true) r.1) workers v.targets) b,
          omega (arith, v.noted, ap length noted),
          rw h refl,
        )
  ]
