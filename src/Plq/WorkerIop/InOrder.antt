-- ===== src/Plq/WorkerIop/InOrder.antt =====
-- The in-order worker on tuples in the order of their panes.
use mathlib.Core.List.{map-append}
use elastic_ppq.Common.{
  ℕ, ◌≤◌, ◌<◌, ◌≡◌, refl, sym, ◌∙◌, subst, inl, inr, ◌⊎◌, List, [], ◌∷◌, ◌++◌, append-nil, arith,
  All, All-append, All-map, length, ltb, Bool-cases,
}
use elastic_ppq.Message.{Tuple}
use elastic_ppq.ResultsSet.{Derived, ResultsSet, IsResultsSet}
use elastic_ppq.Query.TData.{Row}
use elastic_ppq.Plq.Worker.{Worker, id_of, lower_bound, new_pane}
use elastic_ppq.Plq.Worker.Deque.{
  IsAscending, IsAscending-append, ids, id-with_base, id-new_pane, id-enter,
}
use elastic_ppq.Plq.WorkerIop.{fill, place, handle_tuple, run_tuples}

module _ {W : Type 0} where
  -- no tuple is of a pane before p, nor before the pane of an earlier tuple
  abbrev pub InPaneOrder : ℕ → List (Tuple W × (ℕ → ℕ)) → Type 0
  InPaneOrder p [] = Unit
  InPaneOrder p ((t, ticks) ∷ ms) = (p ≤ t.pane_id) × InPaneOrder t.pane_id ms

module _ {W S : Type 0} ⦃b : Derived S⦄ ⦃r : ResultsSet W S⦄ (Rep : S → List (Row W) → Type 0)
    (laws : IsResultsSet Rep) where
  id-fill : (t : Tuple W) (ticks : ℕ → ℕ) (s : S) → id_of (fill t ticks s) ≡ id_of s
  unfolding fill
  id-fill t ticks s = id-with_base laws.derived _ _ refl ∙ id-enter Rep laws t.kind t ticks s

  -- At most one pane is open, the pane p of the last tuple, and those that were sent are before it.
  record AtPane (p : ℕ) (out open_panes : List S) : Type 0 where
    out_order : IsAscending (ids out)
    out_below : All (λ n. n < p) (ids out)
    only : (open_panes ≡ []) ⊎ ((s : S) × (open_panes ≡ s ∷ []) × (id_of s ≡ p))

  stays :
      (p q : ℕ) (out : List S)
      → p ≤ q
      → IsAscending (ids out)
      → All (λ n. n < p) (ids out)
      → (s : S) → id_of s ≡ q
      → AtPane q (out ++ []) (s ∷ [])
  stays p q out le h lt s e = record {
    out_order = subst (λ l. IsAscending (ids l)) (sym (append-nil out)) h;
    out_below =
        subst (λ l. All (λ n. n < q) (ids l)) (sym (append-nil out))
          (All-map (λ n. n < p) (λ n. n < q) (λ n k. omega (arith, k, le)) (ids out) lt);
    only = inr (s, refl, e);
  }

  moves :
      (p q : ℕ) (out : List S) (old s : S)
      → p < q
      → id_of old ≡ p
      → IsAscending (ids out)
      → All (λ n. n < p) (ids out)
      → id_of s ≡ q
      → AtPane q (out ++ old ∷ []) (s ∷ [])
  moves p q out old s lt o h below e =
      let whole : ids out ++ id_of old ∷ [] ≡ ids (out ++ old ∷ []) =
        sym (map-append id_of out (old ∷ [])) in
      record {
        out_order = subst IsAscending whole (
            IsAscending-append p (ids out) (id_of old ∷ []) h below (tt, tt)
              (omega (arith, o), tt));
        out_below = subst (All (λ n. n < q)) whole (
            All-append (λ n. n < q) (ids out) (id_of old ∷ [])
              (All-map (λ n. n < p) (λ n. n < q) (λ n k. omega (arith, k, lt)) (ids out) below)
              (omega (arith, o, lt), tt));
        only = inr (s, refl, e);
      }

  place-AtPane :
      (w : Worker S) (t : Tuple W) (ticks : ℕ → ℕ) (p : ℕ) (out ps : List S)
      → p ≤ t.pane_id
      → IsAscending (ids out)
      → All (λ n. n < p) (ids out)
      → (ps ≡ []) ⊎ ((s : S) × (ps ≡ s ∷ []) × (id_of s ≡ p))
      → let parts = lower_bound t.pane_id ps in
        AtPane t.pane_id (out ++ parts.0) (place w t ticks parts.0 parts.1)
        × (length (place w t ticks parts.0 parts.1) ≡ 1)
  unfolding lower_bound place
  place-AtPane w t ticks p out ps le h lt (inl e) =
      let new_id = id-fill t ticks (new_pane w t) ∙ id-new_pane Rep laws w t in
      rw e (stays p t.pane_id out le h lt (fill t ticks (new_pane w t)) new_id, refl)
  place-AtPane w t ticks p out ps le h lt (inr (s, e, i)) =
      let new_id = id-fill t ticks (new_pane w t) ∙ id-new_pane Rep laws w t in
      elim (Bool-cases (ltb (id_of s) t.pane_id)) [
        | inl k ↦
            rw (e, k)
              (
                moves p t.pane_id out s (fill t ticks (new_pane w t)) (ground (arith, k, i)) i h lt
                    new_id,
                refl,
              )
        | inr k ↦
            rw (e, k)
              (
                stays p t.pane_id out le h lt (fill t ticks s)
                    (id-fill t ticks s ∙ ground (arith, k, i, le)),
                refl,
              )
      ]

  -- A tuple that is not before the open pane leaves one open pane, its own, and makes the worker send
  -- the pane that was open if that one is before it.
  handle_tuple-AtPane :
      (w : Worker S) (t : Tuple W) (ticks : ℕ → ℕ) (p : ℕ) (out : List S)
      → p ≤ t.pane_id
      → AtPane p out w.pane_set
      → AtPane t.pane_id
          (out ++ (handle_tuple w t ticks).sent)
          (handle_tuple w t ticks).worker.pane_set
        × (length (handle_tuple w t ticks).worker.pane_set ≡ 1)
  unfolding handle_tuple
  handle_tuple-AtPane w t ticks p out le v =
      place-AtPane w t ticks p out w.pane_set le v.out_order v.out_below v.only

  AtPane-IsAscending :
      (p : ℕ) (out ps : List S) → AtPane p out ps → IsAscending (ids (out ++ ps)) × (length ps ≤ 1)
  AtPane-IsAscending p out ps v = elim v.only [
    | inl e ↦
        rw e (subst (λ l. IsAscending (ids l)) (sym (append-nil out)) v.out_order, omega arith)
    | inr (s, e, i) ↦ rw e (
      subst IsAscending (sym (map-append id_of out (s ∷ []))) (
          IsAscending-append p (ids out) (id_of s ∷ []) v.out_order v.out_below (tt, tt)
            (omega (arith, i), tt)),
      omega arith,
    )
  ]

  run_tuples-AtPane :
      (w : Worker S) (out : List S) (ms : List (Tuple W × (ℕ → ℕ))) (p : ℕ)
      → InPaneOrder p ms
      → AtPane p out w.pane_set
      → let r = run_tuples w out ms in
        IsAscending (ids (r.1 ++ r.0.pane_set)) × (length r.0.pane_set ≤ 1)
  unfolding run_tuples
  run_tuples-AtPane w out [] p h v = AtPane-IsAscending p out w.pane_set v
  run_tuples-AtPane w out ((t, ticks) ∷ ms) p h v =
      run_tuples-AtPane (handle_tuple w t ticks).worker (out ++ (handle_tuple w t ticks).sent) ms
        t.pane_id h.1 (handle_tuple-AtPane w t ticks p out h.0 v).0

  -- If the tuples come in the order of their panes, a new worker sends each pane at most once, in
  -- ascending order, and at most one pane is open at the end.
  pub run_tuples-IsAscending :
      (wp sp : ℕ) (ms : List (Tuple W × (ℕ → ℕ)))
      → InPaneOrder 0 ms
      → let r = run_tuples {S = S} (record { wp = wp; sp = sp; pane_set = [] }) [] ms in
        IsAscending (ids (r.1 ++ r.0.pane_set)) × (length r.0.pane_set ≤ 1)
  run_tuples-IsAscending wp sp ms h =
      run_tuples-AtPane (record { wp = wp; sp = sp; pane_set = [] }) [] ms 0 h
        (record { out_order = tt; out_below = tt; only = inl refl })
