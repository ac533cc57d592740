-- ===== src/Plq/Worker/Closing.antt =====
-- What closes panes, when a PLQ worker aborts, and which receiver deletes a shared message.
use mathlib.Core.Option.{none-ne-some}
use mathlib.Core.List.{map-append}
use elastic_ppq.Common.{
  ℕ, zero, suc, ◌+◌, ◌-◌, ◌%◌, ◌^◌, ◌≤◌, ◌<◌, ◌≡◌, refl, sym, ap, ◌∙◌, subst, ◌↔◌, ◌≢◌, inl, inr,
  false, List, [], ◌∷◌, ◌++◌, Option, none, some, arith, All, All-append, All-map, and_then, ◌==◌,
  Bool-cases,
}
use elastic_ppq.Message.{Tuple}
use elastic_ppq.ResultsSet.{Derived, ResultsSet, IsDerived}
use elastic_ppq.Plq.Worker.{
  Worker, id_of, lower_bound, release, renew, handle_punct, handle_new_inst,
}
use elastic_ppq.Plq.Worker.Deque.{IsAscending, ids, lower_bound-Split, close_all-ids}

pub All-suffix : (P : ℕ → Type 0) (xs ys : List ℕ) → All P (xs ++ ys) → All P ys
All-suffix P [] ys h = h
All-suffix P (x ∷ xs) ys h = All-suffix P xs ys h.1

module _ {W : Type 0} where
  -- k receivers release a message one after another
  unfoldable pub release_all : ℕ → Tuple W → Option (Tuple W)
  release_all zero t = some t
  release_all (suc k) t = and_then (release t) (release_all k)

  release_kept :
      (t : Tuple W)
      → 1 < t.ref_counter
      → t.ref_counter < 2 ^ 64
      → release t ≡ some (record t { ref_counter = t.ref_counter - 1 })
  unfolding release
  release_kept t h top =
      let c : (t.ref_counter + 2 ^ 64 - 1) % 2 ^ 64 ≡ t.ref_counter - 1 = omega (arith, h, top) in
      let two : (t.ref_counter == 1) ≡ false = ground (arith, h) in rw (two, c) refl

  release_gone : (t : Tuple W) → t.ref_counter ≡ 1 → release t ≡ none
  unfolding release
  release_gone t e = ground (arith, e)

  release_all-kept :
      (k : ℕ) (t : Tuple W)
      → k < t.ref_counter
      → t.ref_counter < 2 ^ 64
      → release_all k t ≡ some (record t { ref_counter = t.ref_counter - k })
  unfolding release_all
  release_all-kept zero t h top = ap (λ n. some (record t { ref_counter = n })) (omega arith)
  release_all-kept (suc k) t h top =
      let next : Tuple W = record t { ref_counter = t.ref_counter - 1 } in
      ap (λ o. and_then o (release_all k)) (release_kept t (omega (arith, h)) top)
      ∙ release_all-kept k next (omega (arith, h)) (omega (arith, top))
      ∙ ap (λ n. some (record t { ref_counter = n })) (omega arith)

  release_all-deleted :
      (k : ℕ) (t : Tuple W)
      → t.ref_counter ≡ suc k
      → t.ref_counter < 2 ^ 64
      → release_all (suc k) t ≡ none
  unfolding release_all
  release_all-deleted zero t e top = ap (λ o. and_then o (release_all 0)) (release_gone t e)
  release_all-deleted (suc k) t e top =
      let next : Tuple W = record t { ref_counter = t.ref_counter - 1 } in
      ap (λ o. and_then o (release_all (suc k))) (release_kept t (omega (arith, e)) top)
      ∙ release_all-deleted k next (omega (arith, e)) (omega (arith, top))

  -- A message whose counter is the number n of its receivers, with 0 < n < 2^64, is still there while
  -- fewer than n have released it, with the counter lowered by as many, and the n-th one deletes it.
  pub release_all_lem :
      (t : Tuple W)
      → 0 < t.ref_counter
      → t.ref_counter < 2 ^ 64
      → ((k : ℕ)
          → k < t.ref_counter
          → release_all k t ≡ some (record t { ref_counter = t.ref_counter - k }))
        × (release_all t.ref_counter t ≡ none)
  release_all_lem t pos top = (
    λ k h. release_all-kept k t h top,
    subst (λ n. release_all n t ≡ none) {x = suc (t.ref_counter - 1)} (omega (arith, pos))
        (release_all-deleted (t.ref_counter - 1) t (omega (arith, pos)) top),
  )

module _ {W S : Type 0} ⦃b : Derived S⦄ ⦃r : ResultsSet W S⦄ (d : IsDerived S) where
  -- A punctuation closes exactly the panes below its own: the results sets that are sent are those
  -- with an identifier below p, in ascending order, and the others stay open.
  pub handle_punct-ids :
      (w : Worker S) (t : Tuple W) (ticks : ℕ → ℕ)
      → IsAscending (ids w.pane_set)
      → (ids (handle_punct w t ticks).sent ++ ids (handle_punct w t ticks).worker.pane_set
          ≡ ids w.pane_set)
        × All (λ n. n < t.pane_id) (ids (handle_punct w t ticks).sent)
        × All (λ n. t.pane_id ≤ n) (ids (handle_punct w t ticks).worker.pane_set)
  unfolding handle_punct
  handle_punct-ids w t ticks h =
      let v = lower_bound-Split t.pane_id w.pane_set h in
      let parts = lower_bound t.pane_id w.pane_set in
      let same = close_all-ids d ticks 0 parts.0 in
      (
        ap (λ l. l ++ ids parts.1) same ∙ sym (map-append id_of parts.0 parts.1) ∙ ap ids v.whole,
        subst (All (λ n. n < t.pane_id)) (sym same) v.below,
        v.above,
      )

  renew-none_iff :
      (w : Worker S) (t : Tuple W) (before behind : List S)
      → IsAscending (ids behind)
      → All (λ n. t.pane_id ≤ n) (ids behind)
      → (renew w t before behind ≡ none) ↔ All (λ n. n ≢ t.pane_id) (ids behind)
  unfolding renew
  renew-none_iff w t before [] h g = (λ _. tt, λ _. refl)
  renew-none_iff w t before (s ∷ rest) h g = elim (Bool-cases (id_of s == t.pane_id)) [
    | inl k ↦ rw k (λ e. absurd (none-ne-some _ (sym e)), λ a. absurd (a.0 (ground arith)))
    | inr k ↦
        let far =
          All-map (λ m. id_of s < m) (λ m. m ≢ t.pane_id) (λ m q e. omega (arith, q, e, g.0))
            (ids rest) h.0 in
        rw k (λ _. (ground arith, far), λ _. refl)
  ]

  -- A NEW_INST message aborts exactly if the worker has no results set of its pane.
  pub handle_new_inst-none_iff :
      (w : Worker S) (t : Tuple W)
      → IsAscending (ids w.pane_set)
      → (handle_new_inst w t ≡ none) ↔ All (λ n. n ≢ t.pane_id) (ids w.pane_set)
  unfolding handle_new_inst
  handle_new_inst-none_iff w t h =
      let v = lower_bound-Split t.pane_id w.pane_set h in
      let parts = lower_bound t.pane_id w.pane_set in
      let here = renew-none_iff w t parts.0 parts.1 v.above_order v.above in
      let same : ids parts.0 ++ ids parts.1 ≡ ids w.pane_set =
        sym (map-append id_of parts.0 parts.1) ∙ ap ids v.whole in
      let low =
        All-map (λ n. n < t.pane_id) (λ n. n ≢ t.pane_id) (λ n q e. omega (arith, q, e))
          (ids parts.0) v.below in
      (
        λ e.
            subst (All (λ n. n ≢ t.pane_id)) same
              (All-append _ (ids parts.0) (ids parts.1) low (here.0 e)),
        λ a. here.1 (
            All-suffix _ (ids parts.0) (ids parts.1)
              (subst (All (λ n. n ≢ t.pane_id)) (sym same) a)),
      )
