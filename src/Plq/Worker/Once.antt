-- ===== src/Plq/Worker/Once.antt =====
-- Which panes a worker sends and opens, if no message is late for its pane.
use mathlib.Core.Option.{some-injective, none-ne-some}
use mathlib.Core.List.{map-append}
use elastic_ppq.Common.{
  ℕ, ◌≤◌, ◌<◌, ◌≡◌, refl, sym, ap, ◌∙◌, subst, inl, inr, List, [], ◌∷◌, ◌++◌, append-nil, Option,
  some, arith, All, All-append, All-map, ltb, and_then, ◌==◌, Bool-cases, Option-cases,
  if◌then◌else◌,
}
use elastic_ppq.Message.{Tuple, Kind}
use elastic_ppq.ResultsSet.{Derived, ResultsSet, IsResultsSet}
use elastic_ppq.Query.TData.{Row}
use elastic_ppq.Plq.Worker.{
  Worker, Step, id_of, lower_bound, set_no_instances, renew, handle_punct, handle_new_inst,
  find_or_create, enter, handle_tuple, dispatch, svc, run,
}
use elastic_ppq.Plq.Worker.Deque.{
  IsAscending, IsAscending-append, ids, lower_bound-Split, id-with_base, id-enter,
  find_or_create-ids, close_all-ids, svc-IsAscending, All-prefix,
}
use elastic_ppq.Plq.Worker.Closing.{All-suffix}

-- May a message come, when the punctuations have reached the pane b? A tuple may if its pane is not
-- below b; LULL, FLUSH and END are left out.
abbrev pub Allowed : Kind → ℕ → ℕ → Type 0
Allowed Kind.regular b p = b ≤ p
Allowed Kind.emptypane b p = b ≤ p
Allowed Kind.unspecified b p = b ≤ p
Allowed Kind.punct b p = Unit
Allowed Kind.new_inst b p = Unit
Allowed Kind.lull b p = ⊥
Allowed Kind.flush b p = ⊥
Allowed Kind.ends b p = ⊥

abbrev pub next_bound : Kind → ℕ → ℕ → ℕ
next_bound Kind.punct b p = if ltb b p then p else b
next_bound _ b p = b

module _ {W : Type 0} where
  -- every message of a sequence may come when it does
  abbrev pub InTime : ℕ → List (Tuple W × (ℕ → ℕ)) → Type 0
  InTime b [] = Unit
  InTime b ((t, ticks) ∷ ms) =
      Allowed t.kind b t.pane_id × InTime (next_bound t.kind b t.pane_id) ms

All-both :
    (p b : ℕ) (ns : List ℕ)
    → All (λ n. p ≤ n) ns
    → All (λ n. b ≤ n) ns
    → All (λ n. (if ltb b p then p else b) ≤ n) ns
All-both p b [] _ _ = tt
All-both p b (n ∷ ns) (h, hs) (g, gs) = (ground (arith, h, g), All-both p b ns hs gs)

module _ {S : Type 0} ⦃b : Derived S⦄ where
  -- What was sent is in order and below the bound, what is open is in order and not below it.
  pub record Parted (bound : ℕ) (out open_panes : List S) : Type 0 where
    pub out_order : IsAscending (ids out)
    pub out_below : All (λ n. n < bound) (ids out)
    pub open_order : IsAscending (ids open_panes)
    pub open_above : All (λ n. bound ≤ n) (ids open_panes)

  Parted-IsAscending :
      (bound : ℕ) (out open_panes : List S)
      → Parted bound out open_panes
      → IsAscending (ids (out ++ open_panes))
  Parted-IsAscending bound out open_panes v =
      subst IsAscending (sym (map-append id_of out open_panes)) (
        IsAscending-append bound (ids out) (ids open_panes) v.out_order v.out_below v.open_order
          v.open_above)

  same-Parted :
      (bound : ℕ) (out us vs : List S)
      → ids us ≡ ids vs
      → Parted bound out us
      → Parted bound (out ++ []) vs
  same-Parted bound out us vs e v = record {
    out_order = subst (λ l. IsAscending (ids l)) (sym (append-nil out)) v.out_order;
    out_below = subst (λ l. All (λ n. n < bound) (ids l)) (sym (append-nil out)) v.out_below;
    open_order = subst IsAscending e v.open_order;
    open_above = subst (All (λ n. bound ≤ n)) e v.open_above;
  }

module _ {W S : Type 0} ⦃b : Derived S⦄ ⦃r : ResultsSet W S⦄ (Rep : S → List (Row W) → Type 0)
    (laws : IsResultsSet Rep) where
  punct-Parted :
      (bound : ℕ) (out : List S) (w : Worker S) (t : Tuple W) (ticks : ℕ → ℕ)
      → Parted bound out w.pane_set
      → Parted
          (next_bound Kind.punct bound t.pane_id)
          (out ++ (handle_punct w t ticks).sent)
          (handle_punct w t ticks).worker.pane_set
  unfolding handle_punct
  punct-Parted bound out w t ticks v =
      let s = lower_bound-Split t.pane_id w.pane_set v.open_order in
      let parts = lower_bound t.pane_id w.pane_set in
      let next : ℕ = next_bound Kind.punct bound t.pane_id in
      let le : (bound ≤ next) × (t.pane_id ≤ next) = ground arith in
      let whole : ids parts.0 ++ ids parts.1 ≡ ids w.pane_set =
        sym (map-append id_of parts.0 parts.1) ∙ ap ids s.whole in
      let above = subst (All (λ n. bound ≤ n)) (sym whole) v.open_above in
      let first = All-prefix _ (ids parts.0) (ids parts.1) above in
      let rest = All-suffix _ (ids parts.0) (ids parts.1) above in
      let sent : ids out ++ ids parts.0 ≡ ids (out ++ (handle_punct w t ticks).sent) =
        ap (λ l. ids out ++ l) (sym (close_all-ids laws.derived ticks 0 parts.0))
        ∙ sym (map-append id_of out _) in
      record {
        out_order = subst IsAscending sent (
            IsAscending-append bound (ids out) (ids parts.0) v.out_order v.out_below s.below_order
              first);
        out_below = subst (All (λ n. n < next)) sent (
            All-append _ (ids out) (ids parts.0)
              (All-map (λ n. n < bound) (λ n. n < next) (λ n q. omega (arith, q, le)) (ids out)
                v.out_below)
              (All-map (λ n. n < t.pane_id) (λ n. n < next) (λ n q. omega (arith, q, le))
                (ids parts.0) s.below));
        open_order = s.above_order;
        open_above = All-both t.pane_id bound (ids parts.1) s.above rest;
      }

  tuple-Parted :
      (bound : ℕ) (out : List S) (w : Worker S) (t : Tuple W) (ticks : ℕ → ℕ)
      → bound ≤ t.pane_id
      → Parted bound out w.pane_set
      → IsAscending (ids (handle_tuple w t ticks).worker.pane_set)
      → Parted bound (out ++ (handle_tuple w t ticks).sent) (handle_tuple w t ticks).worker.pane_set
  unfolding handle_tuple
  tuple-Parted bound out w t ticks le v order =
      let s = lower_bound-Split t.pane_id w.pane_set v.open_order in
      let parts = lower_bound t.pane_id w.pane_set in
      let found = find_or_create-ids Rep laws w t parts.1 s.above_order s.above in
      let whole : ids parts.0 ++ ids parts.1 ≡ ids w.pane_set =
        sym (map-append id_of parts.0 parts.1) ∙ ap ids s.whole in
      let first =
        All-prefix _ (ids parts.0) (ids parts.1)
          (subst (All (λ n. bound ≤ n)) (sym whole) v.open_above) in
      let mine : bound ≤ id_of (enter t.kind t ticks (find_or_create w t parts.1).0) =
        omega
          (arith, id-enter Rep laws t.kind t ticks (find_or_create w t parts.1).0, found.0, le) in
      let rest =
        All-map (λ n. t.pane_id < n) (λ n. bound ≤ n) (λ n q. omega (arith, q, le))
          (ids (find_or_create w t parts.1).1) found.1.0 in
      record {
        out_order = subst (λ l. IsAscending (ids l)) (sym (append-nil out)) v.out_order;
        out_below = subst (λ l. All (λ n. n < bound) (ids l)) (sym (append-nil out)) v.out_below;
        open_order = order;
        open_above =
            subst (All (λ n. bound ≤ n)) (sym (map-append id_of parts.0 _))
              (All-append _ (ids parts.0) _ first (mine, rest));
      }

  renew-Parted :
      (bound : ℕ) (out : List S) (w : Worker S) (t : Tuple W) (before behind : List S)
      (st : Step W S)
      → Parted bound out (before ++ behind)
      → renew w t before behind ≡ some st
      → Parted bound (out ++ st.sent) st.worker.pane_set
  unfolding renew
  renew-Parted bound out w t before [] st v e = absurd (none-ne-some st e)
  renew-Parted bound out w t before (s ∷ rest) st v e = elim (Bool-cases (id_of s == t.pane_id)) [
    | inl k ↦
        let same : ids (before ++ s ∷ rest)
            ≡ ids (before ++ set_no_instances t.no_instances s ∷ rest) =
          map-append id_of before _
          ∙ ap (λ n. ids before ++ n ∷ ids rest) (sym (id-with_base laws.derived s _ refl))
          ∙ sym (map-append id_of before _) in
        subst (λ z. Parted bound (out ++ z.sent) z.worker.pane_set) (some-injective _ _ (rw k at e))
          (same-Parted bound out _ _ same v)
    | inr k ↦ absurd (none-ne-some st (rw k at e))
  ]

  entered-Parted :
      (bound : ℕ) (out : List S) (w : Worker S) (t : Tuple W) (ticks : ℕ → ℕ) (st : Step W S)
      → bound ≤ t.pane_id
      → Parted bound out w.pane_set
      → IsAscending (ids st.worker.pane_set)
      → some (handle_tuple w t ticks) ≡ some st
      → Parted bound (out ++ st.sent) st.worker.pane_set
  entered-Parted bound out w t ticks st le v order e =
      let same = some-injective _ _ e in
      subst (λ z. Parted bound (out ++ z.sent) z.worker.pane_set) same
        (tuple-Parted bound out w t ticks le v
          (subst (λ z. IsAscending (ids z.worker.pane_set)) (sym same) order))

  dispatch-Parted :
      (k : Kind) (bound : ℕ) (out : List S) (w : Worker S) (t : Tuple W) (ticks : ℕ → ℕ)
      (st : Step W S)
      → Allowed k bound t.pane_id
      → Parted bound out w.pane_set
      → IsAscending (ids st.worker.pane_set)
      → dispatch k w t ticks ≡ some st
      → Parted (next_bound k bound t.pane_id) (out ++ st.sent) st.worker.pane_set
  unfolding dispatch handle_new_inst
  dispatch-Parted Kind.punct bound out w t ticks st h v order e =
      subst (λ z. Parted (next_bound Kind.punct bound t.pane_id) (out ++ z.sent) z.worker.pane_set)
        (some-injective _ _ e) (punct-Parted bound out w t ticks v)
  dispatch-Parted Kind.new_inst bound out w t ticks st h v order e =
      renew-Parted bound out w t _ _ st
        (subst (Parted bound out) (sym (lower_bound-Split t.pane_id w.pane_set v.open_order).whole)
          v)
        e
  dispatch-Parted Kind.regular bound out w t ticks st h v order e =
      entered-Parted bound out w t ticks st h v order e
  dispatch-Parted Kind.emptypane bound out w t ticks st h v order e =
      entered-Parted bound out w t ticks st h v order e
  dispatch-Parted Kind.unspecified bound out w t ticks st h v order e =
      entered-Parted bound out w t ticks st h v order e
  dispatch-Parted Kind.lull bound out w t ticks st h v order e = absurd h
  dispatch-Parted Kind.flush bound out w t ticks st h v order e = absurd h
  dispatch-Parted Kind.ends bound out w t ticks st h v order e = absurd h

  run-Parted :
      (bound : ℕ) (w : Worker S) (out : List S) (ms : List (Tuple W × (ℕ → ℕ))) (w' : Worker S)
      (out' : List S)
      → InTime bound ms
      → Parted bound out w.pane_set
      → run w out ms ≡ some (w', out')
      → IsAscending (ids (out' ++ w'.pane_set))
  unfolding run
  run-Parted bound w out [] w' out' h v e =
      subst (λ z. IsAscending (ids (z.1 ++ z.0.pane_set))) (some-injective _ _ e)
        (Parted-IsAscending bound out w.pane_set v)
  run-Parted bound w out ((t, ticks) ∷ ms) w' out' h v e =
      let after : Option (Step W S) → Type 0 =
        λ o. and_then o (λ st. run st.worker (out ++ st.sent) ms) ≡ some (w', out') in
      elim (Option-cases (svc w t ticks)) [
        | inl k ↦ absurd (none-ne-some (w', out') (subst after k e))
        | inr (st, k) ↦
            let next =
              dispatch-Parted t.kind bound out w t ticks st h.0 v
                (svc-IsAscending Rep laws w t ticks st v.open_order k) (unfold svc in k) in
            run-Parted (next_bound t.kind bound t.pane_id) st.worker (out ++ st.sent) ms w' out' h.1
              next (subst after k e)
      ]

  -- If no tuple that a new worker receives is of a pane below one that a punctuation before it has
  -- named, and no LULL, FLUSH or END comes, then what the worker has sent and what is open have
  -- ascending identifiers: each pane is sent at most once, and in order.
  pub run-IsAscending :
      (wp sp : ℕ) (ms : List (Tuple W × (ℕ → ℕ))) (w' : Worker S) (out' : List S)
      → InTime 0 ms
      → run (record { wp = wp; sp = sp; pane_set = [] }) [] ms ≡ some (w', out')
      → IsAscending (ids (out' ++ w'.pane_set))
  run-IsAscending wp sp ms w' out' h e =
      run-Parted 0 (record { wp = wp; sp = sp; pane_set = [] }) [] ms w' out' h
        (record { out_order = tt; out_below = tt; open_order = tt; open_above = tt }) e
