-- ===== src/Plq/Worker/Deque.antt =====
-- The order of the deque of open panes, and what a search in it finds.
use mathlib.Core.Path.{ap₂}
use mathlib.Core.Option.{some-injective, none-ne-some}
use mathlib.Core.List.{map-append}
use elastic_ppq.Common.{
  ℕ, ◌+◌, ◌≤◌, ◌<◌, ◌≡◌, refl, sym, ap, ◌∙◌, subst, inl, inr, List, [], ◌∷◌, ◌++◌, map, some, arith,
  All, All-append, All-map, ltb, ◌==◌, Bool-cases,
}
use elastic_ppq.Message.{Tuple, Kind}
use elastic_ppq.ResultsSet.{Derived, ResultsSet, IsDerived, IsResultsSet}
use elastic_ppq.Rset.{Rset}
use elastic_ppq.Rset
use elastic_ppq.Query.TData.{Row}
use elastic_ppq.Plq.Worker.{
  Worker, Step, id_of, lower_bound, set_no_instances, close_all, new_pane, renew, handle_punct,
  handle_end, handle_new_inst, handle_flush, handle_lull, find_or_create, enter, handle_tuple,
  dispatch, svc,
}

-- every number is below all that follow it
abbrev pub IsAscending : List ℕ → Type 0
IsAscending [] = Unit
IsAscending (n ∷ ns) = All (λ m. n < m) ns × IsAscending ns

pub All-prefix : (P : ℕ → Type 0) (xs ys : List ℕ) → All P (xs ++ ys) → All P xs
All-prefix P [] ys _ = tt
All-prefix P (x ∷ xs) ys (h, hs) = (h, All-prefix P xs ys hs)

-- Two ascending lists, and a number p that the first stays below and the second does not.
pub IsAscending-append :
    (p : ℕ) (xs ys : List ℕ)
    → IsAscending xs
    → All (λ n. n < p) xs
    → IsAscending ys
    → All (λ n. p ≤ n) ys
    → IsAscending (xs ++ ys)
IsAscending-append p [] ys _ _ h _ = h
IsAscending-append p (a ∷ xs) ys (ha, h) (lt, lts) hb ge = (
  All-append _ xs ys ha (All-map (λ n. p ≤ n) (λ n. a < n) (λ n le. omega (arith, le, lt)) ys ge),
  IsAscending-append p xs ys h lts hb ge,
)

module _ {S : Type 0} ⦃b : Derived S⦄ where
  abbrev pub ids : List S → List ℕ
  ids = map id_of

  -- What a search for p in an ascending deque finds: the two parts make up the deque, the identifiers
  -- of the first are below p, and those of the second are not.
  pub record Split (p : ℕ) (ss : List S) (parts : List S × List S) : Type 0 where
    pub whole : parts.0 ++ parts.1 ≡ ss
    pub below : All (λ n. n < p) (ids parts.0)
    pub above : All (λ n. p ≤ n) (ids parts.1)
    pub below_order : IsAscending (ids parts.0)
    pub above_order : IsAscending (ids parts.1)

  pub lower_bound-Split :
      (p : ℕ) (ss : List S) → IsAscending (ids ss) → Split p ss (lower_bound p ss)
  unfolding lower_bound
  lower_bound-Split p [] h = record {
    whole = refl;
    below = tt;
    above = tt;
    below_order = tt;
    above_order = tt;
  }
  lower_bound-Split p (s ∷ ss) h = elim (Bool-cases (ltb (id_of s) p)) [
    | inl k ↦
        let v = lower_bound-Split p ss h.1 in
        let parts = lower_bound p ss in
        let later : All (λ m. id_of s < m) (ids parts.0) =
          All-prefix _ (ids parts.0) (ids parts.1) (
            subst (All (λ m. id_of s < m)) (ap ids (sym v.whole) ∙ map-append id_of parts.0 parts.1)
              h.0) in
        rw k (record {
          whole = ap (◌∷◌ s) v.whole;
          below = (ground arith, v.below);
          above = v.above;
          below_order = (later, v.below_order);
          above_order = v.above_order;
        })
    | inr k ↦ rw k (record {
      whole = refl;
      below = tt;
      above = (
        ground arith,
        All-map (λ m. id_of s < m) (λ m. p ≤ m) (λ m lt. ground arith) (ids ss) h.0,
      );
      below_order = tt;
      above_order = h;
    })
  ]

module _ {S : Type 0} ⦃b : Derived S⦄ (d : IsDerived S) where
  -- a write to the base class that keeps the identifier
  pub id-with_base : (s : S) (f : Rset) → f.id ≡ id_of s → id_of (b.with_base s f) ≡ id_of s
  id-with_base s f e = ap (λ g. g.id) (d.base-with_base s f) ∙ e

  pub close_all-ids : (ticks : ℕ → ℕ) (i : ℕ) (ss : List S) → ids (close_all ticks i ss) ≡ ids ss
  unfolding close_all
  close_all-ids ticks i [] = refl
  close_all-ids ticks i (s ∷ ss) = ap₂ ◌∷◌ (id-with_base s _ refl) (close_all-ids ticks (i + 1) ss)

module _ {W S : Type 0} ⦃b : Derived S⦄ ⦃r : ResultsSet W S⦄ (Rep : S → List (Row W) → Type 0)
    (laws : IsResultsSet Rep) where
  pub id-new_pane : (w : Worker S) (t : Tuple W) → id_of (new_pane w t) ≡ t.pane_id
  unfolding new_pane Rset.create
  id-new_pane w t = ap (λ g. g.id) (laws.base-create _ t.pane_id t.no_instances)

  pub id-enter :
      (k : Kind) (t : Tuple W) (ticks : ℕ → ℕ) (s : S) → id_of (enter k t ticks s) ≡ id_of s
  unfolding enter
  id-enter Kind.regular t ticks s = laws.id-add_compute_tuple s t (ticks 0)
  id-enter Kind.unspecified t ticks s = id-with_base laws.derived s _ refl
  id-enter Kind.flush t ticks s = id-with_base laws.derived s _ refl
  id-enter Kind.new_inst t ticks s = id-with_base laws.derived s _ refl
  id-enter Kind.punct t ticks s = id-with_base laws.derived s _ refl
  id-enter Kind.lull t ticks s = id-with_base laws.derived s _ refl
  id-enter Kind.emptypane t ticks s = id-with_base laws.derived s _ refl
  id-enter Kind.ends t ticks s = id-with_base laws.derived s _ refl

  -- The results set that a tuple goes to is that of its pane, and the order of the deque is kept.
  pub find_or_create-ids :
      (w : Worker S) (t : Tuple W) (ss : List S)
      → IsAscending (ids ss)
      → All (λ n. t.pane_id ≤ n) (ids ss)
      → (id_of (find_or_create w t ss).0 ≡ t.pane_id)
        × IsAscending (t.pane_id ∷ ids (find_or_create w t ss).1)
  unfolding find_or_create
  find_or_create-ids w t [] h g = (id-new_pane w t, (tt, tt))
  find_or_create-ids w t (s ∷ rest) h g = elim (Bool-cases (id_of s == t.pane_id)) [
    | inl k ↦
        let e : id_of s ≡ t.pane_id = ground arith in
        rw k (e, (subst (λ n. All (λ m. n < m) (ids rest)) e h.0, h.1))
    | inr k ↦
        let lt : t.pane_id < id_of s = ground arith in
        let behind =
          All-map (λ m. id_of s < m) (λ m. t.pane_id < m) (λ m q. omega (arith, q, lt)) (ids rest)
            h.0 in
        rw k (id-new_pane w t, ((lt, behind), h))
  ]

  replaced :
      (p : ℕ) (xs ys : List S) (s : S)
      → id_of s ≡ p
      → IsAscending (ids xs)
      → All (λ n. n < p) (ids xs)
      → IsAscending (p ∷ ids ys)
      → IsAscending (ids (xs ++ s ∷ ys))
  replaced p xs ys s e hx lt hy = subst IsAscending (sym (map-append id_of xs (s ∷ ys))) (
      IsAscending-append p (ids xs) (ids (s ∷ ys)) hx lt
        (subst (λ n. IsAscending (n ∷ ids ys)) (sym e) hy)
        (
          omega (arith, e),
          All-map (λ m. p < m) (λ m. p ≤ m) (λ m q. omega (arith, q)) (ids ys) hy.0,
        ))

  tuple-IsAscending :
      (w : Worker S) (t : Tuple W) (ticks : ℕ → ℕ)
      → IsAscending (ids w.pane_set)
      → IsAscending (ids (handle_tuple w t ticks).worker.pane_set)
  unfolding handle_tuple
  tuple-IsAscending w t ticks h =
      let v = lower_bound-Split t.pane_id w.pane_set h in
      let parts = lower_bound t.pane_id w.pane_set in
      let found = find_or_create-ids w t parts.1 v.above_order v.above in
      replaced t.pane_id parts.0 _ _ (id-enter t.kind t ticks _ ∙ found.0) v.below_order v.below
        found.1

  renew-IsAscending :
      (w : Worker S) (t : Tuple W) (before behind : List S) (st : Step W S)
      → IsAscending (ids (before ++ behind))
      → renew w t before behind ≡ some st
      → IsAscending (ids st.worker.pane_set)
  unfolding renew
  renew-IsAscending w t before [] st h e = absurd (none-ne-some st e)
  renew-IsAscending w t before (s ∷ rest) st h e = elim (Bool-cases (id_of s == t.pane_id)) [
    | inl k ↦
        let same : ids (before ++ set_no_instances t.no_instances s ∷ rest)
            ≡ ids (before ++ s ∷ rest) =
          map-append id_of before _
          ∙ ap (λ n. ids before ++ n ∷ ids rest) (id-with_base laws.derived s _ refl)
          ∙ sym (map-append id_of before _) in
        subst (λ z. IsAscending (ids z.worker.pane_set)) (some-injective _ _ (rw k at e))
          (subst IsAscending (sym same) h)
    | inr k ↦ absurd (none-ne-some st (rw k at e))
  ]

  dispatch-IsAscending :
      (k : Kind) (w : Worker S) (t : Tuple W) (ticks : ℕ → ℕ) (st : Step W S)
      → IsAscending (ids w.pane_set)
      → dispatch k w t ticks ≡ some st
      → IsAscending (ids st.worker.pane_set)
  unfolding dispatch handle_punct handle_end handle_new_inst handle_flush handle_lull
  dispatch-IsAscending Kind.new_inst w t ticks st h e =
      let v = lower_bound-Split t.pane_id w.pane_set h in
      renew-IsAscending w t _ _ st (subst (λ l. IsAscending (ids l)) (sym v.whole) h) e
  dispatch-IsAscending Kind.punct w t ticks st h e =
      subst (λ z. IsAscending (ids z.worker.pane_set)) (some-injective _ _ e)
        (lower_bound-Split t.pane_id w.pane_set h).above_order
  dispatch-IsAscending Kind.ends w t ticks st h e =
      subst (λ z. IsAscending (ids z.worker.pane_set)) (some-injective _ _ e) tt
  dispatch-IsAscending Kind.flush w t ticks st h e =
      subst (λ z. IsAscending (ids z.worker.pane_set)) (some-injective _ _ e) tt
  dispatch-IsAscending Kind.lull w t ticks st h e =
      subst (λ z. IsAscending (ids z.worker.pane_set)) (some-injective _ _ e) h
  dispatch-IsAscending Kind.regular w t ticks st h e =
      subst (λ z. IsAscending (ids z.worker.pane_set)) (some-injective _ _ e)
        (tuple-IsAscending w t ticks h)
  dispatch-IsAscending Kind.emptypane w t ticks st h e =
      subst (λ z. IsAscending (ids z.worker.pane_set)) (some-injective _ _ e)
        (tuple-IsAscending w t ticks h)
  dispatch-IsAscending Kind.unspecified w t ticks st h e =
      subst (λ z. IsAscending (ids z.worker.pane_set)) (some-injective _ _ e)
        (tuple-IsAscending w t ticks h)

  -- The deque of open panes stays in the order of the identifiers, whatever message is handled.
  pub svc-IsAscending :
      (w : Worker S) (t : Tuple W) (ticks : ℕ → ℕ) (st : Step W S)
      → IsAscending (ids w.pane_set)
      → svc w t ticks ≡ some st
      → IsAscending (ids st.worker.pane_set)
  unfolding svc
  svc-IsAscending w t ticks st h e = dispatch-IsAscending t.kind w t ticks st h e
