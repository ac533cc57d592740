-- ===== src/Plq/Worker/Served.antt =====
-- The tuples that a PLQ worker received, from the first message to what it has sent.
use mathlib.Core.Option.{some-injective, none-ne-some}
use mathlib.Core.List.Perm
use elastic_ppq.Common.{
  ℕ, ◌≡◌, refl, sym, subst, inl, inr, List, [], ◌∷◌, ◌++◌, append_assoc, append-nil, Perm, Option,
  some, ◌==◌, Bool-cases, Option-cases, and_then,
}
use elastic_ppq.Common.Perms.{perm_comm, perm_front}
use elastic_ppq.Message.{Tuple, Kind}
use elastic_ppq.ResultsSet.{Derived, ResultsSet, IsResultsSet}
use elastic_ppq.Query.TData.{Row}
use elastic_ppq.Plq.Worker.{
  Worker, Step, id_of, lower_bound, renew, handle_punct, handle_end, handle_new_inst, handle_flush,
  handle_lull, handle_tuple, dispatch, svc, run,
}
use elastic_ppq.Plq.Worker.Deque.{
  IsAscending, ids, lower_bound-Split, find_or_create-ids, svc-IsAscending,
}
use elastic_ppq.Plq.Worker.Shares.{
  regulars_of, regulars, Served, Served-perm, Served-append, Served-split, Served-close_all,
  Served-flush_all, Served-lull, Served-renewed, Served-find_or_create, Fed-enter,
}

-- Some tuples join those of one results set, which stands behind xs.
perm_join {ℓ} :
    {A : Type ℓ} (xs m mine rest ys ts : List A)
    → Perm (mine ++ rest) ys
    → Perm (xs ++ ys) ts
    → Perm (xs ++ ((m ++ mine) ++ rest)) (m ++ ts)
perm_join xs m mine rest ys ts q p =
    subst (λ l. Perm (xs ++ l) (m ++ ts)) (sym (append_assoc m mine rest))
      (Perm.trans (perm_front xs m (mine ++ rest))
        (Perm.append (Perm.refl m) (Perm.trans (Perm.append (Perm.refl xs) q) p)))

-- what a step sends leaves the open panes, and what it takes in joins them
perm_step {ℓ} :
    {A : Type ℓ} (xs ys m given kept rest : List A)
    → Perm (given ++ kept) (m ++ ys)
    → Perm ((xs ++ given) ++ (kept ++ rest)) (xs ++ (ys ++ (m ++ rest)))
perm_step xs ys m given kept rest p =
    let inner : Perm ((given ++ kept) ++ rest) ((ys ++ m) ++ rest) =
      Perm.append (Perm.trans p (perm_comm m ys)) (Perm.refl rest) in
    subst (λ l. Perm l (xs ++ (ys ++ (m ++ rest)))) (sym (append_assoc xs given (kept ++ rest)))
      (Perm.append (Perm.refl xs) (
        subst (λ l. Perm l (ys ++ (m ++ rest))) (append_assoc given kept rest)
          (subst (Perm ((given ++ kept) ++ rest)) (append_assoc ys m rest) inner)))

module _ {W S : Type 0} ⦃b : Derived S⦄ ⦃r : ResultsSet W S⦄ (Rep : S → List (Row W) → Type 0)
    (laws : IsResultsSet Rep) where
  -- Of the tuples ts, some were sent with a step, and the others are in the open panes.
  record Delivered (st : Step W S) (ts : List (Tuple W)) : Type 0 where
    given : List (Tuple W)
    kept : List (Tuple W)
    away : Served Rep st.sent given
    open_panes : Served Rep st.worker.pane_set kept
    all : Perm (given ++ kept) ts

  Served-lower_bound :
      (p : ℕ) (ss : List S) (ts : List (Tuple W))
      → IsAscending (ids ss)
      → Served Rep ss ts
      → (xs : List (Tuple W)) × (ys : List (Tuple W)) × Served Rep (lower_bound p ss).0 xs
        × Served Rep (lower_bound p ss).1 ys
        × Perm (xs ++ ys) ts
  Served-lower_bound p ss ts h v =
      Served-split Rep (lower_bound p ss).0 (lower_bound p ss).1 ts
        (subst (λ l. Served Rep l ts) (sym (lower_bound-Split p ss h).whole) v)

  all_sent :
      (st : Step W S) (ts : List (Tuple W))
      → Served Rep st.sent ts
      → st.worker.pane_set ≡ []
      → Delivered st ts
  all_sent st ts v e = record {
    given = ts;
    kept = [];
    away = v;
    open_panes = subst (λ l. Served Rep l []) (sym e) refl;
    all = subst (λ l. Perm l ts) (sym (append-nil ts)) (Perm.refl ts);
  }

  tuple-Delivered :
      (w : Worker S) (t : Tuple W) (ticks : ℕ → ℕ) (ts : List (Tuple W))
      → IsAscending (ids w.pane_set)
      → Served Rep w.pane_set ts
      → Delivered (handle_tuple w t ticks) (regulars_of t.kind t ++ ts)
  unfolding handle_tuple
  tuple-Delivered w t ticks ts h v =
      let order = lower_bound-Split t.pane_id w.pane_set h in
      let (xs, ys, vx, vy, p) = Served-lower_bound t.pane_id w.pane_set ts h v in
      let parts = lower_bound t.pane_id w.pane_set in
      let (mine, rest, f, vr, q) = Served-find_or_create Rep laws w t parts.1 ys vy in
      let found = find_or_create-ids Rep laws w t parts.1 order.above_order order.above in
      let fed = Fed-enter Rep laws t.kind t ticks _ mine found.0 f in
      record {
        given = [];
        kept = xs ++ ((regulars_of t.kind t ++ mine) ++ rest);
        away = refl;
        open_panes = Served-append Rep parts.0 _ xs _ vx (_, rest, fed, vr, Perm.refl _);
        all = perm_join xs (regulars_of t.kind t) mine rest ys ts q p;
      }

  renew-Delivered :
      (w : Worker S) (t : Tuple W) (before behind : List S) (ts : List (Tuple W)) (st : Step W S)
      → Served Rep (before ++ behind) ts
      → renew w t before behind ≡ some st
      → Delivered st ts
  unfolding renew
  renew-Delivered w t before [] ts st v e = absurd (none-ne-some st e)
  renew-Delivered w t before (s ∷ rest) ts st v e = elim (Bool-cases (id_of s == t.pane_id)) [
    | inl k ↦
        let (xs, ys, vx, vy, p) = Served-split Rep before (s ∷ rest) ts v in
        subst (λ z. Delivered z ts) (some-injective _ _ (rw k at e))
          (record {
            given = [];
            kept = xs ++ ys;
            away = refl;
            open_panes =
                Served-append Rep before _ xs ys vx
                  (Served-renewed Rep laws t.no_instances s rest ys vy);
            all = p;
          })
    | inr k ↦ absurd (none-ne-some st (rw k at e))
  ]

  punct-Delivered :
      (w : Worker S) (t : Tuple W) (ticks : ℕ → ℕ) (ts : List (Tuple W))
      → IsAscending (ids w.pane_set)
      → Served Rep w.pane_set ts
      → Delivered (handle_punct w t ticks) ts
  unfolding handle_punct
  punct-Delivered w t ticks ts h v =
      let (xs, ys, vx, vy, p) = Served-lower_bound t.pane_id w.pane_set ts h v in
      record {
        given = xs;
        kept = ys;
        away = Served-close_all Rep laws ticks 0 _ xs vx;
        open_panes = vy;
        all = p;
      }

  entered :
      (k : Kind) (w : Worker S) (t : Tuple W) (ticks : ℕ → ℕ) (ts : List (Tuple W)) (st : Step W S)
      → t.kind ≡ k
      → IsAscending (ids w.pane_set)
      → Served Rep w.pane_set ts
      → some (handle_tuple w t ticks) ≡ some st
      → Delivered st (regulars_of k t ++ ts)
  entered k w t ticks ts st c h v e =
      subst (λ z. Delivered z (regulars_of k t ++ ts)) (some-injective _ _ e)
        (subst (λ j. Delivered (handle_tuple w t ticks) (regulars_of j t ++ ts)) c
          (tuple-Delivered w t ticks ts h v))

  dispatch-Delivered :
      (k : Kind) (w : Worker S) (t : Tuple W) (ticks : ℕ → ℕ) (ts : List (Tuple W)) (st : Step W S)
      → t.kind ≡ k
      → IsAscending (ids w.pane_set)
      → Served Rep w.pane_set ts
      → dispatch k w t ticks ≡ some st
      → Delivered st (regulars_of k t ++ ts)
  unfolding dispatch handle_end handle_new_inst handle_flush handle_lull
  dispatch-Delivered Kind.punct w t ticks ts st c h v e =
      subst (λ z. Delivered z ts) (some-injective _ _ e) (punct-Delivered w t ticks ts h v)
  dispatch-Delivered Kind.ends w t ticks ts st c h v e =
      subst (λ z. Delivered z ts) (some-injective _ _ e)
        (all_sent _ ts (Served-close_all Rep laws ticks 0 w.pane_set ts v) refl)
  dispatch-Delivered Kind.flush w t ticks ts st c h v e =
      subst (λ z. Delivered z ts) (some-injective _ _ e)
        (all_sent _ ts (Served-flush_all Rep laws ticks 0 w.pane_set ts v) refl)
  dispatch-Delivered Kind.lull w t ticks ts st c h v e =
      subst (λ z. Delivered z ts) (some-injective _ _ e)
        (record {
          given = [];
          kept = ts;
          away = Served-lull Rep laws w t ticks;
          open_panes = v;
          all = Perm.refl ts;
        })
  dispatch-Delivered Kind.new_inst w t ticks ts st c h v e =
      renew-Delivered w t _ _ ts st
        (subst (λ l. Served Rep l ts) (sym (lower_bound-Split t.pane_id w.pane_set h).whole) v) e
  dispatch-Delivered Kind.regular w t ticks ts st c h v e =
      entered Kind.regular w t ticks ts st c h v e
  dispatch-Delivered Kind.emptypane w t ticks ts st c h v e =
      entered Kind.emptypane w t ticks ts st c h v e
  dispatch-Delivered Kind.unspecified w t ticks ts st c h v e =
      entered Kind.unspecified w t ticks ts st c h v e

  run-Served_from :
      (w : Worker S) (out : List S) (ms : List (Tuple W × (ℕ → ℕ))) (xs ys : List (Tuple W))
      (w' : Worker S) (out' : List S)
      → IsAscending (ids w.pane_set)
      → Served Rep out xs
      → Served Rep w.pane_set ys
      → run w out ms ≡ some (w', out')
      → Served Rep (out' ++ w'.pane_set) (xs ++ (ys ++ regulars ms))
  unfolding run
  run-Served_from w out [] xs ys w' out' h v u e =
      subst (λ z. Served Rep (z.1 ++ z.0.pane_set) (xs ++ (ys ++ []))) (some-injective _ _ e)
        (subst (λ l. Served Rep (out ++ w.pane_set) (xs ++ l)) (sym (append-nil ys))
          (Served-append Rep out w.pane_set xs ys v u))
  run-Served_from w out ((t, ticks) ∷ ms) xs ys w' out' h v u e =
      let after : Option (Step W S) → Type 0 =
        λ o. and_then o (λ st. run st.worker (out ++ st.sent) ms) ≡ some (w', out') in
      elim (Option-cases (svc w t ticks)) [
        | inl k ↦ absurd (none-ne-some (w', out') (subst after k e))
        | inr (st, k) ↦
            let d = dispatch-Delivered t.kind w t ticks ys st refl h u (unfold svc in k) in
            let ih =
              run-Served_from st.worker (out ++ st.sent) ms (xs ++ d.given) d.kept w' out'
                (svc-IsAscending Rep laws w t ticks st h k)
                (Served-append Rep out st.sent xs d.given v d.away) d.open_panes
                (subst after k e) in
            Served-perm Rep (out' ++ w'.pane_set) _ _
              (perm_step xs ys (regulars_of t.kind t) d.given d.kept (regulars ms) d.all) ih
      ]

  -- For every sequence of messages that a new worker handles without an abort, what it has sent and
  -- what it still holds share out exactly the regular tuples that came in, each tuple in one results
  -- set, which is of the tuple's pane.
  pub run-Served :
      (wp sp : ℕ) (ms : List (Tuple W × (ℕ → ℕ))) (w' : Worker S) (out' : List S)
      → run (record { wp = wp; sp = sp; pane_set = [] }) [] ms ≡ some (w', out')
      → Served Rep (out' ++ w'.pane_set) (regulars ms)
  run-Served wp sp ms w' out' e =
      run-Served_from (record { wp = wp; sp = sp; pane_set = [] }) [] ms [] [] w' out' tt refl refl
        e
