-- ===== src/Plq/Worker/Shares.antt =====
-- Tuples that are shared out over results sets, each to the one of its pane, and what keeps them so.
use mathlib.Core.List.Perm
use elastic_ppq.Common.{
  ℕ, ◌+◌, ◌≡◌, refl, sym, ◌∙◌, subst, inl, inr, List, [], ◌∷◌, ◌++◌, map, append_assoc, append-nil,
  Perm, All, ◌==◌, Bool-cases,
}
use elastic_ppq.Message.{Tuple, Kind}
use elastic_ppq.ResultsSet.{Derived, ResultsSet, IsResultsSet}
use elastic_ppq.Rset.{Rset}
use elastic_ppq.Query.TData.{Row, row_of}
use elastic_ppq.Plq.Worker.{
  Worker, id_of, set_no_instances, set_closing_time, set_times, close_all, flush_all, new_pane,
  find_or_create, enter,
}
use elastic_ppq.Plq.Worker.Deque.{id-with_base}

module _ {W : Type 0} where
  -- the regular tuples of some messages
  abbrev pub regulars_of : Kind → Tuple W → List (Tuple W)
  regulars_of Kind.regular t = t ∷ []
  regulars_of _ t = []

  abbrev pub regulars : List (Tuple W × (ℕ → ℕ)) → List (Tuple W)
  regulars [] = []
  regulars ((t, ticks) ∷ ms) = regulars_of t.kind t ++ regulars ms

module _ {W S : Type 0} ⦃b : Derived S⦄ ⦃r : ResultsSet W S⦄ (Rep : S → List (Row W) → Type 0) where
  -- A results set is that of the tuples ts, and all of them belong to its pane.
  pub record Fed (s : S) (ts : List (Tuple W)) : Type 0 where
    pub rep : Rep s (map row_of ts)
    pub pane : All (λ t. t.pane_id ≡ id_of s) ts

  -- The tuples ts are shared out over some results sets: each has its part, and the parts make up ts.
  abbrev pub Served : List S → List (Tuple W) → Type 0
  Served [] ts = ts ≡ []
  Served (s ∷ ss) ts =
      (xs : List (Tuple W)) × (ys : List (Tuple W)) × Fed s xs × Served ss ys × Perm (xs ++ ys) ts

  pub Served-perm :
      (ss : List S) (xs ys : List (Tuple W)) → Perm xs ys → Served ss xs → Served ss ys
  Served-perm [] xs ys h e = sym (Perm.nil-eq (subst (λ l. Perm l ys) e h))
  Served-perm (s ∷ ss) xs ys h (as1, bs1, f, v, p) = (as1, bs1, f, v, Perm.trans p h)

  pub Served-append :
      (ss us : List S) (xs ys : List (Tuple W))
      → Served ss xs
      → Served us ys
      → Served (ss ++ us) (xs ++ ys)
  Served-append [] us xs ys e v = subst (λ l. Served us (l ++ ys)) (sym e) v
  Served-append (s ∷ ss) us xs ys (mine, rest, f, v, p) w = (
    mine,
    rest ++ ys,
    f,
    Served-append ss us rest ys v w,
    subst (λ l. Perm l (xs ++ ys)) (append_assoc mine rest ys) (Perm.append p (Perm.refl ys)),
  )

  pub Served-split :
      (ss us : List S) (ts : List (Tuple W))
      → Served (ss ++ us) ts
      → (xs : List (Tuple W)) × (ys : List (Tuple W)) × Served ss xs
        × Served us ys
        × Perm (xs ++ ys) ts
  Served-split [] us ts v = ([], ts, refl, v, Perm.refl ts)
  Served-split (s ∷ ss) us ts (mine, rest, f, v, p) =
      let (xs, ys, vx, vy, q) = Served-split ss us rest v in
      (
        mine ++ xs,
        ys,
        (mine, xs, f, vx, Perm.refl _),
        vy,
        Perm.trans
            (subst (λ l. Perm l (mine ++ rest)) (sym (append_assoc mine xs ys))
              (Perm.append (Perm.refl mine) q))
            p,
      )

  pub Served-one : (s : S) (ts : List (Tuple W)) → Fed s ts → Served (s ∷ []) ts
  Served-one s ts f = (ts, [], f, refl, subst (λ l. Perm l ts) (sym (append-nil ts)) (Perm.refl ts))

module _ {W S : Type 0} ⦃b : Derived S⦄ ⦃r : ResultsSet W S⦄ (Rep : S → List (Row W) → Type 0)
    (laws : IsResultsSet Rep) where
  Fed-with_base :
      (s : S) (f : Rset) (ts : List (Tuple W))
      → f.id ≡ id_of s
      → Fed Rep s ts
      → Fed Rep (b.with_base s f) ts
  Fed-with_base s f ts e v = record {
    rep = laws.Rep-with_base s f (map row_of ts) v.rep;
    pane = subst (λ n. All (λ t. t.pane_id ≡ n) ts) (sym (id-with_base laws.derived s f e)) v.pane;
  }

  Fed-set_no_instances :
      (n : ℕ) (s : S) (ts : List (Tuple W)) → Fed Rep s ts → Fed Rep (set_no_instances n s) ts
  Fed-set_no_instances n s ts v = Fed-with_base s _ ts refl v

  pub Served-close_all :
      (ticks : ℕ → ℕ) (i : ℕ) (ss : List S) (ts : List (Tuple W))
      → Served Rep ss ts
      → Served Rep (close_all ticks i ss) ts
  unfolding close_all
  Served-close_all ticks i [] ts v = v
  Served-close_all ticks i (s ∷ ss) ts (mine, rest, f, v, p) =
      (mine, rest, Fed-with_base s _ mine refl f, Served-close_all ticks (i + 1) ss rest v, p)

  pub Served-flush_all :
      (ticks : ℕ → ℕ) (i : ℕ) (ss : List S) (ts : List (Tuple W))
      → Served Rep ss ts
      → Served Rep (flush_all ticks i ss) ts
  unfolding flush_all
  Served-flush_all ticks i [] ts v = v
  Served-flush_all ticks i (s ∷ ss) ts (mine, rest, f, v, p) =
      let g = Fed-set_no_instances 0 s mine f in
      (mine, rest, Fed-with_base _ _ mine refl g, Served-flush_all ticks (i + 1) ss rest v, p)

  Fed-new_pane : (w : Worker S) (t : Tuple W) → Fed Rep (new_pane w t) []
  unfolding new_pane
  Fed-new_pane w t = record { rep = laws.Rep-create _ t.pane_id t.no_instances; pane = tt }

  pub Served-lull :
      (w : Worker S) (t : Tuple W) (ticks : ℕ → ℕ)
      → Served Rep
          (set_closing_time (ticks 2) (set_times (ticks 0) (ticks 1) (new_pane w t)) ∷ [])
          []
  Served-lull w t ticks =
      Served-one Rep _ [] (Fed-with_base _ _ [] refl (Fed-with_base _ _ [] refl (Fed-new_pane w t)))

  pub Served-renewed :
      (n : ℕ) (s : S) (rest : List S) (ts : List (Tuple W))
      → Served Rep (s ∷ rest) ts
      → Served Rep (set_no_instances n s ∷ rest) ts
  Served-renewed n s rest ts (mine, others, f, v, p) =
      (mine, others, Fed-set_no_instances n s mine f, v, p)

  -- the results set of a tuple's pane, with the tuples it has, and the others
  pub Served-find_or_create :
      (w : Worker S) (t : Tuple W) (ss : List S) (ts : List (Tuple W))
      → Served Rep ss ts
      → (xs : List (Tuple W)) × (ys : List (Tuple W)) × Fed Rep (find_or_create w t ss).0 xs
        × Served Rep (find_or_create w t ss).1 ys
        × Perm (xs ++ ys) ts
  unfolding find_or_create
  Served-find_or_create w t [] ts v = ([], ts, Fed-new_pane w t, v, Perm.refl ts)
  Served-find_or_create w t (s ∷ rest) ts v = elim (Bool-cases (id_of s == t.pane_id)) [
    | inl k ↦ rw k v
    | inr k ↦ rw k ([], ts, Fed-new_pane w t, v, Perm.refl ts)
  ]

  pub Fed-enter :
      (k : Kind) (t : Tuple W) (ticks : ℕ → ℕ) (s : S) (ts : List (Tuple W))
      → id_of s ≡ t.pane_id
      → Fed Rep s ts
      → Fed Rep (enter k t ticks s) (regulars_of k t ++ ts)
  unfolding enter
  Fed-enter Kind.regular t ticks s ts e v =
      let same = laws.id-add_compute_tuple s t (ticks 0) in
      record {
        rep = laws.Rep-add_compute_tuple s t (ticks 0) (map row_of ts) v.rep;
        pane = (sym (same ∙ e), subst (λ n. All (λ u. u.pane_id ≡ n) ts) (sym same) v.pane);
      }
  Fed-enter Kind.unspecified t ticks s ts e v = Fed-with_base s _ ts refl v
  Fed-enter Kind.flush t ticks s ts e v = Fed-with_base s _ ts refl v
  Fed-enter Kind.new_inst t ticks s ts e v = Fed-with_base s _ ts refl v
  Fed-enter Kind.punct t ticks s ts e v = Fed-with_base s _ ts refl v
  Fed-enter Kind.lull t ticks s ts e v = Fed-with_base s _ ts refl v
  Fed-enter Kind.emptypane t ticks s ts e v = Fed-with_base s _ ts refl v
  Fed-enter Kind.ends t ticks s ts e v = Fed-with_base s _ ts refl v
