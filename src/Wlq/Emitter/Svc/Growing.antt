-- ===== src/Wlq/Emitter/Svc/Growing.antt =====
-- The deque grows by new windows.
use elastic_ppq.Common.{
  ℕ, zero, suc, ◌+◌, ◌-◌, ◌≤◌, ◌<◌, ◌≡◌, ◌≢◌, refl, ap, subst, List, [], ◌∷◌, ◌++◌, Option, none,
  some, arith, get_or, length,
}
use elastic_ppq.ResultsSet.{Derived}
use elastic_ppq.Wlq.Emitter.{Task, WinDescr, new_descr}
use elastic_ppq.Wlq.Emitter.Tasks.{pending}
use elastic_ppq.Wlq.Emitter.Svc.{new_descrs}
use elastic_ppq.Wlq.Emitter.Svc.Assigning.{at_rest}
use elastic_ppq.Wlq.Emitter.Svc.Traffic.{Traffic, Future, Windows}
use elastic_ppq.Wlq.Emitter.Svc.Measures.{held-updating-load}

module _ {S : Type 0} where
  pub length-new_descrs :
      (new_set : ℕ → ℕ → ℕ → S) (wp sp id n : ℕ) → length (new_descrs new_set wp sp id n) ≡ n
  unfolding new_descrs
  length-new_descrs new_set wp sp id zero = refl
  length-new_descrs new_set wp sp id (suc n) = ap suc (length-new_descrs new_set wp sp (id + 1) n)

  pub pending-append : (l m : List (Option (WinDescr S))) → pending (l ++ m) ≡ pending l + pending m
  pending-append [] m = omega arith
  pending-append (none ∷ l) m = pending-append l m
  pending-append (some wd ∷ l) m = omega (arith, pending-append l m)

  pub pending-new_descrs :
      (new_set : ℕ → ℕ → ℕ → S) (wp sp id n : ℕ) → pending (new_descrs new_set wp sp id n) ≡ 0
  unfolding new_descrs new_descr
  pending-new_descrs new_set wp sp id zero = refl
  pending-new_descrs new_set wp sp id (suc n) =
      omega (arith, pending-new_descrs new_set wp sp (id + 1) n)

  pub new_descrs-open :
      (new_set : ℕ → ℕ → ℕ → S) (wp sp id n i : ℕ)
      → i < n
      → get_or (new_descrs new_set wp sp id n) i none ≢ none
  unfolding new_descrs
  new_descrs-open new_set wp sp id zero i lt = absurd (omega (arith, lt))
  new_descrs-open new_set wp sp id (suc n) zero lt = λ e. cc
  new_descrs-open new_set wp sp id (suc n) (suc i) lt =
      new_descrs-open new_set wp sp (id + 1) n i (omega (arith, lt))

  -- Where the open windows are after the deque has grown.
  pub append-open :
      (l m : List (Option (WinDescr S))) (i : ℕ)
      → (i < length l → get_or l i none ≢ none)
      → (length l ≤ i → get_or m (i - length l) none ≢ none)
      → get_or (l ++ m) i none ≢ none
  append-open [] m i h k = subst (λ j. get_or m j none ≢ none) (omega arith) (k (omega arith))
  append-open (o ∷ l) m zero h k = h (omega arith)
  append-open (o ∷ l) m (suc i) h k =
      append-open l m i (λ lt. h (omega (arith, lt)))
        (λ ge. subst (λ j. get_or m j none ≢ none) (omega arith) (k (omega (arith, ge))))

  pub pending-cons :
      (o : Option (WinDescr S)) (l l' : List (Option (WinDescr S))) (n : ℕ)
      → pending l' ≡ pending l + n
      → pending (o ∷ l') ≡ pending (o ∷ l) + n
  pending-cons none l l' n e = e
  pending-cons (some wd) l l' n e = omega (arith, e)

module _ {S : Type 0} ⦃b : Derived S⦄ where
  pub Windows-append :
      (arrived : ℕ → ℕ) (a : Traffic S) (k : ℕ) (l m : List (Option (WinDescr S)))
      → Windows arrived a k l
      → Windows arrived a (k + length l) m
      → Windows arrived a k (l ++ m)
  Windows-append arrived a k [] m v w = subst (λ j. Windows arrived a j m) (omega arith) w
  Windows-append arrived a k (o ∷ l) m (x, v) w = (
    x,
    Windows-append arrived a (k + 1) l m v (subst (λ j. Windows arrived a j m) (omega arith) w),
  )

  pub new_descrs-Windows :
      (arrived : ℕ → ℕ) (ws : List (Option (Task S))) (new_set : ℕ → ℕ → ℕ → S) (wp sp id n : ℕ)
      → ((j : ℕ) → (b.base (new_set 1 j 1)).id ≡ j)
      → ((j : ℕ) → id ≤ j → Future arrived (at_rest ws) j)
      → Windows arrived (at_rest ws) id (new_descrs new_set wp sp id n)
  unfolding new_descrs new_descr
  new_descrs-Windows arrived ws new_set wp sp id zero named f = tt
  new_descrs-Windows arrived ws new_set wp sp id (suc n) named f =
      let h = f id (omega arith) in
      (
        record {
          named = named id;
          sum = omega (arith, h.none_arrived, h.sent_loads);
          promise = λ m e. omega (arith, h.none_arrived);
          unsent = h.finals;
          alone = λ pos. absurd (omega (arith, pos));
          busy = omega (arith, held-updating-load id ws, h.sent_loads);
          single = omega (arith, held-updating-load id ws, h.sent_loads);
        },
        new_descrs-Windows arrived ws new_set wp sp (id + 1) n named
            (λ j ge. f j (omega (arith, ge))),
      )
