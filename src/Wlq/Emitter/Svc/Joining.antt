-- ===== src/Wlq/Emitter/Svc/Joining.antt =====
-- A results set joins its windows.
use elastic_ppq.Common.{
  ℕ, zero, suc, ◌+◌, ◌-◌, ◌≤◌, ◌<◌, ◌≡◌, ◌≢◌, refl, ap, ◌∙◌, subst, inl, inr, ◌⊎◌, List, [], ◌∷◌,
  Option, none, some, arith, get_or, length, length-append,
}
use elastic_ppq.ResultsSet.{Derived}
use elastic_ppq.Wlq.Emitter.{Task, WinDescr, sum_ins, update_count, enqueue}
use elastic_ppq.Wlq.Emitter.Tasks.{pending}
use elastic_ppq.Wlq.Emitter.Svc.{join_windows}
use elastic_ppq.Wlq.Emitter.Svc.Assigning.{at_rest}
use elastic_ppq.Wlq.Emitter.Svc.Growing.{pending-cons}
use elastic_ppq.Wlq.Emitter.Svc.Traffic.{Traffic, Open, Slot, Windows}

module _ {S : Type 0} ⦃b : Derived S⦄ where
  -- Only what has arrived matters of the count.
  Slot-arrived :
      (f g : ℕ → ℕ) (a : Traffic S) (k : ℕ) (o : Option (WinDescr S))
      → g k ≡ f k
      → Slot f a k o
      → Slot g a k o
  Slot-arrived f g a k none e c = c
  Slot-arrived f g a k (some wd) e o = record {
    named = o.named;
    sum = e ∙ o.sum;
    promise = λ n h. omega (arith, e, o.promise n h);
    unsent = o.unsent;
    alone = λ pos. omega (arith, e, o.alone pos);
    busy = o.busy;
    single = o.single;
  }

  Windows-arrived :
      (f g : ℕ → ℕ) (a : Traffic S) (k : ℕ) (l : List (Option (WinDescr S)))
      → ((j : ℕ) → k ≤ j → g j ≡ f j)
      → Windows f a k l
      → Windows g a k l
  Windows-arrived f g a k [] e v = tt
  Windows-arrived f g a k (o ∷ l) e (x, v) = (
    Slot-arrived f g a k o (e k (omega arith)) x,
    Windows-arrived f g a (k + 1) l (λ j ge. e j (omega (arith, ge))) v,
  )

  -- The windows after p joined n of them from place i on.
  pub record Joined (g : ℕ → ℕ) (ws : List (Option (Task S))) (k n : ℕ)
      (l l' : List (Option (WinDescr S))) : Type 0 where
    pub windows : Windows g (at_rest ws) k l'
    pub size : length l' ≡ length l
    pub count : pending l' ≡ pending l + n

  module _ (p : S) (f g : ℕ → ℕ) (ws : List (Option (Task S))) where
    enqueue-Open :
        (k : ℕ) (wd : WinDescr S)
        → Open f (at_rest ws) k wd
        → g k ≡ f k + 1
        → ((n : ℕ) → sum_ins (update_count wd p).cnt_ins ≡ some n → f k < n)
        → Open g (at_rest ws) k (enqueue p wd)
    unfolding enqueue update_count
    enqueue-Open k wd o e h = record {
      named = o.named;
      sum = omega (arith, o.sum, e, length-append wd.pending_queue (p ∷ []));
      promise = λ n q. omega (arith, h n q, e);
      unsent = o.unsent;
      alone = λ pos. absurd (omega (arith, pos));
      busy = o.busy;
      single = o.single;
    }

    queue-enqueue :
        (wd : WinDescr S) → length (enqueue p wd).pending_queue ≡ length wd.pending_queue + 1
    unfolding enqueue update_count
    queue-enqueue wd = length-append wd.pending_queue (p ∷ [])

    pub join-Joined :
        (i n k : ℕ) (l : List (Option (WinDescr S)))
        → Windows f (at_rest ws) k l
        → i + n ≤ length l
        → ((m : ℕ) → i ≤ m → m < i + n → get_or l m none ≢ none)
        → ((m : ℕ) (wd : WinDescr S)
            → i ≤ m
            → m < i + n
            → get_or l m none ≡ some wd
            → (c : ℕ) → sum_ins (update_count wd p).cnt_ins ≡ some c
            → f (k + m) < c)
        → ((m : ℕ) → i ≤ m → m < i + n → g (k + m) ≡ f (k + m) + 1)
        → ((m : ℕ) → (m < i) ⊎ (i + n ≤ m) → g (k + m) ≡ f (k + m))
        → (l' : List (Option (WinDescr S))) × (join_windows p i n l ≡ some l')
          × Joined g ws k n l l'
    unfolding join_windows
    join-Joined zero zero k l v le opened promised inn out = (
      l,
      refl,
      record {
        windows =
            Windows-arrived f g (at_rest ws) k l
              (λ j ge. subst (λ z. g z ≡ f z) (omega (arith, ge)) (out (j - k) (inr (omega arith))))
              v;
        size = refl;
        count = omega arith;
      },
    )
    join-Joined zero (suc n) k [] v le opened promised inn out = absurd (omega (arith, le))
    join-Joined zero (suc n) k (none ∷ l) v le opened promised inn out =
        absurd (opened 0 (omega arith) (omega arith) refl)
    join-Joined zero (suc n) k (some wd ∷ l) (o, v) le opened promised inn out =
        let here : k + 0 ≡ k = omega arith in
        let next : (m : ℕ) → k + 1 + m ≡ k + (m + 1) = λ m. omega arith in
        let (l', e, x) =
          join-Joined zero n (k + 1) l v (omega (arith, le))
            (λ m ge lt. opened (suc m) (omega arith) (omega (arith, lt)))
            (λ m wd' ge lt q c h.
              subst (λ z. f z < c) (omega arith)
                (promised (suc m) wd' (omega arith) (omega (arith, lt)) q c h))
            (λ m ge lt.
              subst (λ z. g z ≡ f z + 1) (omega arith)
                (inn (suc m) (omega arith) (omega (arith, lt))))
            (λ m c.
              subst (λ z. g z ≡ f z) (omega arith)
                (out (suc m) (elim c [
                  | inl z ↦ absurd (omega (arith, z))
                  | inr z ↦ inr (omega (arith, z))
                ]))) in
        (
          some (enqueue p wd) ∷ l',
          rw e refl,
          record {
            windows = (
              enqueue-Open k wd o
                  (subst (λ z. g z ≡ f z + 1) here (inn 0 (omega arith) (omega arith)))
                  (λ c h.
                    subst (λ z. f z < c) here (promised 0 wd (omega arith) (omega arith) refl c h)),
              x.windows,
            );
            size = ap suc x.size;
            count = omega (arith, x.count, queue-enqueue wd);
          },
        )
    join-Joined (suc i) n k [] v le opened promised inn out = absurd (omega (arith, le))
    join-Joined (suc i) n k (o ∷ l) (y, v) le opened promised inn out =
        let same : g k ≡ f k = subst (λ z. g z ≡ f z) (omega arith) (out 0 (inl (omega arith))) in
        let (l', e, x) =
          join-Joined i n (k + 1) l v (omega (arith, le))
            (λ m ge lt. opened (suc m) (omega (arith, ge)) (omega (arith, lt)))
            (λ m wd' ge lt q c h.
              subst (λ z. f z < c) (omega arith)
                (promised (suc m) wd' (omega (arith, ge)) (omega (arith, lt)) q c h))
            (λ m ge lt.
              subst (λ z. g z ≡ f z + 1) (omega arith)
                (inn (suc m) (omega (arith, ge)) (omega (arith, lt))))
            (λ m c.
              subst (λ z. g z ≡ f z) (omega arith)
                (out (suc m)
                  (elim c [ inl z ↦ inl (omega (arith, z)) | inr z ↦ inr (omega (arith, z)) ]))) in
        (
          o ∷ l',
          rw e refl,
          record {
            windows = (Slot-arrived f g (at_rest ws) k o same y, x.windows);
            size = ap suc x.size;
            count = pending-cons o l l' n x.count;
          },
        )
