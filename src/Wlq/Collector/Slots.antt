-- ===== src/Wlq/Collector/Slots.antt =====
-- The deque of the collector: slot i has the results set of window next_win_id + i, or is free.
use mathlib.Core.Path.{ap₂}
use mathlib.Core.List.Perm
use elastic_ppq.Common.{
  ℕ, zero, suc, ◌+◌, ◌≡◌, refl, sym, ap, subst, inl, inr, Bool, true, false, List, [], ◌∷◌, ◌++◌,
  map, Perm, Option, none, some, arith, length, set, exists, leb, ◌==◌, Bool-cases,
}
use elastic_ppq.ResultsSet.{Derived}
use elastic_ppq.Query.TData.{resize}
use elastic_ppq.Wlq.Collector.{send_run, buffer}

-- n numbers from base on
abbrev pub range : ℕ → ℕ → List ℕ
range base zero = []
range base (suc n) = base ∷ range (base + 1) n

module _ {S : Type 0} where
  -- the results sets in the slots
  abbrev pub held : List (Option S) → List S
  held [] = []
  held (none ∷ l) = held l
  held (some s ∷ l) = s ∷ held l

  -- the first slot is free
  abbrev pub IsAhead : List (Option S) → Type 0
  IsAhead [] = Unit
  IsAhead (none ∷ l) = Unit
  IsAhead (some s ∷ l) = ⊥

module _ {S : Type 0} ⦃b : Derived S⦄ where
  abbrev pub id_of : S → ℕ
  id_of s = (b.base s).id

  abbrev pub win_ids : List S → List ℕ
  win_ids = map id_of

  abbrev pub IsPlaced : ℕ → List (Option S) → Type 0
  IsPlaced base [] = Unit
  IsPlaced base (none ∷ l) = IsPlaced (base + 1) l
  IsPlaced base (some s ∷ l) = (id_of s ≡ base) × IsPlaced (base + 1) l

  -- the slots that are sent in one go
  pub record Run (base : ℕ) (l : List (Option S)) (r : List S × List (Option S)) : Type 0 where
    pub sent_ids : win_ids r.0 ≡ range base (length r.0)
    pub whole : held l ≡ r.0 ++ held r.1
    pub placed : IsPlaced (base + length r.0) r.1
    pub ahead : IsAhead r.1

  pub send_run-Run : (base : ℕ) (l : List (Option S)) → IsPlaced base l → Run base l (send_run l)
  unfolding send_run
  send_run-Run base [] h = record { sent_ids = refl; whole = refl; placed = tt; ahead = tt }
  send_run-Run base (none ∷ l) h = record {
    sent_ids = refl;
    whole = refl;
    placed = subst (λ n. IsPlaced (n + 1) l) (omega arith) h;
    ahead = tt;
  }
  send_run-Run base (some s ∷ l) h =
      let v = send_run-Run (base + 1) l h.1 in
      record {
        sent_ids = ap₂ ◌∷◌ h.0 v.sent_ids;
        whole = ap (◌∷◌ s) v.whole;
        placed = subst (λ n. IsPlaced n (send_run l).1) (omega arith) v.placed;
        ahead = v.ahead;
      }

  -- a slot that is free, or behind the end
  abbrev pub is_free : ℕ → List (Option S) → Bool
  is_free i [] = true
  is_free zero (none ∷ l) = true
  is_free zero (some s ∷ l) = false
  is_free (suc i) (o ∷ l) = is_free i l

  buffer_at : ℕ → S → List (Option S) → List (Option S)
  buffer_at zero w [] = some w ∷ []
  buffer_at (suc i) w [] = none ∷ buffer_at i w []
  buffer_at zero w (o ∷ l) = some w ∷ l
  buffer_at (suc i) w (o ∷ l) = o ∷ buffer_at i w l

  set-resize_nil : (i : ℕ) (w : S) → set (resize (suc i) none []) i (some w) ≡ buffer_at i w []
  unfolding buffer_at resize
  set-resize_nil zero w = refl
  set-resize_nil (suc i) w = ap (◌∷◌ none) (set-resize_nil i w)

  buffer-at : (i : ℕ) (w : S) (l : List (Option S)) → buffer i w l ≡ buffer_at i w l
  unfolding buffer_at buffer resize
  buffer-at i w [] = let c : leb 0 i ≡ true = ground arith in rw c (set-resize_nil i w)
  buffer-at zero w (o ∷ l) = let c : leb (suc (length l)) 0 ≡ false = ground arith in rw c refl
  buffer-at (suc i) w (o ∷ l) =
      let c : leb (suc (length l)) (suc i) ≡ leb (length l) i = ground arith in
      let ih = buffer-at i w l in
      elim (Bool-cases (leb (length l) i)) [
        | inl k ↦ rw (c, k) (ap (◌∷◌ o) (rw k at ih))
        | inr k ↦ rw (c, k) (ap (◌∷◌ o) (rw k at ih))
      ]

  -- a results set that is put into a free slot
  pub record Put (base i : ℕ) (w : S) (l m : List (Option S)) : Type 0 where
    pub perm : Perm (held m) (w ∷ held l)
    pub placed : IsPlaced base m

  buffer_at-Put :
      (base i : ℕ) (w : S) (l : List (Option S))
      → id_of w ≡ base + i
      → IsPlaced base l
      → is_free i l ≡ true
      → Put base i w l (buffer_at i w l)
  unfolding buffer_at
  buffer_at-Put base zero w [] e h f = record {
    perm = Perm.refl _;
    placed = (omega (arith, e), tt);
  }
  buffer_at-Put base (suc i) w [] e h f =
      let v = buffer_at-Put (base + 1) i w [] (omega (arith, e)) tt refl in
      record { perm = v.perm; placed = v.placed }
  buffer_at-Put base zero w (none ∷ l) e h f = record {
    perm = Perm.refl _;
    placed = (omega (arith, e), h);
  }
  buffer_at-Put base zero w (some s ∷ l) e h f = absurd (ground (arith, f))
  buffer_at-Put base (suc i) w (none ∷ l) e h f =
      let v = buffer_at-Put (base + 1) i w l (omega (arith, e)) h f in
      record { perm = v.perm; placed = v.placed }
  buffer_at-Put base (suc i) w (some s ∷ l) e h f =
      let v = buffer_at-Put (base + 1) i w l (omega (arith, e)) h.1 f in
      record {
        perm = Perm.trans (Perm.cons s v.perm) (Perm.swap w s (held l));
        placed = (h.0, v.placed);
      }

  pub buffer-Put :
      (base i : ℕ) (w : S) (l : List (Option S))
      → id_of w ≡ base + i
      → IsPlaced base l
      → is_free i l ≡ true
      → Put base i w l (buffer i w l)
  buffer-Put base i w l e h f =
      subst (Put base i w l) (sym (buffer-at i w l)) (buffer_at-Put base i w l e h f)

  -- a slot whose window is held by none is free
  pub absent-is_free :
      (base i n : ℕ) (l : List (Option S))
      → n ≡ base + i
      → IsPlaced base l
      → exists (λ m. m == n) (win_ids (held l)) ≡ false
      → is_free i l ≡ true
  absent-is_free base i n [] e h f = ground arith
  absent-is_free base zero n (none ∷ l) e h f = refl
  absent-is_free base zero n (some s ∷ l) e h f = absurd (ground (arith, e, h.0, f))
  absent-is_free base (suc i) n (none ∷ l) e h f =
      absent-is_free (base + 1) i n l (omega (arith, e)) h f
  absent-is_free base (suc i) n (some s ∷ l) e h f =
      absent-is_free (base + 1) i n l (omega (arith, e)) h.1 (ground (arith, f))

  IsAhead-buffer_at :
      (i : ℕ) (w : S) (l : List (Option S)) → IsAhead l → IsAhead (buffer_at (suc i) w l)
  unfolding buffer_at
  IsAhead-buffer_at i w [] h = tt
  IsAhead-buffer_at i w (none ∷ l) h = tt
  IsAhead-buffer_at i w (some s ∷ l) h = absurd h

  -- the first slot stays free when another one is taken
  pub IsAhead-buffer :
      (i : ℕ) (w : S) (l : List (Option S)) → IsAhead l → IsAhead (buffer (suc i) w l)
  IsAhead-buffer i w l h = subst IsAhead (sym (buffer-at (suc i) w l)) (IsAhead-buffer_at i w l h)
