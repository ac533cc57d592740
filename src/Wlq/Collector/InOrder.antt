-- ===== src/Wlq/Collector/InOrder.antt =====
-- Which windows the collector sends, and in which order.
use mathlib.Core.List.{map-append, perm_middle}
use mathlib.Core.List.Perm
use elastic_ppq.Common.{
  ℕ, ◌+◌, ◌≤◌, ◌<◌, ◌≡◌, refl, sym, ap, ◌∙◌, subst, inl, inr, true, false, ◌||◌, List, [], ◌∷◌,
  ◌++◌, append_assoc, append-nil, Perm, Option, none, some, arith, ltb, ◌==◌, Bool-cases,
}
use elastic_ppq.Common.Perms.{exists-perm, exists-append}
use elastic_ppq.ResultsSet.{Derived}
use elastic_ppq.Wlq.Collector.{Collector, create, svc, run}
use elastic_ppq.Wlq.Collector.Slots.{range, held, IsAhead, id_of, win_ids, IsPlaced}
use elastic_ppq.Wlq.Collector.Ordered.{is_in, is_in-range, is_in-range_out, IsFresh, Inv, svc-Inv}

module _ {S : Type 0} ⦃b : Derived S⦄ where
  -- all that was got, the last one first
  abbrev pile : List S → List S → List S
  pile [] got = got
  pile (w ∷ ws) got = pile ws (w ∷ got)

  pile-perm : (ws got : List S) → Perm (pile ws got) (ws ++ got)
  pile-perm [] got = Perm.refl got
  pile-perm (w ∷ ws) got = Perm.trans (pile-perm ws (w ∷ got)) (perm_middle ws got)

  run-Inv :
      (c : Collector S) (out got ws : List S)
      → IsFresh (win_ids got) ws
      → Inv c out got
      → Inv (run c ws).0 (out ++ (run c ws).1) (pile ws got)
  unfolding run
  run-Inv c out got [] f v = subst (λ l. Inv c l got) (sym (append-nil out)) v
  run-Inv c out got (w ∷ ws) (f, top, fs) v =
      let one = svc c w in
      let ih = run-Inv one.0 (out ++ one.1) (w ∷ got) ws fs (svc-Inv c out got w f top v) in
      subst (λ l. Inv (run one.0 ws).0 l (pile ws (w ∷ got)))
        (append_assoc out one.1 (run one.0 ws).1) ih

  start-Inv : Inv {S = S} create [] []
  unfolding create
  start-Inv = record { sent = refl; placed = tt; ahead = tt; all = Perm.refl [] }

  -- Whatever the order in which results sets of different windows arrive, with identifiers below 2^64:
  -- the windows that are sent are 0, 1, 2 and so on up to the next one expected, in this order, and
  -- what was sent and what is still held are together what arrived.
  pub run-ids :
      (ws : List S)
      → IsFresh [] ws
      → (win_ids (run create ws).1 ≡ range 0 (run create ws).0.next_win_id)
        × Perm ((run create ws).1 ++ held (run create ws).0.win_set) ws
  run-ids ws f =
      let v = run-Inv create [] [] ws f start-Inv in
      (v.sent, Perm.trans v.all (subst (Perm (pile ws [])) (append-nil ws) (pile-perm ws [])))

  held_above :
      (base n : ℕ) (l : List (Option S))
      → n < base
      → IsPlaced base l
      → is_in n (win_ids (held l)) ≡ false
  held_above base n [] lt h = refl
  held_above base n (none ∷ l) lt h = held_above (base + 1) n l (omega (arith, lt)) h
  held_above base n (some s ∷ l) lt h =
      ground (arith, lt, h.0, held_above (base + 1) n l (omega (arith, lt)) h.1)

  held_ahead :
      (base : ℕ) (l : List (Option S))
      → IsPlaced base l
      → IsAhead l
      → is_in base (win_ids (held l)) ≡ false
  held_ahead base [] h a = refl
  held_ahead base (none ∷ l) h a = held_above (base + 1) base l (omega arith) h
  held_ahead base (some s ∷ l) h a = absurd a

  no_held :
      (n : ℕ) (us : List S)
      → ((m : ℕ) → n ≤ m → is_in m (win_ids us) ≡ false)
      → ((m : ℕ) → m < n → is_in m (win_ids us) ≡ false)
      → us ≡ []
  no_held n [] h g = refl
  no_held n (u ∷ us) h g =
      let here : is_in (id_of u) (win_ids (u ∷ us)) ≡ true = ground arith in
      elim (Bool-cases (ltb (id_of u) n)) [
        | inl k ↦ absurd (ground (arith, here, g (id_of u) (ground (arith, k))))
        | inr k ↦ absurd (ground (arith, here, h (id_of u) (ground (arith, k))))
      ]

  -- If the windows that arrive are 0 up to n - 1, each once and in whatever order, all of them have been
  -- sent at the end, in the order of their identifiers, and none is held back.
  pub run_complete :
      (ws : List S) (n : ℕ)
      → IsFresh [] ws
      → Perm (win_ids ws) (range 0 n)
      → (win_ids (run create ws).1 ≡ range 0 n) × (held (run create ws).0.win_set ≡ [])
  run_complete ws n f h =
      let v = run-Inv create [] [] ws f start-Inv in
      let c = (run create ws).0 in
      let out = (run create ws).1 in
      let got : Perm (out ++ held c.win_set) ws = (run-ids ws f).1 in
      let where_is : (m : ℕ)
          → (is_in m (range 0 c.next_win_id) || is_in m (win_ids (held c.win_set)))
            ≡ is_in m (range 0 n) =
        λ m.
          ap (λ l. is_in m l || is_in m (win_ids (held c.win_set))) (sym v.sent)
          ∙ sym (exists-append (λ k. k == m) (win_ids out) (win_ids (held c.win_set)))
          ∙ ap (is_in m) (sym (map-append id_of out (held c.win_set)))
          ∙ exists-perm (λ k. k == m) (Perm.trans (Perm.map id_of got) h) in
      let next : ℕ = c.next_win_id in
      let up : n ≤ next = elim (Bool-cases (ltb next n)) [
        | inl k ↦ absurd (
            ground (
              arith,
              where_is next,
              is_in-range next 0 n (omega arith) (ground (arith, k)),
              is_in-range_out next 0 next (omega arith),
              held_ahead next c.win_set v.placed v.ahead,
            ))
        | inr k ↦ ground (arith, k)
      ] in
      let down : next ≤ n = elim (Bool-cases (ltb n next)) [
        | inl k ↦ absurd (
            ground (
              arith,
              where_is n,
              is_in-range_out n 0 n (omega arith),
              is_in-range n 0 next (omega arith) (ground (arith, k)),
            ))
        | inr k ↦ ground (arith, k)
      ] in
      (
        v.sent ∙ ap (range 0) (omega (arith, up, down)),
        no_held n (held c.win_set)
            (λ m le. ground (arith, where_is m, is_in-range_out m 0 n (omega (arith, le))))
            (λ m lt. held_above next m c.win_set (omega (arith, lt, up)) v.placed),
      )
