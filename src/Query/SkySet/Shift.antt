-- ===== src/Query/SkySet/Shift.antt =====
-- The loop of `updateSkyline` that shifts the dominated tuples behind `pos`.
use mathlib.Core.List.{map-append}
use mathlib.Core.List.Perm
use elastic_ppq.Common.{
  ℕ, zero, suc, ◌+◌, ◌-◌, ◌≤◌, ◌≡◌, refl, sym, ap, ◌∙◌, subst, inl, inr, true, false, not, List, [],
  ◌∷◌, ◌++◌, map, append_assoc, append-nil, Perm, arith, length, length-append, length-map, get_or,
  set, keep, ltb, Bool-cases,
}
use elastic_ppq.Common.Perms.{keep_yes, keep_no, keep-perm}
use elastic_ppq.Common.Fill.{
  last_of, fill_in, length-fill_in, fill_in-perm, get_or_last, set_last, map-last_of, map-fill_in,
}
use elastic_ppq.Common.Int.{ℤ, pos}
use elastic_ppq.Double.{Double}
use elastic_ppq.Message.{empty}
use elastic_ppq.Query.TData.{Row, row_of}
use elastic_ppq.Query.SkySet.{Scan, at_least_one, scan_step, scan}

module _ {W : Type 0} ⦃o : Double W⦄ (score : Row W → ℤ) where
  -- The container in four zones: tuples that stay, tuples to look at, tuples that other sets brought,
  -- and what is cut off later. The counters of the first two zones are those of their tuples.
  pub record Zones (a todo c g : List (Row W)) (h : List ℤ) (s : Scan W) : Type 0 where
    pub at : s.i ≡ length a
    pub n_end : s.n_endpoint ≡ length a + length todo
    pub n_pos : s.n_pos ≡ length a + length todo + length c
    pub rows : s.rows ≡ a ++ (todo ++ (c ++ g))
    pub t_dom : s.t_dom ≡ map score a ++ (map score todo ++ h)

  -- what the loop leaves of which tuples in an array of a given size
  pub record Scanned (kept brought : List (Row W)) (size : ℕ) (s : Scan W) : Type 0 where
    pub a : List (Row W)
    pub c : List (Row W)
    pub g : List (Row W)
    pub n_end : s.n_endpoint ≡ length a
    pub n_pos : s.n_pos ≡ length a + length c
    pub rows : s.rows ≡ a ++ (c ++ g)
    pub sizes : length a + length c + length g ≡ size
    pub a-perm : Perm a kept
    pub c-perm : Perm c brought

  abbrev pub spare : List (Row W) → List (Row W)
  spare = keep (λ r. not (at_least_one (score r)))

  map-zone :
      (a b : List (Row W)) (h : List ℤ)
      → map score (a ++ b) ++ h ≡ map score a ++ (map score b ++ h)
  map-zone a b h = rw (map-append score a b) (append_assoc (map score a) (map score b) h)

  counter :
      (a : List (Row W)) (x : Row W) (b : List (Row W)) (h : List ℤ)
      → get_or (map score a ++ (map score (x ∷ b) ++ h)) (length a) (pos 0) ≡ score x
  counter [] x b h = refl
  counter (r ∷ a) x b h = counter a x b h

  looked_at :
      (a : List (Row W)) (x : Row W) (b c g : List (Row W)) (h : List ℤ) (s : Scan W)
      → Zones a (x ∷ b) c g h s
      → get_or s.t_dom s.i (pos 0) ≡ score x
  looked_at a x b c g h s z = rw (z.t_dom, z.at) (counter a x b h)

  stays :
      (s : Scan W)
      → at_least_one (get_or s.t_dom s.i (pos 0)) ≡ false
      → scan_step s ≡ record s { i = s.i + 1 }
  unfolding scan_step
  stays s e = rw e

  step_stays :
      (a : List (Row W)) (x : Row W) (b c g : List (Row W)) (h : List ℤ) (s : Scan W)
      → at_least_one (score x) ≡ false
      → Zones a (x ∷ b) c g h s
      → Zones (a ++ (x ∷ [])) b c g h (scan_step s)
  step_stays a x b c g h s n z = rw (stays s (rw (looked_at a x b c g h s z) n)) (record {
    at = omega (arith, z.at, length-append a (x ∷ []));
    n_end = omega (arith, z.n_end, length-append a (x ∷ []));
    n_pos = omega (arith, z.n_pos, length-append a (x ∷ []));
    rows = z.rows ∙ sym (append_assoc a (x ∷ []) (b ++ (c ++ g)));
    t_dom = z.t_dom ∙ sym (map-zone a (x ∷ []) (map score b ++ h));
  })

  shift_rows :
      (a : List (Row W)) (x : Row W) (b c g : List (Row W)) (i last last_pos : ℕ)
      → i ≡ length a
      → last ≡ length a + length b
      → last_pos ≡ last + length c
      → let rows = a ++ ((x ∷ b) ++ (c ++ g)) in
        let filled = set rows i (get_or rows last (row_of empty)) in
        set filled last (get_or filled last_pos (row_of empty))
        ≡ a ++ (fill_in b ++ (fill_in c ++ (last_of (last_of x b) c ∷ g)))
  shift_rows a x b c g i last last_pos e k m =
      rw (get_or_last a x b (c ++ g) last (row_of empty) k, set_last a x b (c ++ g) i e)
        (let y = last_of x b in
          let front = a ++ fill_in b in
          let n : length front ≡ last =
            omega (arith, length-append a (fill_in b), length-fill_in b) in
          rw (sym (append_assoc a (fill_in b) ((y ∷ c) ++ g))) (
            rw
              (
                get_or_last front y c g last_pos (row_of empty) (omega arith),
                set_last front y c g last (sym n),
              )
              (append_assoc a (fill_in b) (fill_in c ++ (last_of y c ∷ g)))))

  shift_counters :
      (a : List (Row W)) (x : Row W) (b : List (Row W)) (h : List ℤ) (i last : ℕ)
      → i ≡ length a
      → last ≡ length a + length b
      → let xs = map score a ++ (map score (x ∷ b) ++ h) in
        set xs i (get_or xs last (pos 0))
        ≡ map score a ++ (map score (fill_in b) ++ (score (last_of x b) ∷ h))
  shift_counters a x b h i last e k = rw (
    get_or_last (map score a) (score x) (map score b) h last (pos 0)
        (omega (arith, length-map score a, length-map score b)),
    set_last (map score a) (score x) (map score b) h i (e ∙ sym (length-map score a)),
    map-fill_in score b,
    map-last_of score x b,
  )

  step_shifts :
      (a : List (Row W)) (x : Row W) (b c g : List (Row W)) (h : List ℤ) (s : Scan W)
      → at_least_one (score x) ≡ true
      → Zones a (x ∷ b) c g h s
      → Zones a
          (fill_in b)
          (fill_in c)
          (last_of (last_of x b) c ∷ g)
          (score (last_of x b) ∷ h)
          (scan_step s)
  unfolding scan_step
  step_shifts a x b c g h s y z =
      rw (looked_at a x b c g h s z, y)
        (record {
          at = z.at;
          n_end = omega (arith, z.n_end, length-fill_in b);
          n_pos = omega (arith, z.n_pos, length-fill_in b, length-fill_in c);
          rows = rw z.rows (
              shift_rows a x b c g s.i (s.n_endpoint - 1) (s.n_pos - 1) z.at
                (omega (arith, z.n_end)) (omega (arith, z.n_end, z.n_pos)));
          t_dom =
              rw z.t_dom
                (shift_counters a x b h s.i (s.n_endpoint - 1) z.at (omega (arith, z.n_end)));
        })

  done_scanning :
      (fuel : ℕ) (a c g : List (Row W)) (h : List ℤ) (s : Scan W)
      → Zones a [] c g h s
      → scan fuel s ≡ s
  unfolding scan
  done_scanning zero a c g h s z = refl
  done_scanning (suc fuel) a c g h s z =
      let e : ltb s.i s.n_endpoint ≡ false = ground (arith, z.at, z.n_end) in rw (e, scan)

  one_round :
      (fuel : ℕ) (a : List (Row W)) (x : Row W) (b c g : List (Row W)) (h : List ℤ) (s : Scan W)
      → Zones a (x ∷ b) c g h s
      → scan (suc fuel) s ≡ scan fuel (scan_step s)
  unfolding scan
  one_round fuel a x b c g h s z =
      let e : ltb s.i s.n_endpoint ≡ true = ground (arith, z.at, z.n_end) in rw (e, scan)

  -- With as much fuel as there are tuples to look at, the loop keeps those of them whose counter is
  -- below 1 and all that other sets brought.
  pub scan-Scanned :
      (fuel : ℕ) (a todo c g : List (Row W)) (h : List ℤ) (s : Scan W) (size : ℕ)
      → length todo ≤ fuel
      → length a + length todo + length c + length g ≡ size
      → Zones a todo c g h s
      → Scanned (a ++ spare todo) c size (scan fuel s)
  scan-Scanned fuel a [] c g h s size f m z = rw (done_scanning fuel a c g h s z) (record {
    a = a;
    c = c;
    g = g;
    n_end = omega (arith, z.n_end);
    n_pos = omega (arith, z.n_pos);
    rows = z.rows;
    sizes = omega arith;
    a-perm = rw append-nil (Perm.refl a);
    c-perm = Perm.refl c;
  })
  scan-Scanned zero a (x ∷ b) c g h s size f m z = absurd (omega arith)
  scan-Scanned (suc fuel) a (x ∷ b) c g h s size f m z =
      elim (Bool-cases (at_least_one (score x))) [
        | inr n ↦
            let next = step_stays a x b c g h s n z in
            let ih =
              scan-Scanned fuel (a ++ (x ∷ [])) b c g h (scan_step s) size (omega arith)
                (omega (arith, length-append a (x ∷ []))) next in
            let e : (a ++ (x ∷ [])) ++ spare b ≡ a ++ spare (x ∷ b) =
              append_assoc a (x ∷ []) (spare b) ∙ ap (◌++◌ a) (sym (keep_yes _ x b (rw n refl))) in
            rw (one_round fuel a x b c g h s z)
              (subst (λ l. Scanned l c size (scan fuel (scan_step s))) e ih)
        | inl y ↦
            let next = step_shifts a x b c g h s y z in
            let ih =
              scan-Scanned fuel a (fill_in b) (fill_in c) _ _ (scan_step s) size
                (omega (arith, length-fill_in b))
                (omega (arith, length-fill_in b, length-fill_in c)) next in
            let e : spare (x ∷ b) ≡ spare b = keep_no _ x b (rw y refl) in
            rw (one_round fuel a x b c g h s z, e)
              (record {
                a = ih.a;
                c = ih.c;
                g = ih.g;
                n_end = ih.n_end;
                n_pos = ih.n_pos;
                rows = ih.rows;
                sizes = ih.sizes;
                a-perm = Perm.trans ih.a-perm (Perm.append_left a (keep-perm _ (fill_in-perm b)));
                c-perm = Perm.trans ih.c-perm (fill_in-perm c);
              })
      ]
