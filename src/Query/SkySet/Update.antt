-- ===== src/Query/SkySet/Update.antt =====
-- `updateSkyline` and what the two methods of `SkySet` do with its result, as operations on lists.
use mathlib.Core.Path.{fun_ext}
use mathlib.Core.List.Perm
use elastic_ppq.Common.{
  ℕ, ◌+◌, ◌≤◌, ◌<◌, ◌≡◌, refl, sym, ap, ◌∙◌, subst, inl, inr, Bool, true, not, List, [], ◌∷◌, ◌++◌,
  map, append_assoc, append-nil, Perm, arith, length, length-append, take-append, exists, ltb,
  Bool-cases, if◌then◌else◌,
}
use elastic_ppq.Common.Perms.{keep_congr}
use elastic_ppq.Double.{Double}
use elastic_ppq.Message.{Tuple, empty}
use elastic_ppq.Query.TData.{TData, Row, row_of, append, remove_from_index, pop_back, resize}
use elastic_ppq.Query.Skyline.{dominated, spared}
use elastic_ppq.Query.SkySet.{Updated, scan, scan_start, update_skyline, settle}
use elastic_ppq.Query.SkySet.Scores.{
  total, row_weight, t_dom_scores-map, dom_t_scores-map, at_least_one-row_weight,
  at_least_one-tuple_weight,
}
use elastic_ppq.Query.SkySet.Shift.{Zones, Scanned, scan-Scanned}

module _ {ℓ} {A : Type ℓ} where
  resize-append : (xs ys : List A) (z : A) (n : ℕ) → n ≡ length xs → resize n z (xs ++ ys) ≡ xs
  unfolding resize
  resize-append [] ys z n e = rw e
  resize-append (x ∷ xs) ys z n e = rw e (ap (◌∷◌ x) (resize-append xs ys z (length xs) refl))

  pop_back-append : (xs ys : List A) → length ys ≡ 1 → pop_back (xs ++ ys) ≡ xs
  unfolding pop_back
  pop_back-append [] [] e = absurd (omega arith)
  pop_back-append [] (y ∷ []) e = refl
  pop_back-append [] (y ∷ z ∷ ys) e = absurd (omega arith)
  pop_back-append (x ∷ []) [] e = absurd (omega arith)
  pop_back-append (x ∷ []) (y ∷ []) e = refl
  pop_back-append (x ∷ []) (y ∷ z ∷ ys) e = absurd (omega arith)
  pop_back-append (x ∷ x' ∷ xs) ys e = ap (◌∷◌ x) (pop_back-append (x' ∷ xs) ys e)

exists_congr {ℓ} :
    {A : Type ℓ} (p q : A → Bool) (xs : List A) → ((x : A) → p x ≡ q x) → exists p xs ≡ exists q xs
exists_congr p q xs h = rw (fun_ext h)

exists-map {ℓ κ} :
    {A : Type ℓ} {B : Type κ} (p : B → Bool) (f : A → B) (xs : List A)
    → exists p (map f xs) ≡ exists (λ x. p (f x)) xs
exists-map p f [] = refl
exists-map p f (x ∷ xs) = rw (exists-map p f xs)

module _ {W : Type 0} ⦃o : Double W⦄ (dim : ℕ) (two : 2 ≤ dim) where
  -- `removeFromIndex` cuts the container down to a prefix of its rows.
  cut_lem :
      (xs ys : List (Row W)) (s : TData W)
      → s.rows ≡ xs ++ ys
      → s.count ≡ length xs + length ys
      → length xs < s.count
      → remove_from_index s (length xs) ≡ record { count = length xs; rows = xs }
  unfolding remove_from_index
  cut_lem xs ys s r n h =
      rw r
        (ground (arith, resize-append xs ys (row_of empty) (length xs) refl, pop_back-append xs ys))

  is_dominated_lem :
      (s : TData W) (t : Tuple W) (a c : List (Row W))
      → s.rows ≡ a ++ c
      → (update_skyline dim s t (length a)).is_dominated ≡ dominated dim a (row_of t)
  unfolding update_skyline
  is_dominated_lem s t a c r =
      rw (r, take-append a c, dom_t_scores-map dim t a two, exists-map)
        (exists_congr _ _ a (λ q. at_least_one-tuple_weight dim t q))

  start :
      (s : TData W) (t : Tuple W) (a c : List (Row W))
      → s.rows ≡ a ++ c
      → s.count ≡ length a + length c
      → Zones (total (row_weight dim t) dim) [] a c [] [] (scan_start dim s t (length a))
  start s t a c r n = record {
    at = refl;
    n_end = omega arith;
    n_pos = omega arith;
    rows = rw (append-nil c) r;
    t_dom = rw (append-nil, r, take-append a c) (t_dom_scores-map dim t a two);
  }

  -- what the loop of `updateSkyline` leaves
  shifted :
      (s : TData W) (t : Tuple W) (a c : List (Row W))
      → s.rows ≡ a ++ c
      → s.count ≡ length a + length c
      → Scanned
          (total (row_weight dim t) dim)
          (spared dim (row_of t) a)
          c
          s.count
          (scan (length a) (scan_start dim s t (length a)))
  shifted s t a c r n =
      subst
        (λ l.
          Scanned (total (row_weight dim t) dim) l c s.count
            (scan (length a) (scan_start dim s t (length a))))
        (keep_congr _ _ a (λ q. ap not (at_least_one-row_weight dim t q)))
        (scan-Scanned (total (row_weight dim t) dim) (length a) [] a c [] []
          (scan_start dim s t (length a)) s.count (omega arith) (omega arith) (start s t a c r n))

  cut_any :
      (xs ys : List (Row W)) (s : TData W) (n : ℕ)
      → s.rows ≡ xs ++ ys
      → s.count ≡ length xs + length ys
      → n ≡ length xs
      → (if ltb n s.count then remove_from_index s n else s)
        ≡ record { count = length xs; rows = xs }
  cut_any xs [] s n r k e = ground (arith, append-nil xs)
  cut_any xs (y ∷ ys) s n r k e =
      let more : ltb (length xs) s.count ≡ true = ground arith in
      rw (e, more) (cut_lem xs (y ∷ ys) s r k (omega arith))

  -- A container with the tuples `a` before `endpoint` and `c` behind: the new tuple drives out those of
  -- `a` that it dominates, and joins `c` unless one of `a` dominates it.
  pub record Settled (t : Tuple W) (a c : List (Row W)) (s : TData W) (n_endpoint : ℕ)
      : Type 0 where
    pub a' : List (Row W)
    pub c' : List (Row W)
    pub container : s ≡ record { count = length a' + length c'; rows = a' ++ c' }
    pub n_end : n_endpoint ≡ length a'
    pub a-perm : Perm a' (spared dim (row_of t) a)
    pub c-perm : Perm c' (c ++ (if dominated dim a (row_of t) then [] else row_of t ∷ []))

  -- the container after the cut
  cut_lem_update :
      (s : TData W) (t : Tuple W) (a c : List (Row W)) (r : s.rows ≡ a ++ c)
      (n : s.count ≡ length a + length c)
      → let sc = shifted s t a c r n in
        let u = update_skyline dim s t (length a) in
        (if ltb u.n_pos u.s.count then remove_from_index u.s u.n_pos else u.s)
        ≡ record { count = length sc.a + length sc.c; rows = sc.a ++ sc.c }
  unfolding update_skyline
  cut_lem_update s t a c r n =
      let sc = shifted s t a c r n in
      let u = update_skyline dim s t (length a) in
      let k : length (sc.a ++ sc.c) ≡ length sc.a + length sc.c = length-append sc.a sc.c in
      let e =
        cut_any (sc.a ++ sc.c) sc.g u.s u.n_pos (sc.rows ∙ sym (append_assoc sc.a sc.c sc.g))
          (omega (arith, k, sc.sizes)) (omega (arith, k, sc.n_pos)) in
      e ∙ ap (λ (m : ℕ). let d : TData W = record { count = m; rows = sc.a ++ sc.c } in d) k

  n_pos_lem :
      (s : TData W) (t : Tuple W) (a c : List (Row W)) (r : s.rows ≡ a ++ c)
      (n : s.count ≡ length a + length c)
      → let sc = shifted s t a c r n in
        let u = update_skyline dim s t (length a) in
        (u.n_pos ≡ length sc.a + length sc.c) × (u.n_endpoint ≡ length sc.a)
  unfolding update_skyline
  n_pos_lem s t a c r n = let sc = shifted s t a c r n in (sc.n_pos, sc.n_end)

  settle_by_cut :
      (t : Tuple W) (u : Updated W) (m : ℕ) (rows : List (Row W))
      → (if ltb u.n_pos u.s.count then remove_from_index u.s u.n_pos else u.s)
        ≡ record { count = m; rows = rows }
      → u.n_pos ≡ m
      → settle dim t u ≡ (
          if u.is_dominated
          then record { count = m; rows = rows }
          else record { count = m + 1; rows = rows ++ (row_of t ∷ []) })
  unfolding settle append
  settle_by_cut t u m rows e k = rw (e, k) (ground arith)

  pub settle-Settled :
      (s : TData W) (t : Tuple W) (a c : List (Row W))
      → s.rows ≡ a ++ c
      → s.count ≡ length a + length c
      → let u = update_skyline dim s t (length a) in Settled t a c (settle dim t u) u.n_endpoint
  settle-Settled s t a c r n =
      let sc = shifted s t a c r n in
      let u = update_skyline dim s t (length a) in
      let k = n_pos_lem s t a c r n in
      let e =
        settle_by_cut t u (length sc.a + length sc.c) (sc.a ++ sc.c) (cut_lem_update s t a c r n)
          k.0 in
      let joins = is_dominated_lem s t a c r in
      elim (Bool-cases (dominated dim a (row_of t))) [
        | inl y ↦ record {
          a' = sc.a;
          c' = sc.c;
          container = rw (e, joins, y);
          n_end = k.1;
          a-perm = sc.a-perm;
          c-perm = rw (y, append-nil) sc.c-perm;
        }
        | inr y ↦ record {
          a' = sc.a;
          c' = sc.c ++ (row_of t ∷ []);
          container =
              rw (e, joins, y)
                (ground (
                  arith,
                  append_assoc sc.a sc.c (row_of t ∷ []),
                  length-append sc.c (row_of t ∷ []),
                ));
          n_end = k.1;
          a-perm = sc.a-perm;
          c-perm = rw y (Perm.append_right (row_of t ∷ []) sc.c-perm);
        }
      ]
