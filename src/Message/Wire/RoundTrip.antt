-- ===== src/Message/Wire/RoundTrip.antt =====
-- What the generator sends of a tuple, and what the emitter reads.
use mathlib.Core.Path.{ap₂}
use elastic_ppq.Common.{
  ℕ, zero, suc, ◌+◌, ◌*◌, ◌≤◌, ◌<◌, ◌≡◌, refl, sym, ap, ◌∙◌, subst, inl, inr, false, List, [], ◌++◌,
  append_assoc, append-nil, some, arith, length, length-append, take, drop, take-append,
  drop-append, ◌==◌, Bool-cases, if◌then◌else◌,
}
use elastic_ppq.Message.{Tuple, Kind}
use elastic_ppq.Panes.{pane_of}
use elastic_ppq.Message.Wire.{
  Layout, wire_size, put_dims, put_all, serialize_as, serialize, get_dims, create_regular,
}

-- A double takes 8 bytes, and its bytes read back are the double.
pub record IsLayout (W : Type 0) ⦃y : Layout W⦄ : Type 0 where
  pub bytes-length : (w : W) → length (y.bytes w) ≡ 8
  pub value-bytes : (w : W) → y.value (y.bytes w) ≡ w
  pub ts_bytes-length : (n : ℕ) → length (y.ts_bytes n) ≡ 8
  pub ts_value-ts_bytes : (n : ℕ) → y.ts_value (y.ts_bytes n) ≡ n

take_eight : (xs ys : List ℕ) → length xs ≡ 8 → take 8 (xs ++ ys) ≡ xs
take_eight xs ys e = subst (λ n. take n (xs ++ ys) ≡ xs) e (take-append xs ys)

drop_eight : (xs ys : List ℕ) → length xs ≡ 8 → drop 8 (xs ++ ys) ≡ ys
drop_eight xs ys e = subst (λ n. drop n (xs ++ ys) ≡ ys) e (drop-append xs ys)

module _ {W : Type 0} ⦃y : Layout W⦄ (laws : IsLayout W) where
  put_dims-length : (d : ℕ → W) (i n : ℕ) → length (put_dims d i n) ≡ 8 * n
  unfolding put_dims
  put_dims-length d i zero = omega arith
  put_dims-length d i (suc n) = omega (
    arith,
    laws.bytes-length (d i),
    put_dims-length d (i + 1) n,
    length-append (y.bytes (d i)) (put_dims d (i + 1) n),
  )

  -- The loop that reads leaves what is behind the coordinates, and writes these and no others.
  record Read (d e : ℕ → W) (i n : ℕ) (rest : List ℕ) (r : (ℕ → W) × List ℕ) : Type 0 where
    left : r.1 ≡ rest
    same : (j : ℕ) → i ≤ j → j < i + n → r.0 j ≡ d j
    low : (j : ℕ) → j < i → r.0 j ≡ e j

  get_dims-Read :
      (d e : ℕ → W) (i n : ℕ) (rest : List ℕ)
      → Read d e i n rest (get_dims e i n (put_dims d i n ++ rest))
  unfolding get_dims put_dims
  get_dims-Read d e i zero rest = record {
    left = refl;
    same = λ j le lt. absurd (omega (arith, le, lt));
    low = λ j lt. refl;
  }
  get_dims-Read d e i (suc n) rest =
      let first = y.bytes (d i) in
      let others = put_dims d (i + 1) n ++ rest in
      let whole : (first ++ put_dims d (i + 1) n) ++ rest ≡ first ++ others =
        append_assoc first (put_dims d (i + 1) n) rest in
      let e' : ℕ → W = λ j. if j == i then d i else e j in
      let got : y.value (take 8 (first ++ others)) ≡ d i =
        ap y.value (take_eight first others (laws.bytes-length (d i))) ∙ laws.value-bytes (d i) in
      let v = get_dims-Read d e' (i + 1) n rest in
      let go : get_dims e i (suc n) (put_dims d i (suc n) ++ rest) ≡ get_dims e' (i + 1) n others =
        ap (get_dims e i (suc n)) whole
        ∙ ap₂ (λ w l. get_dims (λ j. if j == i then w else e j) (i + 1) n l) got
            (drop_eight first others (laws.bytes-length (d i))) in
      subst (Read d e i (suc n) rest) (sym go) (record {
        left = v.left;
        same = λ j le lt. elim (Bool-cases (j == i)) [
          | inl k ↦
              let at : j ≡ i = ground (arith, k) in
              v.low j (omega (arith, at)) ∙ rw k (ap d (sym at))
          | inr k ↦ v.same j (ground (arith, k, le)) (omega (arith, lt))
        ];
        low = λ j lt.
            let far : (j == i) ≡ false = ground (arith, lt) in
            v.low j (omega (arith, lt)) ∙ rw far refl;
      })

  -- A regular tuple that is serialized and read again, into any tuple: the buffer has the size that the
  -- code gives it, the first dim coordinates and both timestamps are those of the tuple, and the pane is
  -- the one of the timestamp.
  pub create_regular-serialize :
      (dim : ℕ) (t u : Tuple W) (pane_length now : ℕ)
      → t.kind ≡ Kind.regular
      → (buffer : List ℕ) × (serialize dim t ≡ some buffer)
        × (length buffer ≡ wire_size dim)
        × ((j : ℕ) → j < dim → (create_regular dim u buffer pane_length now).d j ≡ t.d j)
        × ((create_regular dim u buffer pane_length now).app_ts ≡ t.app_ts)
        × ((create_regular dim u buffer pane_length now).gen_ts ≡ t.gen_ts)
        × ((create_regular dim u buffer pane_length now).pane_id ≡ pane_of pane_length t.app_ts)
  unfolding serialize serialize_as create_regular wire_size put_all
  create_regular-serialize dim t u pane_length now k =
      let app = y.ts_bytes t.app_ts in
      let gen = y.ts_bytes t.gen_ts in
      let v = get_dims-Read t.d u.d 0 dim (app ++ gen) in
      let app_read =
        ap (λ l. y.ts_value (take 8 l)) v.left
        ∙ ap y.ts_value (take_eight app gen (laws.ts_bytes-length t.app_ts))
        ∙ laws.ts_value-ts_bytes t.app_ts in
      let gen_take : take 8 gen ≡ gen =
        ap (take 8) (sym (append-nil gen)) ∙ take_eight gen [] (laws.ts_bytes-length t.gen_ts) in
      let gen_read =
        ap (λ l. y.ts_value (take 8 (drop 8 l))) v.left
        ∙ ap (λ l. y.ts_value (take 8 l)) (drop_eight app gen (laws.ts_bytes-length t.app_ts))
        ∙ ap y.ts_value gen_take
        ∙ laws.ts_value-ts_bytes t.gen_ts in
      (
        put_all dim t,
        ap (λ c. serialize_as c dim t) k,
        omega (
          arith,
          put_dims-length t.d 0 dim,
          length-append (put_dims t.d 0 dim) (app ++ gen),
          length-append app gen,
          laws.ts_bytes-length t.app_ts,
          laws.ts_bytes-length t.gen_ts,
        ),
        λ j lt. v.same j (omega arith) (omega (arith, lt)),
        app_read,
        gen_read,
        ap (pane_of pane_length) app_read,
      )
