-- ===== src/Message/Wire/Tests.antt =====
-- A message on the wire, with small numbers for doubles, in one byte of eight.
use elastic_ppq.Common.{ℕ, ◌+◌, ◌≡◌, ◌<◌, refl, List, [], ◌∷◌, ◌++◌, some, length}
use elastic_ppq.Double.{nat_double}
use elastic_ppq.Message.{Tuple, Kind, empty}
use elastic_ppq.Panes.{pane_of}
use elastic_ppq.Message.Wire.{
  Layout, wire_size, put_dims, put_all, serialize_as, serialize, create_regular,
}
use elastic_ppq.Message.Wire.RoundTrip.{IsLayout, create_regular-serialize}

abbrev first_byte : List ℕ → ℕ
first_byte [] = 0
first_byte (b ∷ rest) = b

abbrev eight_bytes : ℕ → List ℕ
eight_bytes n = n ∷ 0 ∷ 0 ∷ 0 ∷ 0 ∷ 0 ∷ 0 ∷ 0 ∷ []

instance nat_layout : Layout ℕ
nat_layout = record {
  bytes = eight_bytes;
  value = first_byte;
  ts_bytes = eight_bytes;
  ts_value = first_byte;
}

abbrev laws : IsLayout ℕ
unfolding nat_layout
laws = record {
  bytes-length = λ w. refl;
  value-bytes = λ w. refl;
  ts_bytes-length = λ n. refl;
  ts_value-ts_bytes = λ n. refl;
}

abbrev point : Tuple ℕ
unfolding empty
point = record empty { kind = Kind.regular; d = λ i. i + 3; app_ts = 25; gen_ts = 20 }

abbrev other : Tuple ℕ
unfolding empty
other = empty

-- In one dimension: the coordinate, then the two timestamps.
point-serialize : serialize 1 point ≡ some (eight_bytes 3 ++ (eight_bytes 25 ++ eight_bytes 20))
unfolding serialize serialize_as put_all put_dims empty nat_layout
point-serialize = refl

create_regular-serialize_example :
    (buffer : List ℕ) × (serialize 2 point ≡ some buffer)
    × (length buffer ≡ wire_size 2)
    × ((j : ℕ) → j < 2 → (create_regular 2 other buffer 10 7).d j ≡ point.d j)
    × ((create_regular 2 other buffer 10 7).app_ts ≡ point.app_ts)
    × ((create_regular 2 other buffer 10 7).gen_ts ≡ point.gen_ts)
    × ((create_regular 2 other buffer 10 7).pane_id ≡ pane_of 10 point.app_ts)
unfolding empty
create_regular-serialize_example = create_regular-serialize laws 2 point other 10 7 refl
