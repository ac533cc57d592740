-- ===== src/Message/Wire.antt =====
-- `serialize` and `create_regular` of include/tuple_t.hpp: a regular tuple as bytes. How a double lies in
-- memory is the language's and the machine's: an interface. Only the first `dim` coordinates are sent.
pub mod RoundTrip
mod Tests
use elastic_ppq.Common.{
  ℕ, zero, suc, ◌+◌, ◌*◌, List, [], ◌∷◌, ◌++◌, Option, none, some, take, drop, ◌==◌, if◌then◌else◌,
}
use elastic_ppq.Message.{Tuple, Kind}
use elastic_ppq.Panes.{pane_of}

-- The bytes of a coordinate and of a timestamp, and back.
pub record Layout (W : Type 0) : Type 0 where
  pub bytes : W → List ℕ
  pub value : List ℕ → W
  pub ts_bytes : ℕ → List ℕ
  pub ts_value : List ℕ → ℕ

-- `getSize`
unfoldable pub wire_size : ℕ → ℕ
wire_size dim = 8 * (dim + 2)

module _ {W : Type 0} ⦃y : Layout W⦄ where
  -- the loop over n coordinates from i on
  unfoldable pub put_dims : (ℕ → W) → ℕ → ℕ → List ℕ
  put_dims d i zero = []
  put_dims d i (suc n) = y.bytes (d i) ++ put_dims d (i + 1) n

  unfoldable pub put_all : ℕ → Tuple W → List ℕ
  put_all dim t = put_dims t.d 0 dim ++ (y.ts_bytes t.app_ts ++ y.ts_bytes t.gen_ts)

  -- `none` is `abort()`
  unfoldable pub serialize_as : Kind → ℕ → Tuple W → Option (List ℕ)
  serialize_as Kind.regular dim t = some (put_all dim t)
  serialize_as _ dim t = none

  unfoldable pub serialize : ℕ → Tuple W → Option (List ℕ)
  serialize dim t = serialize_as t.kind dim t

  -- the loop that writes n coordinates from i on, and the rest of the buffer
  unfoldable pub get_dims : (ℕ → W) → ℕ → ℕ → List ℕ → (ℕ → W) × List ℕ
  get_dims d i zero buffer = (d, buffer)
  get_dims d i (suc n) buffer =
      get_dims (λ j. if j == i then y.value (take 8 buffer) else d j) (i + 1) n (drop 8 buffer)

  -- `now` is the reading of the clock
  unfoldable pub create_regular : ℕ → Tuple W → List ℕ → ℕ → ℕ → Tuple W
  create_regular dim t buffer pane_length now =
      let dims = get_dims t.d 0 dim buffer in
      let app_ts : ℕ = y.ts_value (take 8 dims.1) in
      record t {
        kind = Kind.regular;
        d = dims.0;
        app_ts = app_ts;
        gen_ts = y.ts_value (take 8 (drop 8 dims.1));
        pane_id = pane_of pane_length app_ts;
        no_instances = 1;
        arrival_ticks = now;
      }
