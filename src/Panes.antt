-- ===== src/Panes.antt =====
-- How a stream is cut into panes and windows: the constructor `PF` of include/pane_farming.hpp, the
-- windows of a pane in `WLQ_Emitter::svc` of include/wlq.hpp, and `PLQ_Worker::countWindows` of
-- include/plq.hpp. The code divides doubles and rounds up; below 2^53 this is the exact quotient of
-- whole numbers rounded up, which `ceil_div` is.
pub mod Length
pub mod Windows
pub mod Count
mod Tests
use elastic_ppq.Common.{
  ℕ, zero, suc, ◌+◌, ◌-◌, ◌*◌, ◌/◌, ◌%◌, ◌^◌, Option, none, some, ltb, if◌then◌else◌,
}

-- the lambda `gcd`; each round makes v smaller, so `v` rounds and the last test are enough
unfoldable pub gcd_loop : ℕ → ℕ → ℕ → ℕ
gcd_loop zero u v = u
gcd_loop (suc fuel) u zero = u
gcd_loop (suc fuel) u (suc v) = gcd_loop fuel (suc v) (u % suc v)

unfoldable pub gcd : ℕ → ℕ → ℕ
gcd u v = gcd_loop (v + 1) u v

-- The parameters that the constructor hands to the stages, in milliseconds and in numbers of panes.
pub record Geometry : Type 0 where
  pub pane_len : ℕ
  pub wp : ℕ
  pub sp : ℕ

-- `none` is the exit with an error.
unfoldable pub pf : ℕ → ℕ → Option Geometry
pf wlen wslide =
    if ltb wlen wslide
    then none
    else (let pane_len = gcd wlen wslide in
        some (record { pane_len = pane_len; wp = wlen / pane_len; sp = wslide / pane_len }))

-- `ceil(a / b)`
unfoldable pub ceil_div : ℕ → ℕ → ℕ
ceil_div a b = (a + b - 1) / b

-- The first and the last window, from 0 on, that a pane belongs to.
unfoldable pub first_win : ℕ → ℕ → ℕ → ℕ
first_win wp sp pane_id = if ltb pane_id wp then 0 else ceil_div (pane_id + 1 - wp) sp

unfoldable pub last_win : ℕ → ℕ → ℕ
last_win sp pane_id = ceil_div (pane_id + 1) sp - 1

-- `countWindows`, whose windows count from 1 on; the result is a `size_t`
unfoldable pub count_windows : ℕ → ℕ → ℕ → ℕ
count_windows wp sp pane_id =
    let idx = pane_id + 1 in
    let first = if ltb idx wp then 1 else ceil_div (idx - wp) sp + 1 in
    let last = ceil_div idx sp in (first + 2 ^ 64 - last + 1) % 2 ^ 64

-- the pane of a tuple by its timestamp in microseconds (`tuple_t::create_regular`)
unfoldable pub pane_of : ℕ → ℕ → ℕ
pane_of pane_len app_ts = app_ts / (pane_len * 1000)
