-- ===== src/Panes/Count.antt =====
-- The reference counter that a PLQ worker gives a new results set.
use native.Mathlib.Nat.{le-mul_of_pos_right, le-div_iff_mul-le, div-lt_iff_lt-mul}
use elastic_ppq.Common.{
  ℕ, ◌+◌, ◌-◌, ◌/◌, ◌%◌, ◌^◌, ◌≤◌, ◌<◌, ◌≡◌, ap, ◌↔◌, arith, ltb, if◌then◌else◌,
}
use elastic_ppq.Panes.{ceil_div, first_win, last_win, count_windows}
use elastic_ppq.Panes.Windows.{window-first-last, ceil_div-le}

-- the number of windows between the first and the last one of a pane
unfoldable pub n_windows : ℕ → ℕ → ℕ → ℕ
n_windows wp sp p = last_win sp p + 1 - first_win wp sp p

-- every pane is in a window
pub first-last_le : (wp sp p : ℕ) → 0 < sp → sp ≤ wp → first_win wp sp p ≤ last_win sp p
first-last_le wp sp p h le =
    let w : ℕ = p / sp in
    let low = (le-div_iff_mul-le {x = w} {y = p} h).0 (omega arith) in
    let high = (div-lt_iff_lt-mul {x = p} {y = w + 1} h).0 (omega arith) in
    let mid = (window-first-last wp sp p w h).1 (low, omega (arith, high, le)) in
    omega (arith, mid.0, mid.1)

-- the variables `first` and `last`, which count windows from 1 on
first_lem :
    (wp sp p : ℕ)
    → 0 < sp
    → (if ltb (p + 1) wp then 1 else ceil_div (p + 1 - wp) sp + 1) ≡ first_win wp sp p + 1
unfolding first_win
first_lem wp sp p h = ground (arith, (ceil_div-le (p + 1 - wp) sp 0 h).1)

last_lem : (sp p : ℕ) → 0 < sp → (ceil_div (p + 1) sp ≡ last_win sp p + 1) × (last_win sp p ≤ p)
unfolding last_win
last_lem sp p h =
    let top = (ceil_div-le (p + 1) sp (p + 1) h).1 (le-mul_of_pos_right (p + 1) h) in
    ground (arith, (ceil_div-le (p + 1) sp 0 h).0, top)

-- `countWindows` subtracts in the wrong order: as a `size_t` it comes to 2 less the number of windows.
pub count_windows-reversed :
    (wp sp p : ℕ)
    → 0 < sp
    → sp ≤ wp
    → p < 2 ^ 53
    → count_windows wp sp p ≡ (2 + 2 ^ 64 - n_windows wp sp p) % 2 ^ 64
unfolding count_windows n_windows
count_windows-reversed wp sp p h le b =
    let last = last_lem sp p h in
    rw (first_lem wp sp p h, last.0)
      (ap (λ x. x % 2 ^ 64) (omega (arith, last.1, first-last_le wp sp p h le, b)))

-- So for panes below 2^53 that less than 2^63 windows hold, with a slide above 0 that is not longer than
-- the window, the counter is the number of windows that hold the pane exactly if there is one.
pub count_windows_iff :
    (wp sp p : ℕ)
    → 0 < sp
    → sp ≤ wp
    → p < 2 ^ 53
    → n_windows wp sp p < 2 ^ 63
    → (count_windows wp sp p ≡ n_windows wp sp p) ↔ (n_windows wp sp p ≡ 1)
unfolding n_windows
count_windows_iff wp sp p h le b c =
    let e = count_windows-reversed wp sp p h le b in
    let some_win = first-last_le wp sp p h le in
    (λ same. omega (arith, e, same, c, some_win), λ one. omega (arith, e, one, c, some_win))
