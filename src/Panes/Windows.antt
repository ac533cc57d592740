-- ===== src/Panes/Windows.antt =====
-- The windows that contain a pane, and the panes that make up a window.
use native.Mathlib.Nat.{le-div_iff_mul-le, div-lt_iff_lt-mul}
use elastic_ppq.Common.{ℕ, ◌+◌, ◌-◌, ◌*◌, ◌/◌, ◌≤◌, ◌<◌, ◌≡◌, sym, ◌↔◌, arith}
use elastic_ppq.Panes.{ceil_div, first_win, last_win, pane_of, Geometry}
use elastic_ppq.Panes.Length.{Cut}

-- The quotient rounded up is the least number whose product reaches a.
pub ceil_div-le : (a b w : ℕ) → 0 < b → (ceil_div a b ≤ w) ↔ (a ≤ w * b)
unfolding ceil_div
ceil_div-le a b w h =
    let d = div-lt_iff_lt-mul {k = b} {x = a + b - 1} {y = w + 1} h in
    (λ le. omega (arith, d.0 (omega (arith, le))), λ le. omega (arith, d.1 (omega (arith, le, h))))

pub last_win_lem : (sp p w : ℕ) → 0 < sp → (w ≤ last_win sp p) ↔ (w * sp ≤ p)
unfolding last_win
last_win_lem sp p w h =
    let here = ceil_div-le (p + 1) sp w h in
    let some_win = ceil_div-le (p + 1) sp 0 h in ground (arith, here.0, here.1, some_win.0)

-- For windows of wp panes that begin every sp panes, a window lies between the first and the last
-- window that the emitter finds for a pane exactly if the pane is one of the window's panes.
pub window-first-last :
    (wp sp p w : ℕ)
    → 0 < sp
    → ((first_win wp sp p ≤ w) × (w ≤ last_win sp p)) ↔ ((w * sp ≤ p) × (p < w * sp + wp))
unfolding first_win
window-first-last wp sp p w h =
    let first = ceil_div-le (p + 1 - wp) sp w h in
    ground (arith, first.0, first.1, last_win_lem sp p w h)

-- Where the panes cut window and slide exactly, the panes' and the tuples' view of a window agree: a
-- window lies between the first and the last window of a tuple's pane exactly if the tuple's timestamp,
-- in microseconds, is in the window's span of time.
pub window-span :
    (wlen wslide : ℕ) (g : Geometry) (ts w : ℕ)
    → Cut wlen wslide g
    → ((first_win g.wp g.sp (pane_of g.pane_len ts) ≤ w)
        × (w ≤ last_win g.sp (pane_of g.pane_len ts)))
      ↔ ((w * wslide * 1000 ≤ ts) × (ts < (w * wslide + wlen) * 1000))
unfolding pane_of
window-span wlen wslide g ts w c =
    let k : ℕ = g.pane_len * 1000 in
    let pos : 0 < k = omega (arith, c.pane_pos) in
    let low = le-div_iff_mul-le {k = k} {x = w * g.sp} {y = ts} pos in
    let high = div-lt_iff_lt-mul {k = k} {x = ts} {y = w * g.sp + g.wp} pos in
    let panes = window-first-last g.wp g.sp (ts / k) w c.sp_pos in
    let starts : w * g.sp * k ≡ w * wslide * 1000 = rw (sym c.slide) (omega arith) in
    let ends : (w * g.sp + g.wp) * k ≡ (w * wslide + wlen) * 1000 =
      rw (sym c.slide, sym c.window) (omega arith) in
    ground (arith, low.0, low.1, high.0, high.1, panes.0, panes.1, starts, ends)
