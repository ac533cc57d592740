-- ===== src/Panes/Length.antt =====
-- The length of a pane: the greatest common divisor of the window's length and slide.
use Prim.Native.Nat.{◌∣◌}
use native.Mathlib.Nat.{
  mod-lt, dvd_refl, dvd-zero, dvd-mod_iff, pos_of_dvd_of_pos, div-mul_cancel, le_of_dvd,
  le-div_iff_mul-le,
}
use elastic_ppq.Common.{ℕ, zero, suc, ◌+◌, ◌*◌, ◌/◌, ◌%◌, ◌≤◌, ◌<◌, ◌≡◌, some, arith}
use elastic_ppq.Panes.{gcd_loop, gcd, pf, Geometry}

gcd_loop-dvd : (fuel u v : ℕ) → v < fuel → (gcd_loop fuel u v ∣ u) × (gcd_loop fuel u v ∣ v)
unfolding gcd_loop
gcd_loop-dvd zero u v h = absurd (omega (arith, h))
gcd_loop-dvd (suc fuel) u zero h = (dvd_refl u, dvd-zero u)
gcd_loop-dvd (suc fuel) u (suc v) h =
    let ih =
      gcd_loop-dvd fuel (suc v) (u % suc v)
        (omega (arith, h, mod-lt u {m = suc v} (omega arith))) in
    ((dvd-mod_iff _ ih.0).0 ih.1, ih.0)

gcd_loop-greatest : (fuel u v k : ℕ) → v < fuel → k ∣ u → k ∣ v → k ∣ gcd_loop fuel u v
unfolding gcd_loop
gcd_loop-greatest zero u v k h p q = absurd (omega (arith, h))
gcd_loop-greatest (suc fuel) u zero k h p q = p
gcd_loop-greatest (suc fuel) u (suc v) k h p q =
    gcd_loop-greatest fuel (suc v) (u % suc v) k
      (omega (arith, h, mod-lt u {m = suc v} (omega arith))) q ((dvd-mod_iff k q).1 p)

-- The loop ends with the greatest common divisor: it divides both numbers, and every common divisor
-- divides it.
pub gcd_lem : (u v : ℕ) → (gcd u v ∣ u) × (gcd u v ∣ v) × ((k : ℕ) → k ∣ u → k ∣ v → k ∣ gcd u v)
unfolding gcd
gcd_lem u v =
    let d = gcd_loop-dvd (v + 1) u v (omega arith) in
    (d.0, d.1, λ k p q. gcd_loop-greatest (v + 1) u v k (omega arith) p q)

-- the panes make up the window and its slide exactly, and there is no coarser way to cut
pub record Cut (wlen wslide : ℕ) (g : Geometry) : Type 0 where
  pub window : g.wp * g.pane_len ≡ wlen
  pub slide : g.sp * g.pane_len ≡ wslide
  pub pane_pos : 0 < g.pane_len
  pub sp_pos : 0 < g.sp
  pub sp_le : g.sp ≤ g.wp
  pub coarsest : (k : ℕ) → k ∣ wlen → k ∣ wslide → k ≤ g.pane_len

-- For a slide above 0 that is not longer than the window, the constructor succeeds, and its panes cut
-- the window and the slide exactly, with the longest pane that does.
pub pf-Cut :
    (wlen wslide : ℕ)
    → 0 < wslide
    → wslide ≤ wlen
    → (g : Geometry) × (pf wlen wslide ≡ some g) × Cut wlen wslide g
unfolding pf
pf-Cut wlen wslide h le =
    let d = gcd_lem wlen wslide in
    let g = gcd wlen wslide in
    let pos : 0 < g = pos_of_dvd_of_pos d.1 h in
    let slide : wslide / g * g ≡ wslide = div-mul_cancel g d.1 in
    (
      record { pane_len = g; wp = wlen / g; sp = wslide / g },
      ground (arith, le),
      record {
        window = div-mul_cancel g d.0;
        slide = slide;
        pane_pos = pos;
        sp_pos = (le-div_iff_mul-le pos).1 (omega (arith, le_of_dvd h d.1));
        sp_le = (le-div_iff_mul-le pos).1 (omega (arith, slide, le));
        coarsest = λ k p q. le_of_dvd pos (d.2 k p q);
      },
    )
