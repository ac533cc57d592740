-- ===== src/Panes/Tests.antt =====
-- Tests of the cut into panes, and examples of its theorems.
use native.Mathlib.Nat.{dvd-sub, le_of_dvd}
use elastic_ppq.Common.{◌+◌, ◌-◌, ◌*◌, ◌%◌, ◌^◌, ◌≤◌, ◌<◌, ◌≡◌, refl, ◌↔◌, none, some, arith}
use elastic_ppq.Panes.{
  Geometry, gcd_loop, gcd, pf, ceil_div, first_win, last_win, count_windows, pane_of,
}
use elastic_ppq.Panes.Length.{Cut, pf-Cut}
use elastic_ppq.Panes.Windows.{window-first-last, window-span}
use elastic_ppq.Panes.Count.{n_windows, count_windows-reversed, count_windows_iff}

-- windows of 12 ms every 8 ms
abbrev twelve_eight : Geometry
twelve_eight = record { pane_len = 4; wp = 3; sp = 2 }

pf-twelve_eight : pf 12 8 ≡ some twelve_eight
unfolding pf gcd gcd_loop
pf-twelve_eight = refl

pf_short : pf 8 12 ≡ none
unfolding pf
pf_short = refl

windows_of_pane_four : (first_win 3 2 4 ≡ 1) × (last_win 2 4 ≡ 2) × (count_windows 3 2 4 ≡ 0)
unfolding first_win last_win count_windows ceil_div
windows_of_pane_four = (refl, refl, refl)

twelve_eight-Cut : Cut 12 8 twelve_eight
twelve_eight-Cut = record {
  window = refl;
  slide = refl;
  pane_pos = omega arith;
  sp_pos = omega arith;
  sp_le = omega arith;
  coarsest = λ k p q. le_of_dvd (omega arith) (dvd-sub k p q);
}

pf-Cut_example : (g : Geometry) × (pf 12 8 ≡ some g) × Cut 12 8 g
pf-Cut_example = pf-Cut 12 8 (omega arith) (omega arith)

window-first-last_example :
    ((first_win 3 2 4 ≤ 1) × (1 ≤ last_win 2 4)) ↔ ((1 * 2 ≤ 4) × (4 < 1 * 2 + 3))
window-first-last_example = window-first-last 3 2 4 1 (omega arith)

window-span_example :
    ((first_win 3 2 (pane_of 4 17500) ≤ 2) × (2 ≤ last_win 2 (pane_of 4 17500)))
    ↔ ((2 * 8 * 1000 ≤ 17500) × (17500 < (2 * 8 + 12) * 1000))
window-span_example = window-span 12 8 twelve_eight 17500 2 twelve_eight-Cut

count_windows-reversed_example : count_windows 3 2 4 ≡ (2 + 2 ^ 64 - n_windows 3 2 4) % 2 ^ 64
count_windows-reversed_example =
    count_windows-reversed 3 2 4 (omega arith) (omega arith) (omega arith)

count_windows_iff_example : (count_windows 3 2 4 ≡ n_windows 3 2 4) ↔ (n_windows 3 2 4 ≡ 1)
count_windows_iff_example =
    count_windows_iff 3 2 4 (omega arith) (omega arith) (omega arith)
      (unfold n_windows first_win last_win ceil_div in omega arith)
