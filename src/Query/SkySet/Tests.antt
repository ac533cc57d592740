-- ===== src/Query/SkySet/Tests.antt =====
-- Tests of `SkySet` and examples of its theorems, with numbers for doubles and two dimensions.
use mathlib.Core.List.Perm
use elastic_ppq.Common.{
  ℕ, ◌+◌, ◌≡◌, refl, List, [], ◌∷◌, ◌++◌, map, Perm, arith, if◌then◌else◌, ◌==◌,
}
use elastic_ppq.Common.Int.{◌*ℤ◌, ◌+ℤ◌, ◌-ℤ◌}
use elastic_ppq.Double.{nat_double, ℕ-IsOrdered}
use elastic_ppq.Message.{Tuple, empty}
use elastic_ppq.Rset.{start_by_tuple, start_by_set}
use elastic_ppq.Rset
use elastic_ppq.Query.TData.{
  TData, Row, row_of, append, remove_from_index, pop_back, resize, get_size,
}
use elastic_ppq.Query.TData
use elastic_ppq.Query.Skyline.{skyline}
use elastic_ppq.Query.SkySet.{
  weight, t_dom_scores, dom_t_scores, add_weights, add_dims, add_twice, SkySet, create,
  add_compute_tuple, add_compute_set, update_skyline, settle, scan, scan_step, merge_rows,
  to_vector, copied,
}
use elastic_ppq.Query.SkySet
use elastic_ppq.Query.SkySet.Results.{
  Holds, create-Holds, add_compute_tuple-Holds, add_compute_set-Holds,
}
use elastic_ppq.Query.SkySet.Stream.{Plan, inputs, run, add_tuples, run-Holds, to_vector-run}

abbrev point : ℕ → ℕ → Tuple ℕ
unfolding empty
point x y = record empty { d = λ i. if i == 0 then x else y; app_ts = x + y; arrival_ticks = 5 }

abbrev at : Tuple ℕ → ℕ × ℕ
at t = (t.d 0, t.d 1)

abbrev first_part : Plan ℕ
first_part = Plan.part ((point 3 3, 7) ∷ (point 1 5, 8) ∷ (point 2 2, 9) ∷ [])

abbrev second_part : Plan ℕ
second_part = Plan.part ((point 2 2, 7) ∷ (point 0 9, 8) ∷ (point 1 4, 9) ∷ [])

abbrev window : Plan ℕ
window = Plan.merge first_part second_part 11 12

-- The points of the merged window; (1, 5) and (3, 3) went out.
window-vector :
    map at (to_vector (run 2 window).s.count (run 2 window).s.rows)
    ≡ (2, 2) ∷ (0, 9) ∷ (2, 2) ∷ (1, 4) ∷ []
unfolding to_vector run add_tuples SkySet.create add_compute_tuple add_compute_set update_skyline
    settle scan scan_step weight t_dom_scores dom_t_scores add_weights add_dims add_twice merge_rows
    TData.create Rset.create append remove_from_index pop_back resize start_by_tuple start_by_set
    get_size empty ◌*ℤ◌ ◌+ℤ◌ ◌-ℤ◌
window-vector = refl

add_compute_tuple-Holds_example :
    Holds 2 (add_compute_tuple 2 (create 1 0 1) (point 3 3) 7).s (row_of (point 3 3) ∷ [])
add_compute_tuple-Holds_example =
    add_compute_tuple-Holds ℕ-IsOrdered 2 (omega arith) (create 1 0 1) [] (point 3 3) 7
      (create-Holds 2 1 0 1)

add_compute_set-Holds_example :
    Holds 2
      (add_compute_set 2 (run 2 first_part) (run 2 second_part) 13).s
      (inputs first_part ++ inputs second_part)
add_compute_set-Holds_example =
    add_compute_set-Holds ℕ-IsOrdered 2 (omega arith) (run 2 first_part) (run 2 second_part)
      (inputs first_part) (inputs second_part) 13 (run-Holds ℕ-IsOrdered 2 (omega arith) first_part)
      (run-Holds ℕ-IsOrdered 2 (omega arith) second_part)

run-Holds_example : Holds 2 (run 2 window).s (inputs window)
run-Holds_example = run-Holds ℕ-IsOrdered 2 (omega arith) window

-- the tuples of the window in another order
abbrev reordered : List (Row ℕ)
reordered = row_of (point 1 5) ∷ row_of (point 3 3) ∷ row_of (point 2 2) ∷ inputs second_part

to_vector-run_example :
    Perm (to_vector (run 2 window).s.count (run 2 window).s.rows) (map copied (skyline 2 reordered))
to_vector-run_example =
    to_vector-run ℕ-IsOrdered 2 (omega arith) window reordered
      (Perm.swap (row_of (point 1 5)) (row_of (point 3 3)) _)
