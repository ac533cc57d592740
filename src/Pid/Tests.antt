-- ===== src/Pid/Tests.antt =====
-- Tests of `PID` with whole numbers for doubles, where nothing is negative.
use elastic_ppq.Common.{ℕ, ◌≡◌, refl, true, false, List, [], ◌∷◌, arith}
use elastic_ppq.Double.{nat_real}
use elastic_ppq.Pid.{
  Command, create, set_gains, step, run, set_input, process, first_input, compute, clamp,
  set_output_limits, set_set_point,
}
use elastic_ppq.Pid.Limits.{IsIrreflexive, IsLimited, run-IsLimited}

abbrev commands : List (Command ℕ)
commands =
    Command.to_input 2
    ∷ Command.to_process
    ∷ Command.to_limits 0 7
    ∷ Command.to_set_point 9
    ∷ Command.to_input 1
    ∷ Command.to_process
    ∷ []

-- The proportional part, 2 * (9 - 1), is cut at the boundary.
run-output : (run (create 0 2 0 0 5 0 3 true false) commands).output ≡ 7
unfolding run step create set_gains set_input process first_input compute clamp set_output_limits
    set_set_point
run-output = refl

irreflexive : IsIrreflexive ℕ
irreflexive = record { less_irrefl = λ x. ground arith }

run-IsLimited_example : IsLimited (run (create 0 2 0 0 5 0 3 true false) commands)
run-IsLimited_example =
    run-IsLimited irreflexive 0 2 0 0 5 0 3 true false commands refl
      (record { below = refl; above = refl })
      (tt, (tt, (record { below = refl; above = refl }, (tt, (tt, (tt, tt))))))
