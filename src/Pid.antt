-- ===== src/Pid.antt =====
-- `class PID` of include/pid.hpp, over the arithmetic of `double`. `no_input` is the value -1 that
-- `lastInput` has before the first sampling interval.
pub mod Limits
mod Tests
use elastic_ppq.Common.{ℕ, Bool, true, false, not, ◌||◌, List, [], ◌∷◌, if◌then◌else◌}
use elastic_ppq.Double.{Real}

pub record Pid (R : Type 0) : Type 0 where
  pub setpoint : R
  pub i_term : R
  pub last_input : R
  pub input : R
  pub output : R
  pub kp : R
  pub ki : R
  pub kd : R
  pub out_min : R
  pub out_max : R
  pub in_auto : Bool
  pub is_reversed : Bool

unfoldable pub is_same : Bool → Bool → Bool
is_same true b = b
is_same false b = not b

module _ {R : Type 0} ⦃y : Real R⦄ where
  abbrev pub nought : R
  nought = y.of_nat 0

  abbrev pub no_input : R
  no_input = y.minus (y.of_nat 0) (y.of_nat 1)

  -- the two tests with which the code keeps a value between the boundaries
  unfoldable pub clamp : R → R → R → R
  clamp lo hi x = if y.less hi x then hi else if y.less x lo then lo else x

  unfoldable pub set_gains : R → R → R → Pid R → Pid R
  set_gains p i d s =
      if y.less p nought || (y.less i nought || y.less d nought)
      then s
      else if not s.is_reversed
      then record s { kp = p; ki = i; kd = d }
      else record s { kp = y.minus nought p; ki = y.minus nought i; kd = y.minus nought d }

  -- The constructor. The gains have no value before `setGains`, which leaves them so where one is
  -- negative: `g` stands for what is there.
  unfoldable pub create : R → R → R → R → R → R → R → Bool → Bool → Pid R
  create g p i d target lo hi auto reversed = set_gains p i d (record {
    setpoint = target;
    i_term = nought;
    last_input = no_input;
    input = nought;
    output = nought;
    kp = g;
    ki = g;
    kd = g;
    out_min = lo;
    out_max = hi;
    in_auto = auto;
    is_reversed = reversed;
  })

  unfoldable pub initialize : Pid R → Pid R
  initialize s = record s { last_input = s.input; i_term = clamp s.out_min s.out_max s.output }

  unfoldable pub set_input : R → Pid R → Pid R
  set_input x s = record s { input = x }

  -- only for the first sampling interval
  unfoldable pub first_input : Pid R → Pid R
  first_input s = if y.same s.last_input no_input then record s { last_input = s.input } else s

  -- the step of a PID that is enabled
  unfoldable pub compute : Pid R → Pid R
  compute s =
      let error = y.minus s.setpoint s.input in
      let i = clamp s.out_min s.out_max (y.plus s.i_term (y.times s.ki error)) in
      let d_input = y.minus s.input s.last_input in
      record s {
        i_term = i;
        output =
            clamp s.out_min s.out_max
              (y.minus (y.plus (y.times s.kp error) i) (y.times s.kd d_input));
        last_input = s.input;
      }

  unfoldable pub process : Pid R → Pid R × Bool
  process s' = let s = first_input s' in if s.in_auto then (compute s, true) else (s, false)

  unfoldable pub set_output_limits : R → R → Pid R → Pid R
  set_output_limits lo hi s = if y.less hi lo then s else record s {
    out_min = lo;
    out_max = hi;
    output = clamp lo hi s.output;
    i_term = clamp lo hi s.i_term;
  }

  -- `newAuto == !inAuto`: from manual to automatic, and back
  unfoldable pub set_mode : Bool → Pid R → Pid R
  set_mode auto s = record (if is_same auto (not s.in_auto) then initialize s else s) {
    in_auto = auto;
  }

  unfoldable pub set_set_point : R → Pid R → Pid R
  set_set_point target s = record s {
    setpoint = target;
    i_term = nought;
    last_input = no_input;
    input = nought;
    output = nought;
  }

  unfoldable pub set_reversed : Bool → Pid R → Pid R
  set_reversed reversed s = record s { is_reversed = reversed }

-- The methods of a PID.
pub data Command (R : Type 0) : Type 0 where
  to_input : R → Command R
  to_process : Command R
  to_gains : R → R → R → Command R
  to_limits : R → R → Command R
  to_mode : Bool → Command R
  to_set_point : R → Command R
  to_reversed : Bool → Command R

module _ {R : Type 0} ⦃y : Real R⦄ where
  unfoldable pub step : Pid R → Command R → Pid R
  step s (to_input x) = set_input x s
  step s to_process = (process s).0
  step s (to_gains p i d) = set_gains p i d s
  step s (to_limits lo hi) = set_output_limits lo hi s
  step s (to_mode auto) = set_mode auto s
  step s (to_set_point target) = set_set_point target s
  step s (to_reversed r) = set_reversed r s

  unfoldable pub run : Pid R → List (Command R) → Pid R
  run s [] = s
  run s (c ∷ cs) = run (step s c) cs
