-- ===== src/Double.antt =====
-- All that the queries do with the `double` coordinates of a tuple: the constant 0 and comparisons.
use elastic_ppq.Common.{
  ℕ, ◌≡◌, ◌⊎◌, Bool, true, false, not, ◌&&◌, arith, ltb, leb, ◌==◌, ◌+◌, ◌-◌, ◌*◌, ◌/◌,
}

pub record Double (W : Type 0) : Type 0 where
  pub nought : W
  pub lt : W → W → Bool

module _ {W : Type 0} ⦃o : Double W⦄ where
  -- `a < b`, `a <= b` and `a == b`. Away from NaN the last two follow from the first.
  abbrev pub lt : W → W → Bool
  lt = o.lt

  abbrev pub le : W → W → Bool
  le a b = not (o.lt b a)

  abbrev pub eq : W → W → Bool
  eq a b = not (o.lt a b) && not (o.lt b a)

-- IEEE 754 comparison of numbers that are not NaN is a strict weak order: 0 and -0 are told apart by
-- no comparison, and need not be one value.
pub record IsOrdered (W : Type 0) ⦃o : Double W⦄ : Type 0 where
  pub lt_irrefl : (a : W) → lt a a ≡ false
  pub lt_trans : (a b c : W) → lt a b ≡ true → lt b c ≡ true → lt a c ≡ true
  pub lt_cotrans : (a b c : W) → lt a c ≡ true → (lt a b ≡ true) ⊎ (lt b c ≡ true)

-- The laws can be met: by whole numbers.
instance abbrev pub nat_double : Double ℕ
nat_double = record { nought = 0; lt = ltb }

pub ℕ-IsOrdered : IsOrdered ℕ
ℕ-IsOrdered = ground arith

-- The arithmetic of `double`, as the machine has it: no law of the real numbers is claimed of it.
pub record Real (R : Type 0) : Type 0 where
  pub of_nat : ℕ → R
  pub plus : R → R → R
  pub minus : R → R → R
  pub times : R → R → R
  pub over : R → R → R
  pub sqrt : R → R
  pub less : R → R → Bool
  pub le : R → R → Bool
  pub same : R → R → Bool

-- It can be met, by whole numbers.
instance abbrev pub nat_real : Real ℕ
nat_real = record {
  of_nat = λ n. n;
  plus = ◌+◌;
  minus = ◌-◌;
  times = ◌*◌;
  over = ◌/◌;
  sqrt = λ n. n;
  less = ltb;
  le = leb;
  same = ◌==◌;
}
