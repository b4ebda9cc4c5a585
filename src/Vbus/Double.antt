-- ===== src/Vbus/Double.antt =====
-- What internal/vbus/registry.go does with a `float64`. The values are a parameter of the model:
-- no law of them is used, and two results are compared only as calls of the same operations.
use vbus2mqtt.Prelude.{ℕ, Bool}
use vbus2mqtt.Prelude.Int.{ℤ, pos}

pub record Double (W : Type 0) : Type 0 where
  -- `float64(raw)` of an integer, which is exact for the ranges in use
  pub of_ℤ : ℤ → W
  pub mul : W → W → W
  pub div : W → W → W
  -- `math.Round`
  pub round : W → W
  -- the decimal literals 0.1, 0.01 and 0.001 and `math.Pow10(-n)`
  pub pow10_neg : ℕ → W
  -- neither infinite nor NaN, which JSON cannot hold
  pub is_finite : W → Bool

-- The literals of the tables' factors.
module _ {W : Type 0} ⦃d : Double W⦄ where
  abbrev pub one : W
  one = d.of_ℤ (pos 1)

  abbrev pub tenth : W
  tenth = d.pow10_neg 1

  abbrev pub hundredth : W
  hundredth = d.pow10_neg 2

  abbrev pub thousandth : W
  thousandth = d.pow10_neg 3

  abbrev pub ten_thousandth : W
  ten_thousandth = d.pow10_neg 4
