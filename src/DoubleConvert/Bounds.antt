-- ===== src/DoubleConvert/Bounds.antt =====
-- Between which numbers the product of a significand and a row of the table lies.
use idris2_rc.Prelude.{ℕ, zero, suc, ◌+◌, ◌-◌, ◌*◌, ◌^◌, ◌<◌, ◌≤◌, ◌≡◌, ◌∙◌, arith}
use native.Mathlib.Nat.{mul-le-mul_right, mul_comm, mul_assoc}

less_one : (w b c : ℕ) → c + 1 ≡ 2 * b → w * c + w ≡ 2 * (w * b)
less_one w b c e = let sum : w * c + w ≡ w * (c + 1) = grind arith in sum ∙ rw e (grind arith)

more_one : (w b : ℕ) → w * (2 * b + 1) ≡ 2 * (w * b) + w
more_one w b = grind arith

module _ (w b p power unit : ℕ) (fits : w < 2 ^ 64) (some_bit : 0 < b) (floor : p * 2 ^ 64 ≤ w * b)
    (ceiling : w * b < (p + 1) * 2 ^ 64) (from : (2 * b - 1) * unit ≤ power)
    (to : power ≤ (2 * b + 1) * unit) where
  -- One unit below, two units above.
  lower : (p - 1) * (2 ^ 65 * unit) ≤ w * power
  lower =
      let low : (p - 1) * 2 ^ 65 ≤ w * (2 * b - 1) =
        omega (arith, less_one w b (2 * b - 1) (omega arith)) in
      let scaled : (p - 1) * 2 ^ 65 * unit ≤ w * (2 * b - 1) * unit = mul-le-mul_right unit low in
      let real : (2 * b - 1) * unit * w ≤ power * w = mul-le-mul_right w from in
      let swap : w * (2 * b - 1) * unit ≡ (2 * b - 1) * unit * w = grind arith in
      omega (arith, mul_assoc (p - 1) (2 ^ 65) unit, mul_comm power w)

  upper : w * power ≤ (p + 2) * (2 ^ 65 * unit)
  upper =
      let high : w * (2 * b + 1) ≤ (p + 2) * 2 ^ 65 = omega (arith, more_one w b) in
      let scaled : w * (2 * b + 1) * unit ≤ (p + 2) * 2 ^ 65 * unit = mul-le-mul_right unit high in
      let real : power * w ≤ (2 * b + 1) * unit * w = mul-le-mul_right w to in
      let swap : w * (2 * b + 1) * unit ≡ (2 * b + 1) * unit * w = grind arith in
      omega (arith, mul_assoc (p + 2) (2 ^ 65) unit, mul_comm power w)

  -- After a shift by one bit at most.
  pub shifted_bounds :
      (x v : ℕ)
      → x ≤ 1
      → v ≡ p * 2 ^ x
      → ((v - 2) * (2 ^ 65 * unit) ≤ w * power * 2 ^ x)
        × (w * power * 2 ^ x ≤ (v + 4) * (2 ^ 65 * unit))
  shifted_bounds zero v h e =
      let low : (v - 2) * (2 ^ 65 * unit) ≤ (p - 1) * (2 ^ 65 * unit) =
        mul-le-mul_right (2 ^ 65 * unit) (omega arith) in
      let high : (p + 2) * (2 ^ 65 * unit) ≤ (v + 4) * (2 ^ 65 * unit) =
        mul-le-mul_right (2 ^ 65 * unit) (omega arith) in
      (omega (arith, low, lower), omega (arith, high, upper))
  shifted_bounds (suc zero) v h e =
      let low : (v - 2) * (2 ^ 65 * unit) ≤ 2 * (p - 1) * (2 ^ 65 * unit) =
        mul-le-mul_right (2 ^ 65 * unit) (omega arith) in
      let high : 2 * (p + 2) * (2 ^ 65 * unit) ≤ (v + 4) * (2 ^ 65 * unit) =
        mul-le-mul_right (2 ^ 65 * unit) (omega arith) in
      (
        omega (arith, low, lower, mul_assoc 2 (p - 1) (2 ^ 65 * unit)),
        omega (arith, high, upper, mul_assoc 2 (p + 2) (2 ^ 65 * unit)),
      )
  shifted_bounds (suc (suc x)) v h e = absurd (omega arith)
