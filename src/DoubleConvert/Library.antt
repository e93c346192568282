-- ===== src/DoubleConvert/Library.antt =====
-- What C and IEEE 754 say of the `memcpy` of 64 bits into a double: zero, and the numbers whose
-- exponent is neither that of the subnormal nor that of the infinite ones.
use idris2_rc.Prelude.{ℕ, ◌^◌, ◌<◌, ◌≤◌, ◌≡◌, Bool, if◌then◌else◌}
use idris2_rc.Prelude.Int.{ℤ, pos, ◌-ℤ◌}
use idris2_rc.ParseDouble.Library.{Numbers, NumbersLaws}
use idris2_rc.DoubleConvert.Fields.{bits_of}

pub record BitsLaws (g : Numbers) (laws : NumbersLaws g) (of_bits : ℕ → g.arith.Double)
    : Type 0 where
  pub of_bits-zero :
      (neg : Bool)
      → of_bits (if neg then 2 ^ 63 else 0)
        ≡ (if neg then g.negate_double g.arith.zero_double else g.arith.zero_double)
  pub of_bits-normal :
      (neg : Bool) (mant : g.arith.Mpz) (field : ℕ) (s : ℤ)
      → 2 ^ 52 ≤ laws.arith_laws.value mant
      → laws.arith_laws.value mant < 2 ^ 53
      → 1 ≤ field
      → field ≤ 2046
      → pos field ≡ pos 1075 -ℤ s
      → of_bits (bits_of neg field (laws.arith_laws.value mant)) ≡ (
          if neg
          then g.negate_double (g.arith.ldexp (g.arith.mpz_get_d mant) (pos 0 -ℤ s))
          else g.arith.ldexp (g.arith.mpz_get_d mant) (pos 0 -ℤ s))
