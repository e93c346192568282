-- ===== src/FixedInt/Examples.antt =====
-- The theorems of the fixed-width operations where they wrap and where they reuse a box.
use idris2_rc.Prelude.{◌+◌, ◌*◌, ◌^◌, ap, ◌≡◌, ◌≢◌, refl, inl, arith}
use idris2_rc.Prelude.Int.{ℤ, pos, pos_part}
use idris2_rc.Prelude.Run.{ok}
use idris2_rc.Division.{wrap, to_bits, of_bits}
use idris2_rc.Division.Euclid.{IsEuclid}
use idris2_rc.Immediate.{Boxed, word, int64, to_i64}
use idris2_rc.FixedInt.{
  int_8, int_64, cast, get, shift_left, mul, def_op, Operand, def_op_reuse, div_op, mod_op,
}
use idris2_rc.FixedInt.Wrap.{Fits}
use idris2_rc.FixedInt.Laws.{arith_op, def_op-arith, IsWide, TakesOwn, def_op_reuse-arith}
use idris2_rc.FixedInt.Divide.{div_op-IsEuclid}

-- The value -128 as an `Int8`, and 7.
abbrev low : Boxed
low = word (0x80 * 2 ^ 32 + 1)

abbrev seven : Boxed
seven = word (7 * 2 ^ 32 + 1)

low-Fits : Fits int_8 (get int_8 low)
unfolding get cast wrap to_bits of_bits
low-Fits = omega arith

def_op-arith_example :
    get int_8 (def_op shift_left int_8 low seven)
    ≡ cast int_8 (arith_op shift_left (get int_8 low) (get int_8 seven))
def_op-arith_example = def_op-arith shift_left int_8 low seven refl low-Fits

abbrev huge : Operand
huge = record { value = int64 (pos (2 ^ 62)); refs = 1 }

huge-Fits : Fits int_64 (get int_64 huge.value)
unfolding get to_i64
huge-Fits = omega arith

int_64-IsWide : IsWide int_64
unfolding IsWide
int_64-IsWide = inl refl

def_op_reuse-arith_example :
    (get int_64 (def_op_reuse mul int_64 huge huge).dst
      ≡ cast int_64 (arith_op mul (get int_64 huge.value) (get int_64 huge.value)))
    × TakesOwn (def_op_reuse mul int_64 huge huge) huge huge
def_op_reuse-arith_example = def_op_reuse-arith mul int_64 huge huge int_64-IsWide huge-Fits

seven-Fits : Fits int_8 (get int_8 seven)
unfolding get cast wrap to_bits of_bits
seven-Fits = omega arith

seven_some : get int_8 seven ≢ pos 0
unfolding get cast wrap to_bits of_bits
seven_some e = omega (arith, ap pos_part e)

div_op-IsEuclid_example :
    (q r : Boxed) × (exact : ℤ) × (div_op int_8 low seven ≡ ok q)
    × (mod_op int_8 low seven ≡ ok r)
    × (get int_8 q ≡ cast int_8 exact)
    × IsEuclid (get int_8 low) (get int_8 seven) exact (get int_8 r)
div_op-IsEuclid_example = div_op-IsEuclid int_8 low seven low-Fits seven-Fits seven_some
