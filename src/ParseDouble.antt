-- ===== src/ParseDouble.antt =====
-- `idris2rc2_parse_double` of rc2/support/rc2/idris2rc2_numeric.c, on the reader of decimals and the
-- rounding of a quotient. The magnitude of a number that is rounded is cut off at 340 digits, so no number has 2 ^ 31 bits, as the exponents are cut off at 340.
pub mod Library
pub mod Text
pub mod Powers
pub mod Laws
pub mod Model
mod Examples
use idris2_rc.Prelude.{
  ℕ, zero, suc, Bool, true, false, ◌&&◌, ◌||◌, Option, none, some, List, [], ◌∷◌, leb, ◌==◌,
  if◌then◌else◌, length, ◌>>=◌,
}
use idris2_rc.Prelude.Int.{ℤ, pos, negsuc, ◌+ℤ◌, ltb_ℤ, nat_abs}
use idris2_rc.Rounding.{is_zero, ratio_to_double}
use idris2_rc.Decimal.{Scanned, sign, scan_decimal}
use idris2_rc.ParseDouble.Library.{Numbers, calls}

-- The loop over white space.
unfoldable pub skip_spaces : List ℕ → List ℕ
skip_spaces [] = []
skip_spaces (c ∷ p) =
    let more = skip_spaces p in if c == b' ' || leb 9 c && leb c 13 then more else c ∷ p

module _ (g : Numbers) where
  -- The digits times the power of ten, as a quotient; `fuel` is that of its rounding.
  unfoldable pub ten_power : ℕ → Scanned g.arith.Mpz → Option g.arith.Double
  ten_power fuel x =
      let ten = g.mpz_ui_pow_ui 10 (nat_abs x.dexp) in
      if ltb_ℤ x.dexp (pos 0)
      then ratio_to_double g.arith fuel x.sig ten
      else ratio_to_double g.arith fuel (g.mpz_mul x.sig ten) (g.mpz_set_ui 1)

  unfoldable pub magnitude : ℕ → Scanned g.arith.Mpz → Option g.arith.Double
  unfolding ten_power
  magnitude fuel x =
      let mag = pos (g.arith.mpz_sizeinbase x.sig 10) +ℤ x.dexp in
      if ltb_ℤ (pos 340) mag
      then some g.huge_val
      else if ltb_ℤ mag (negsuc 339)
      then some g.arith.zero_double
      else ten_power fuel x

  unfoldable pub parse_double : ℕ → List ℕ → Option g.arith.Double
  unfolding magnitude sign skip_spaces
  parse_double fuel text =
      let (minus, p) = sign (skip_spaces text) in
      let x = scan_decimal (calls g) p in
      let out : Option g.arith.Double =
        if length x.rest == length p || is_zero (g.arith.mpz_sgn x.sig)
        then some g.arith.zero_double
        else magnitude fuel x in
      do o ← out; some (if minus then g.negate_double o else o)
