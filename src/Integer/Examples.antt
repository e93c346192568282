-- ===== src/Integer/Examples.antt =====
-- The theorems of `Integer` at the border between words and boxes, with GMP by unbounded integers.
use idris2_rc.Prelude.{◌-◌, ◌+◌, ◌^◌, ◌≤◌, ◌≡◌, ◌≢◌, ◌↔◌, ap, refl, inr, true, arith, if◌then◌else◌}
use idris2_rc.Prelude.Int.{ℤ, pos, negsuc, ◌+ℤ◌, ◌-ℤ◌, ◌*ℤ◌, pos_part, leb_ℤ, ltb_ℤ}
use idris2_rc.Division.Euclid.{IsEuclid}
use idris2_rc.Prelude.{◌<◌}
use idris2_rc.Prelude.Int.{nat_abs}
use idris2_rc.Strings.{to_size}
use idris2_rc.Immediate.{Boxed, bits64, to_u64, half, signed, immediate}
use idris2_rc.FixedInt.{bits_64, get, cast, shift_down}
use idris2_rc.FixedInt.Wrap.{Fits}
use idris2_rc.Integer.Shift.{shiftl_integer, shiftr_integer, shift_integer-Represents}
use idris2_rc.Integer.Cast.{cast_integer_to, cast_to_integer, cast_integer-value}
use idris2_rc.Integer.{imm_signed}
use idris2_rc.Integer.Canonical.{Represents}
use idris2_rc.Integer.{
  Integer, packed, boxed, imm_int64, left, right, binop_slow, is_unique, add_integer, sub_integer,
  mul_integer, negate_integer, div_integer, mod_integer, lt_integer_raw, gt_integer_raw,
  lte_integer_raw, gte_integer_raw, eq_integer_raw,
}
use idris2_rc.Integer.Canonical.{IsCanonical, int_value, Computes}
use idris2_rc.Integer.Model.{int_gmp, int_gmp_laws}
use idris2_rc.Integer.Laws.{integer_ops-Computes, div_mod_integer-IsEuclid}
use idris2_rc.Integer.Order.{integer_raw-compare}
use idris2_rc.Integer.Owners.{times, binop_slow-owners}

-- The smallest number of a word, and a number of a box.
abbrev smallest : Integer ℤ
smallest = packed (imm_int64 (negsuc (2 ^ 62 - 1)))

abbrev beyond : Integer ℤ
beyond = boxed 1 (pos (2 ^ 62))

smallest-IsCanonical : IsCanonical int_gmp int_gmp_laws smallest
unfolding IsCanonical int_gmp_laws
smallest-IsCanonical = (negsuc (2 ^ 62 - 1), omega arith, refl)

beyond-IsCanonical : IsCanonical int_gmp int_gmp_laws beyond
unfolding IsCanonical int_gmp_laws
beyond-IsCanonical = inr (omega arith)

integer_ops-Computes_example :
    Computes int_gmp int_gmp_laws
      (add_integer int_gmp smallest beyond)
      (int_value int_gmp int_gmp_laws smallest +ℤ int_value int_gmp int_gmp_laws beyond)
    × Computes int_gmp int_gmp_laws
        (sub_integer int_gmp smallest beyond)
        (int_value int_gmp int_gmp_laws smallest -ℤ int_value int_gmp int_gmp_laws beyond)
    × Computes int_gmp int_gmp_laws
        (mul_integer int_gmp smallest beyond)
        (int_value int_gmp int_gmp_laws smallest *ℤ int_value int_gmp int_gmp_laws beyond)
    × Computes int_gmp int_gmp_laws
        (negate_integer int_gmp smallest)
        (pos 0 -ℤ int_value int_gmp int_gmp_laws smallest)
integer_ops-Computes_example =
    integer_ops-Computes int_gmp int_gmp_laws smallest beyond smallest-IsCanonical
      beyond-IsCanonical

some_divisor : int_value int_gmp int_gmp_laws beyond ≢ pos 0
unfolding int_value int_gmp_laws
some_divisor e = omega (arith, ap pos_part e)

div_mod_integer-IsEuclid_example :
    ((q r : ℤ) × IsEuclid
        (int_value int_gmp int_gmp_laws smallest)
        (int_value int_gmp int_gmp_laws beyond)
        q
        r
      × Computes int_gmp int_gmp_laws (div_integer int_gmp smallest beyond) q)
    × ((q r : ℤ) × IsEuclid
          (int_value int_gmp int_gmp_laws smallest)
          (int_value int_gmp int_gmp_laws beyond)
          q
          r
        × Computes int_gmp int_gmp_laws (mod_integer int_gmp smallest beyond) r)
div_mod_integer-IsEuclid_example =
    div_mod_integer-IsEuclid int_gmp int_gmp_laws smallest beyond smallest-IsCanonical
      beyond-IsCanonical some_divisor

integer_raw-compare_example :
    (lt_integer_raw int_gmp smallest beyond
      ≡ ltb_ℤ (int_value int_gmp int_gmp_laws smallest) (int_value int_gmp int_gmp_laws beyond))
    × (gt_integer_raw int_gmp smallest beyond
        ≡ ltb_ℤ (int_value int_gmp int_gmp_laws beyond) (int_value int_gmp int_gmp_laws smallest))
    × (lte_integer_raw int_gmp smallest beyond
        ≡ leb_ℤ (int_value int_gmp int_gmp_laws smallest) (int_value int_gmp int_gmp_laws beyond))
    × (gte_integer_raw int_gmp smallest beyond
        ≡ leb_ℤ (int_value int_gmp int_gmp_laws beyond) (int_value int_gmp int_gmp_laws smallest))
    × ((eq_integer_raw int_gmp smallest beyond ≡ true)
        ↔ (int_value int_gmp int_gmp_laws smallest ≡ int_value int_gmp int_gmp_laws beyond))
integer_raw-compare_example =
    integer_raw-compare int_gmp int_gmp_laws smallest beyond smallest-IsCanonical beyond-IsCanonical

abbrev slow_sum : ℤ → ℤ → ℤ
slow_sum a b = a +ℤ b

binop_slow-owners_example :
    (times left (binop_slow int_gmp slow_sum smallest beyond).keeps
        + times left (binop_slow int_gmp slow_sum smallest beyond).drops
      ≡ 1)
    × (times right (binop_slow int_gmp slow_sum smallest beyond).keeps
          + times right (binop_slow int_gmp slow_sum smallest beyond).drops
        ≡ 1)
    × (times left (binop_slow int_gmp slow_sum smallest beyond).keeps
        ≤ (if is_unique smallest then 1 else 0))
    × (times right (binop_slow int_gmp slow_sum smallest beyond).keeps
        ≤ (if is_unique beyond then 1 else 0))
binop_slow-owners_example = binop_slow-owners int_gmp slow_sum smallest beyond

abbrev two : Integer ℤ
two = packed (imm_int64 (pos 2))

two-IsCanonical : IsCanonical int_gmp int_gmp_laws two
unfolding IsCanonical
two-IsCanonical = (pos 2, omega arith, refl)

two_places : nat_abs (int_value int_gmp int_gmp_laws two) < 2 ^ 64
unfolding int_value imm_signed imm_int64 half signed immediate to_size
two_places = omega arith

shift_integer-Represents_example :
    Represents int_gmp int_gmp_laws (shiftl_integer int_gmp smallest two) (
      int_value int_gmp int_gmp_laws smallest
      *ℤ pos (2 ^ nat_abs (int_value int_gmp int_gmp_laws two)))
    × Represents int_gmp int_gmp_laws (shiftr_integer int_gmp smallest two) (
        shift_down
          (int_value int_gmp int_gmp_laws smallest)
          (nat_abs (int_value int_gmp int_gmp_laws two)))
shift_integer-Represents_example =
    shift_integer-Represents int_gmp int_gmp_laws smallest two smallest-IsCanonical two-IsCanonical
      two_places

abbrev huge_bits : Boxed
huge_bits = bits64 (2 ^ 64 - 1)

huge_bits-Fits : Fits bits_64 (get bits_64 huge_bits)
unfolding get to_u64
huge_bits-Fits = omega arith

cast_integer-value_example :
    (get bits_64 (cast_integer_to int_gmp bits_64 smallest)
      ≡ cast bits_64 (int_value int_gmp int_gmp_laws smallest))
    × Represents int_gmp int_gmp_laws
        (cast_to_integer int_gmp bits_64 huge_bits)
        (get bits_64 huge_bits)
    × (get bits_64
          (cast_integer_to int_gmp bits_64 (cast_to_integer int_gmp bits_64 huge_bits).result)
        ≡ get bits_64 huge_bits)
cast_integer-value_example =
    cast_integer-value int_gmp int_gmp_laws bits_64 smallest huge_bits huge_bits-Fits
