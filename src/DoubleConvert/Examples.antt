-- ===== src/DoubleConvert/Examples.antt =====
-- Doubles as a with_sign mantissa with an exponent, for `memcpy`; -1.5 and 3.14159e-3.
use idris2_rc.Prelude.{
  ℕ, ◌+◌, ◌-◌, ◌*◌, ◌/◌, ◌%◌, ◌^◌, ◌<◌, ◌≤◌, ◌≡◌, refl, Bool, true, false, arith, ◌==◌,
  if◌then◌else◌, Bool-cases, inl, inr, List, [], ◌∷◌, get_elem?, some, none,
}
use idris2_rc.Prelude.Int.{ℤ, pos, negsuc, ◌+ℤ◌, ◌-ℤ◌, int_laws}
use idris2_rc.ParseDouble.{parse_double}
use idris2_rc.ParseDouble.Model.{plain, plain_laws}
use idris2_rc.DoubleConvert.{convert, try_fast_parse, fast_parse_double}
use idris2_rc.DoubleConvert.Entry.{Pow5Entry}
use idris2_rc.DoubleConvert.Table.{pow5_table}
use idris2_rc.DoubleConvert.Rows.{IsRow, pow5_table-IsRow}
use idris2_rc.DoubleConvert.Library.{BitsLaws}
use idris2_rc.DoubleConvert.Laws.{IsDouble, convert-IsDouble}
use idris2_rc.DoubleConvert.Agree.{fast_parse_double-exact}

abbrev magnitude_of : (field rest : ℕ) → ℤ × ℤ
magnitude_of field rest =
    if field == 0 then (pos rest, pos 0) else (pos (2 ^ 52 + rest), pos field -ℤ pos 1075)

abbrev with_sign : ℕ → ℤ × ℤ → ℤ × ℤ
with_sign top d = if top == 1 then (pos 0 -ℤ d.0, d.1) else d

-- The fields of a normal double, and zero.
unfoldable double_of : ℕ → ℤ × ℤ
double_of b = with_sign (b / 2 ^ 63) (magnitude_of (b / 2 ^ 52 % 2 ^ 11) (b % 2 ^ 52))

shift_back : (s : ℤ) → pos 1075 -ℤ s -ℤ pos 1075 ≡ pos 0 -ℤ s
shift_back s = omega int_laws

double_of-zero :
    (neg : Bool)
    → double_of (if neg then 2 ^ 63 else 0) ≡ (if neg then (pos 0, pos 0) else (pos 0, pos 0))
unfolding double_of ◌-ℤ◌
double_of-zero true = refl
double_of-zero false = refl

double_of-normal :
    (top mant field : ℕ) (s : ℤ)
    → top < 2
    → 2 ^ 52 ≤ mant
    → mant < 2 ^ 53
    → 1 ≤ field
    → field ≤ 2046
    → pos field ≡ pos 1075 -ℤ s
    → double_of (top * 2 ^ 63 + field * 2 ^ 52 + (mant - 2 ^ 52))
      ≡ with_sign top (pos mant, pos 0 -ℤ s)
unfolding double_of
double_of-normal top mant field s few lo hi one most exponent =
    let b = top * 2 ^ 63 + field * 2 ^ 52 + (mant - 2 ^ 52) in
    let sign_bit : b / 2 ^ 63 ≡ top = omega arith in
    let middle : b / 2 ^ 52 % 2 ^ 11 ≡ field = omega arith in
    let low : b % 2 ^ 52 ≡ mant - 2 ^ 52 = omega arith in
    let normal : (field == 0) ≡ false = ground arith in
    let whole : 2 ^ 52 + (mant - 2 ^ 52) ≡ mant = omega arith in
    let shift : pos field -ℤ pos 1075 ≡ pos 0 -ℤ s = rw exponent (shift_back s) in
    rw (sign_bit, middle, low, normal, whole, shift)

unfoldable bits_laws : BitsLaws plain plain_laws double_of
unfolding double_of plain_laws ◌-ℤ◌
bits_laws = record {
  of_bits-zero = double_of-zero;
  of_bits-normal = λ neg mant field s lo hi one most e. elim (Bool-cases neg) [
    | inl minus ↦ rw minus (double_of-normal 1 mant field s (omega arith) lo hi one most e)
    | inr plus ↦ rw plus (double_of-normal 0 mant field s (omega arith) lo hi one most e)
  ];
}

-- -1.5, where a product is too near to a whole number.
abbrev minus_1_5 : List ℕ
minus_1_5 = b'-' ∷ b'1' ∷ b'.' ∷ b'5' ∷ []

unsure : try_fast_parse minus_1_5 ≡ none
unfolding try_fast_parse ◌+ℤ◌ ◌-ℤ◌
unsure = refl

abbrev small_pi : List ℕ
small_pi = b'3' ∷ b'.' ∷ b'1' ∷ b'4' ∷ b'1' ∷ b'5' ∷ b'9' ∷ b'e' ∷ b'-' ∷ b'3' ∷ []

sure : try_fast_parse small_pi ≡ some 0x3F69BC6449D68DC1
unfolding try_fast_parse ◌+ℤ◌ ◌-ℤ◌
sure = refl

pi_bits : convert false 314_159 (negsuc 7) ≡ some 0x3F69BC6449D68DC1
unfolding convert ◌+ℤ◌ ◌-ℤ◌
pi_bits = refl

pow5_table-IsRow_example : (x : Pow5Entry) × (get_elem? pow5_table 334 ≡ some x) × IsRow 334 x
pow5_table-IsRow_example = pow5_table-IsRow 334 (omega arith)

convert-IsDouble_example : IsDouble false 314_159 (negsuc 7) 0x3F69BC6449D68DC1
convert-IsDouble_example =
    convert-IsDouble false 314_159 (negsuc 7) 0x3F69BC6449D68DC1 (omega arith) (omega arith) pi_bits

fast_parse_double-exact_example :
    fast_parse_double plain double_of 2 small_pi ≡ parse_double plain 2 small_pi
fast_parse_double-exact_example =
    fast_parse_double-exact plain plain_laws double_of bits_laws 0 small_pi
