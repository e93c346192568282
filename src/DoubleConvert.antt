-- ===== src/DoubleConvert.antt =====
-- The fast reader of doubles in libs/rc2base/support/c/idris2rc2_rc2base_double_convert.c, which
-- gives the bits of the double or leaves the text to the exact reader. A text is its bytes up to
-- the NUL. DoubleConvert/Entry and DoubleConvert/Table have the table of powers of five.
pub mod Entry
pub mod Table
pub mod Words
pub mod Nearest
pub mod Bounds
pub mod Rows
pub mod Ratio
pub mod Fields
pub mod Library
pub mod Digits
pub mod Exponent
pub mod Text
pub mod Laws
pub mod Agree
mod Examples
use idris2_rc.Prelude.{
  ℕ, zero, suc, ◌+◌, ◌-◌, ◌*◌, ◌/◌, ◌%◌, ◌^◌, Bool, true, false, ◌&&◌, ◌||◌, not, Option, none,
  some, List, [], ◌∷◌, leb, ltb, ◌==◌, if◌then◌else◌, ◌>>=◌, u64, bit_and, bit_or, get_elem?,
}
use idris2_rc.Prelude.Int.{ℤ, pos, negsuc, ◌+ℤ◌, ◌-ℤ◌, leb_ℤ, ltb_ℤ, pos_part}
use idris2_rc.Decimal.{is_digit, starts_with_digit, sign}
use idris2_rc.ParseDouble.{parse_double}
use idris2_rc.ParseDouble.Library.{Numbers}
use idris2_rc.DoubleConvert.Entry.{Pow5Entry}
use idris2_rc.DoubleConvert.Table.{pow5_table}

-- The upper and the lower 64 bits of the upper 128 bits of a product.
unfoldable pub mulhi128 : (a b_hi b_lo : ℕ) → ℕ × ℕ
mulhi128 a b_hi b_lo =
    let p = (a * b_hi + u64 (a * b_lo / 2 ^ 64)) % 2 ^ 128 in (p / 2 ^ 64, p % 2 ^ 64)

-- `__builtin_clzll`, the zeros in front of the first bit that is set.
unfoldable pub clz_loop : (fuel w : ℕ) → ℕ
clz_loop zero w = 0
clz_loop (suc fuel) w = let more = clz_loop fuel (2 * w) in if ltb w (2 ^ 63) then suc more else 0

unfoldable pub clzll : ℕ → ℕ
unfolding clz_loop
clzll w = clz_loop 63 w

-- `p_hi`, `p_lo` and `extra_shift`.
pub record Product : Type 0 where
  pub hi : ℕ
  pub lo : ℕ
  pub extra : ℕ

-- The top bit of `p_hi` is set.
unfoldable pub normalize_product : ℕ × ℕ → Product
normalize_product (hi, lo) =
    if hi / 2 ^ 63 == 0
    then record { hi = bit_or (u64 (hi * 2)) (lo / 2 ^ 63); lo = u64 (lo * 2); extra = 1 }
    else record { hi = hi; lo = lo; extra = 0 }

abbrev pub ambiguity_delta : ℕ
ambiguity_delta = 2 ^ 20

-- `mant53` and `carry`.
pub record Mantissa : Type 0 where
  pub mant53 : ℕ
  pub carry : ℕ

unfoldable pub round_product : Product → Option Mantissa
round_product p =
    let kept54 = p.hi / 2 ^ 10 in
    let half = kept54 / 2 in
    let sticky = not (p.lo == 0) || not (bit_and p.hi 0x3FF == 0) in
    let up = bit_and kept54 1 == 1 && (sticky || bit_and half 1 == 1) in
    let mant = if up then half + 1 else half in
    if ltb p.lo ambiguity_delta || ltb (2 ^ 64 - 1 - ambiguity_delta) p.lo
    then none
    else if mant == 2 ^ 53
    then some (record { mant53 = 2 ^ 52; carry = 1 })
    else some (record { mant53 = mant; carry = 0 })

-- `binExp`.
abbrev pub bin_exp : (q : ℤ) (clz : ℕ) (e : ℤ) (extra carry : ℕ) → ℤ
bin_exp q clz e extra carry = pos 191 +ℤ q -ℤ pos clz -ℤ e -ℤ pos extra +ℤ pos carry

-- The bits of a double that is neither subnormal nor infinite.
unfoldable pub assemble : (neg : Bool) (exp : ℤ) (mant53 : ℕ) → Option ℕ
assemble neg exp mant53 =
    let e_field = exp +ℤ pos 1023 in
    let sign_bit = (if neg then 1 else 0) * 2 ^ 63 in
    if leb_ℤ e_field (pos 0) || leb_ℤ (pos 2047) e_field
    then none
    else some
        (bit_or (bit_or sign_bit (pos_part e_field * 2 ^ 52)) (bit_and mant53 0xFFFFFFFFFFFFF))

-- The bits of the double for `w` times ten to the power of `q`, from the test for zero on.
unfoldable pub convert : (neg : Bool) (w : ℕ) (q : ℤ) → Option ℕ
unfolding mulhi128 clzll normalize_product round_product assemble pow5_table
convert neg w q =
    if w == 0
    then some (if neg then 2 ^ 63 else 0)
    else if ltb_ℤ q (negsuc 341) || ltb_ℤ (pos 308) q
    then none
    else (do
      ent ← get_elem? pow5_table (pos_part (q +ℤ pos 342))
      let clz_w = clzll w
      let p = normalize_product (mulhi128 (u64 (w * 2 ^ clz_w)) ent.hi ent.lo)
      m ← round_product p
      assemble neg (bin_exp q clz_w ent.e p.extra m.carry) m.mant53)

-- What a loop over digits has read: the rest, `w`, `ndigits`, the digits that this loop has added
-- to `w`, `any_digit` and `too_many`.
pub record Scan : Type 0 where
  pub rest : List ℕ
  pub w : ℕ
  pub ndigits : ℕ
  pub added : ℕ
  pub any_digit : Bool
  pub too_many : Bool

unfoldable pub mantissa_loop : List ℕ → (w ndigits added : ℕ) (any_digit too_many : Bool) → Scan
mantissa_loop [] w ndigits added any_digit too_many = record {
  rest = [];
  w = w;
  ndigits = ndigits;
  added = added;
  any_digit = any_digit;
  too_many = too_many;
}
mantissa_loop (c ∷ p) w ndigits added any_digit too_many =
    let kept =
      mantissa_loop p (u64 (w * 10 + (c - b'0'))) (ndigits + 1) (added + 1) true too_many in
    let dropped = mantissa_loop p w ndigits added true true in
    if is_digit c then (if ltb ndigits 19 then kept else dropped) else record {
      rest = c ∷ p;
      w = w;
      ndigits = ndigits;
      added = added;
      any_digit = any_digit;
      too_many = too_many;
    }

-- The loop behind the point, if there is one.
unfoldable pub point_loop : Scan → Scan
unfolding mantissa_loop
point_loop s = elim s.rest [
  | [] ↦ record s { added = 0 }
  | c ∷ p ↦
      let digits = mantissa_loop p s.w s.ndigits 0 s.any_digit s.too_many in
      if c == b'.' then digits else record s { added = 0 }
]

-- The digits of the exponent to the end of the text.
unfoldable pub fast_exponent_loop : List ℕ → ℕ → Option (List ℕ × ℕ)
fast_exponent_loop [] ev = some ([], ev)
fast_exponent_loop (c ∷ p) ev =
    let next = ev * 10 + (c - b'0') in
    let more = fast_exponent_loop p next in
    if is_digit c then (if ltb 100_000 next then none else more) else some (c ∷ p, ev)

unfoldable pub fast_exponent : List ℕ → Option (List ℕ × ℤ)
unfolding fast_exponent_loop sign
fast_exponent [] = some ([], pos 0)
fast_exponent (c ∷ p) =
    let (eneg, digits) = sign p in
    let read = (do
      (rest, ev) ← fast_exponent_loop digits 0
      some (rest, if eneg then pos 0 -ℤ pos ev else pos ev)) in
    if c == b'e' || c == b'E'
    then (if starts_with_digit digits then read else none)
    else some (c ∷ p, pos 0)

-- `neg`, and the position behind it.
abbrev pub minus : List ℕ → Bool × List ℕ
minus [] = (false, [])
minus (c ∷ p) = if c == b'-' then (true, p) else (false, c ∷ p)

abbrev pub starts_number : List ℕ → Bool
starts_number [] = false
starts_number (c ∷ p) = is_digit c || c == b'.'

-- The number that the text stands for: a sign, a mantissa and a power of ten. Nothing stands behind
-- it.
abbrev pub at_end : List ℕ → Bool × ℕ × ℤ → Option (Bool × ℕ × ℤ)
at_end [] number = some number
at_end (c ∷ rest) number = none

unfoldable pub fast_scan : List ℕ → Option (Bool × ℕ × ℤ)
unfolding mantissa_loop point_loop fast_exponent
fast_scan text =
    let (neg, p) = minus text in
    let whole = mantissa_loop p 0 0 0 false false in
    let all = point_loop whole in
    let number = (do
      (rest, exp10) ← fast_exponent all.rest
      at_end rest (neg, all.w, exp10 -ℤ pos all.added)) in
    if not (starts_number p)
    then none
    else if not all.any_digit || all.too_many
    then none
    else number

unfoldable pub try_fast_parse : List ℕ → Option ℕ
unfolding fast_scan convert
try_fast_parse text = do (neg, w, q) ← fast_scan text; convert neg w q

-- The whole reader: the exact one where the fast one leaves the text to it. `of_bits` is the
-- `memcpy` of bits into a double, and `fuel` is that of the exact reader.
unfoldable pub fast_parse_double :
    (g : Numbers) (of_bits : ℕ → g.arith.Double) (fuel : ℕ) (s : List ℕ) → Option g.arith.Double
unfolding try_fast_parse parse_double
fast_parse_double g of_bits fuel s = elim (try_fast_parse s) [
  | some bits ↦ some (of_bits bits)
  | none ↦ parse_double g fuel s
]
