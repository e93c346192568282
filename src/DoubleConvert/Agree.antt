-- ===== src/DoubleConvert/Agree.antt =====
-- Where the fast reader gives a double, the exact reader gives that double.
use idris2_rc.Prelude.{
  ℕ, zero, suc, ◌+◌, ◌*◌, ◌^◌, ◌<◌, ◌≤◌, ◌≡◌, refl, sym, ◌∙◌, ap, Bool, true, arith, Option, some,
  none, ◌>>=◌, List, [], length, if◌then◌else◌, ◌==◌, bind_some, dec_lt, eq_of_some,
}
use native.Mathlib.Nat.{pow-le-pow_right}
use idris2_rc.Prelude.Int.{ℤ, pos, negsuc, ◌-ℤ◌, pos_part, neg_part, nat_abs, -ℤ_parts}
use idris2_rc.Rounding.Nearest.{InReach, power_pos}
use idris2_rc.Decimal.{sign, scan_decimal}
use idris2_rc.ParseDouble.{skip_spaces, magnitude, parse_double}
use idris2_rc.ParseDouble.Library.{Numbers, NumbersLaws, calls}
use idris2_rc.ParseDouble.Laws.{magnitude-Rounds, parse_double-magnitude, parse_double-zero}
use idris2_rc.ParseDouble.Powers.{ten_pos}
use idris2_rc.Rounding.Unique.{one_double}
use idris2_rc.DoubleConvert.{fast_scan, convert, try_fast_parse, fast_parse_double}
use idris2_rc.DoubleConvert.Fields.{bits_of}
use idris2_rc.DoubleConvert.Library.{BitsLaws}
use idris2_rc.DoubleConvert.Laws.{IsDouble, convert-IsDouble}
use idris2_rc.DoubleConvert.Words.{product_le}
use idris2_rc.DoubleConvert.Text.{fast_scan-exact}

-- How many digits a number has.
digits_of : (k w : ℕ) → 0 < w → w < 10 ^ k → (n : ℕ) × (n < k) × (10 ^ n ≤ w) × (w < 10 ^ suc n)
digits_of zero w p h = absurd (omega arith)
digits_of (suc k) w p h = elim (dec_lt w (10 ^ k)) [
  | yes less ↦ let (n, lt, lo, hi) = digits_of k w p less in (n, omega arith, lo, hi)
  | no ge ↦ (k, omega arith, omega arith, h)
]

exponent_le : (s : ℤ) (field : ℕ) → pos field ≡ pos 1075 -ℤ s → 1 ≤ field → pos_part s ≤ 1074
exponent_le (negsuc n) field e h = omega arith
exponent_le (pos n) field e h =
    omega (arith, ap pos_part e, ap neg_part e, -ℤ_parts (pos 1075) (pos n))

-- The least number of the table is subnormal, if it has one digit.
too_small :
    (w ps ns : ℕ) → w < 10 → ps ≤ 1074 → InReach (w * 10 ^ 0 * 2 ^ ps) (10 ^ 342 * 2 ^ ns) → ⊥
too_small w ps ns lt le reach =
    let power : 2 ^ ps ≤ 2 ^ 1074 = pow-le-pow_right {n = 2} (omega arith) le in
    let high : w * 10 ^ 0 * 2 ^ ps ≤ 9 * 2 ^ 1074 =
      product_le (w * 10 ^ 0) (2 ^ ps) 9 (2 ^ 1074) (omega arith) power in
    let low : 10 ^ 342 * 1 ≤ 10 ^ 342 * 2 ^ ns =
      product_le (10 ^ 342) 1 (10 ^ 342) (2 ^ ns) (omega arith) (power_pos ns) in
    omega (arith, high, low, reach)

-- A double that is not subnormal is not cut off.
not_cut_off :
    (w : ℕ) (q : ℤ) (n b : ℕ) (neg : Bool)
    → w < 10 ^ suc n
    → IsDouble neg w q b
    → neg_part q ≤ pos_part q + n + 341
not_cut_off w (pos m) n b neg lt x = omega arith
not_cut_off w (negsuc m) (suc n) b neg lt x = omega (arith, x.least)
not_cut_off w (negsuc m) zero b neg lt x = elim (dec_lt m 341) [
  | yes less ↦ omega arith
  | no last ↦
      let e : suc m ≡ 342 = omega (arith, x.least) in
      let reach = (rw e at x.reach) in
      absurd (
        too_small w (pos_part x.s) (neg_part x.s) (omega arith)
          (exponent_le x.s x.field x.exponent x.normal) reach)
]

convert-zero :
    (neg : Bool) (w : ℕ) (q : ℤ) (b : ℕ)
    → w ≡ 0
    → convert neg w q ≡ some b
    → b ≡ (if neg then 2 ^ 63 else 0)
unfolding convert
convert-zero neg w q b z e =
    let is_zero : (w == 0) ≡ true = ground arith in sym (eq_of_some (rw is_zero at e))

nat_abs_small : (q : ℤ) → neg_part q ≤ 342 → pos_part q ≤ 308 → nat_abs q < 2 ^ 64
nat_abs_small (pos n) h k = omega arith
nat_abs_small (negsuc n) h k = omega arith

module _ (g : Numbers) (laws : NumbersLaws g) where
  open laws.arith_laws use {value}

  -- `o` is the double with the bits `b`: a zero, or `ldexp` of a mantissa of 53 bits and an exponent
  -- that is neither subnormal nor too large.
  data HasBits (o : Option g.arith.Double) (b : ℕ) : Type 0 where
    zero_bits :
        (neg : Bool)
        → o ≡ some (if neg then g.negate_double g.arith.zero_double else g.arith.zero_double)
        → b ≡ (if neg then 2 ^ 63 else 0)
        → HasBits o b
    normal_bits :
        (neg : Bool) (mant : g.arith.Mpz) (field : ℕ) (s : ℤ)
        → o
          ≡ some (
              if neg
              then g.negate_double (g.arith.ldexp (g.arith.mpz_get_d mant) (pos 0 -ℤ s))
              else g.arith.ldexp (g.arith.mpz_get_d mant) (pos 0 -ℤ s))
        → b ≡ bits_of neg field (value mant)
        → (2 ^ 52 ≤ value mant) × (value mant < 2 ^ 53)
        → (1 ≤ field) × (field ≤ 2046) × (pos field ≡ pos 1075 -ℤ s)
        → HasBits o b

  normal :
      (fuel w : ℕ) (q : ℤ) (sig : g.arith.Mpz) (b : ℕ) (neg : Bool) (o : Option g.arith.Double)
      → w < 10 ^ 19
      → 0 < w
      → value sig ≡ w
      → o ≡ (
          magnitude g (suc (suc fuel)) (record { rest = []; sig = sig; dexp = q }) >>= λ d.
          some (if neg then g.negate_double d else d))
      → IsDouble neg w q b
      → HasBits o b
  normal fuel w q sig b neg o small positive number same x =
      let (n, few, lo, hi) = digits_of 19 w positive small in
      let range = nat_abs_small q x.least x.most in
      let cut = not_cut_off w q n b neg hi x in
      let (mant, s, found, first_bit, fits, near, reach) =
        magnitude-Rounds g laws fuel [] sig q n (rw number lo) (rw number hi) cut
          (omega (arith, x.most)) range in
      let num : value sig * 10 ^ pos_part q ≡ w * 10 ^ pos_part q = rw number in
      let near' = (rw num at near) in
      let reach' = (rw num at reach) in
      let (same_mant, same_s) =
        one_double (w * 10 ^ pos_part q) (10 ^ neg_part q) x.mant (value mant) x.s s
          (ten_pos (neg_part q)) (x.fits, x.nearest, x.reach) (fits, near', reach') in
      normal_bits neg mant x.field s (same ∙ rw found)
        (x.bits ∙ ap (λ (m : ℕ). bits_of neg x.field m) same_mant) (first_bit, fits)
        (x.normal, x.finite, x.exponent ∙ ap (λ (z : ℤ). pos 1075 -ℤ z) same_s)

  read :
      (fuel : ℕ) (text p : List ℕ) (neg : Bool) (w : ℕ) (q : ℤ) (sig : g.arith.Mpz) (b : ℕ)
      → sign (skip_spaces text) ≡ (neg, p)
      → 0 < length p
      → scan_decimal (calls g) p ≡ record { rest = []; sig = sig; dexp = q }
      → value sig ≡ w
      → w < 10 ^ 19
      → convert neg w q ≡ some b
      → HasBits (parse_double g (suc (suc fuel)) text) b
  read fuel text p neg w q sig b front some_text exact number small converted = elim (dec_lt 0 w) [
    | yes positive ↦
        normal fuel w q sig b neg _ small positive number
          (parse_double-magnitude g laws (suc (suc fuel)) text p neg sig q front some_text exact
            (omega arith))
          (convert-IsDouble neg w q b positive (omega arith) converted)
    | no not_positive ↦
        zero_bits neg
          (parse_double-zero g laws (suc (suc fuel)) text p neg sig q front some_text exact
            (omega arith))
          (convert-zero neg w q b (omega arith) converted)
  ]

  -- Where the fast reader gives the bits of a double for a text, the exact reader gives the double with
  -- these bits: the same zero, or the same sign, mantissa and exponent.
  try_fast_parse-exact :
      (fuel : ℕ) (text : List ℕ) (b : ℕ)
      → try_fast_parse text ≡ some b
      → HasBits (parse_double g (suc (suc fuel)) text) b
  unfolding try_fast_parse
  try_fast_parse-exact fuel text b e =
      let ((neg, w, q), scanned, converted) =
        bind_some (fast_scan text) (λ (t : Bool × ℕ × ℤ). convert t.0 t.1 t.2) e in
      let (p, sig, front, some_text, exact, number, small) =
        fast_scan-exact (calls g) laws.calls_laws text neg w q scanned in
      read fuel text p neg w q sig b front some_text exact (sym (laws.one_value sig) ∙ number) small
        converted

  module _ (of_bits : ℕ → g.arith.Double) (bits_laws : BitsLaws g laws of_bits) where
    HasBits-double : (o : Option g.arith.Double) (b : ℕ) → HasBits o b → some (of_bits b) ≡ o
    HasBits-double o b (zero_bits neg same bits) =
        rw bits (ap some (bits_laws.of_bits-zero neg) ∙ sym same)
    HasBits-double o b (normal_bits neg mant field s same bits (lo, hi) (one, most, exponent)) =
        rw bits
          (ap some (bits_laws.of_bits-normal neg mant field s lo hi one most exponent) ∙ sym same)

    -- The reader with the fast path gives what the exact reader gives, for every text, with a fuel of two
    -- at least for the exact reader's loops. The functions of GMP and C do what is documented of them, and
    -- `of_bits` follows the layout of IEEE 754.
    pub fast_parse_double-exact :
        (fuel : ℕ) (text : List ℕ)
        → fast_parse_double g of_bits (suc (suc fuel)) text ≡ parse_double g (suc (suc fuel)) text
    unfolding fast_parse_double
    fast_parse_double-exact fuel text = by_path (try_fast_parse text) refl
      where
        by_path :
            (fast : Option ℕ)
            → try_fast_parse text ≡ fast
            → elim fast [
              | some bits ↦ some (of_bits bits)
              | none ↦ parse_double g (suc (suc fuel)) text
            ]
              ≡ parse_double g (suc (suc fuel)) text
        by_path none e = refl
        by_path (some b) e = HasBits-double _ b (try_fast_parse-exact fuel text b e)
