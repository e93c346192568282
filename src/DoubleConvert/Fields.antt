-- ===== src/DoubleConvert/Fields.antt =====
-- The fields of the bits of a double.
use idris2_rc.Prelude.{
  ℕ, ◌+◌, ◌-◌, ◌*◌, ◌^◌, ◌<◌, ◌≤◌, ◌≡◌, refl, sym, ◌∙◌, ap, Bool, true, false, arith, ◌||◌, some,
  none, bit_and, bit_or, if◌then◌else◌, eq_of_some,
}
use idris2_rc.Prelude.Int.{ℤ, pos, negsuc, ◌+ℤ◌, leb_ℤ, pos_part}
use idris2_rc.Prelude.Bits.{or_shifted, and_mask}
use idris2_rc.DoubleConvert.{assemble}

-- The bits: the sign, eleven bits of the exponent, and the mantissa without its first bit.
abbrev pub bits_of : Bool → (e_field mant53 : ℕ) → ℕ
bits_of neg e_field mant53 = (if neg then 1 else 0) * 2 ^ 63 + e_field * 2 ^ 52 + (mant53 - 2 ^ 52)

pub some_if :
    (refused : Bool) (x y : ℕ)
    → (if refused then none else some x) ≡ some y
    → (refused ≡ false) × (x ≡ y)
some_if true x y e = absurd (ground arith)
some_if false x y e = (refl, eq_of_some e)

field_lem :
    (z : ℤ)
    → (leb_ℤ z (pos 0) || leb_ℤ (pos 2047) z) ≡ false
    → (field : ℕ) × (pos field ≡ z) × (1 ≤ field) × (field ≤ 2046)
field_lem (pos n) h = (n, refl, ground arith, ground arith)
field_lem (negsuc n) h = absurd (ground arith)

join_fields :
    (s f r : ℕ)
    → f < 2 ^ 11
    → r < 2 ^ 52
    → bit_or (bit_or (s * 2 ^ 63) (f * 2 ^ 52)) r ≡ s * 2 ^ 63 + f * 2 ^ 52 + r
join_fields s f r hf hr =
    let first : bit_or (s * 2 ^ 63) (f * 2 ^ 52) ≡ s * 2 ^ 63 + f * 2 ^ 52 =
      or_shifted 63 s (f * 2 ^ 52) (omega arith) in
    let factor : s * 2 ^ 63 + f * 2 ^ 52 ≡ (s * 2 ^ 11 + f) * 2 ^ 52 = omega arith in
    rw (first, factor) (or_shifted 52 (s * 2 ^ 11 + f) r hr)

pub assemble-bits :
    (neg : Bool) (exp : ℤ) (m b : ℕ)
    → 2 ^ 52 ≤ m
    → m < 2 ^ 53
    → assemble neg exp m ≡ some b
    → (field : ℕ) × (pos field ≡ exp +ℤ pos 1023)
      × (1 ≤ field)
      × (field ≤ 2046)
      × (b ≡ bits_of neg field m)
unfolding assemble
assemble-bits neg exp m b lo hi e =
    let (in_range, same) = some_if _ _ _ e in
    let (field, whole, one, most) = field_lem (exp +ℤ pos 1023) in_range in
    let top : pos_part (exp +ℤ pos 1023) ≡ field = ap pos_part (sym whole) in
    let rest : bit_and m 0xFFFFFFFFFFFFF ≡ m - 2 ^ 52 = omega (arith, and_mask 52 m) in
    (
      field,
      whole,
      one,
      most,
      sym same
          ∙ rw (top, rest)
              (join_fields (if neg then 1 else 0) field (m - 2 ^ 52) (omega arith) (omega arith)),
    )
