-- ===== src/FixedInt/Divide.antt =====
-- The division of the eight types against Euclid's, and the conversions to a character.
use idris2_rc.Prelude.{
  ℕ, zero, suc, ◌/◌, ◌%◌, ◌^◌, ◌<◌, ◌≡◌, ◌≢◌, refl, sym, ap, ◌∙◌, ◌⊎◌, inl, inr, false, ltb, arith,
  Bool-cases,
}
use native.Mathlib.Nat.{mod-eq_of_lt, div-le_self}
use idris2_rc.Prelude.Int.{ℤ, pos, negsuc, ◌≤ℤ◌, nat_abs, pos_part, neg_part}
use idris2_rc.Prelude.Run.{ok}
use idris2_rc.Utf8.Decode.{IsScalar}
use idris2_rc.Division.{to_bits, of_bits, wrap, ediv_small}
use idris2_rc.Division.Euclid.{IsEuclid, euclid_div, euclid_mod, euclid_div-IsEuclid, add_zero}
use idris2_rc.Division.Laws.{ediv-euclid, emod-euclid, emod_i64-emod}
use idris2_rc.Immediate.{Boxed}
use idris2_rc.FixedInt.{
  IntType, int_8, int_16, int_32, int_64, bits_8, bits_16, bits_32, bits_64, cast, mk, get, divide,
  modulo, div_op, mod_op, is_zero, cast_to_char, char_from_codepoint,
}
use idris2_rc.FixedInt.Wrap.{get-mk, Fits, cast-Fits, Fits-less}

-- Euclid's remainder is in the range of the type.
euclid_mod-Fits : (t : IntType) (x y : ℤ) → Fits t y → y ≢ pos 0 → Fits t (euclid_mod x y)
euclid_mod-Fits t x y h ne =
    let e = euclid_div-IsEuclid x y ne in by_type t y (euclid_mod x y) h e.nonneg e.below
  where
    by_type :
        (t : IntType) (y r : ℤ) → Fits t y → neg_part r ≡ 0 → pos_part r < nat_abs y → Fits t r
    by_type int_8 y r h n b = ground arith
    by_type int_16 y r h n b = ground arith
    by_type int_32 y r h n b = ground arith
    by_type int_64 y r h n b = ground arith
    by_type bits_8 y r h n b = ground arith
    by_type bits_16 y r h n b = ground arith
    by_type bits_32 y r h n b = ground arith
    by_type bits_64 y r h n b = ground arith

IsQuotient : IntType → ℤ → ℤ → Type 0
IsQuotient t x y =
    (divide t x y ≡ cast t (euclid_div x y)) × (modulo t x y ≡ cast t (euclid_mod x y))

both :
    (m n : ℕ)
    → m < 2 ^ 64
    → n < 2 ^ 64
    → (pos (to_bits 64 (pos m) / to_bits 64 (pos n)) ≡ pos (m / n))
      × (pos (to_bits 64 (pos m) % to_bits 64 (pos n)) ≡ pos (m % n))
unfolding to_bits
both m n lx ly =
    let a : m % 2 ^ 64 ≡ m = mod-eq_of_lt lx in
    let b : n % 2 ^ 64 ≡ n = mod-eq_of_lt ly in rw (a, b) (refl, refl)

unsigned_divide :
    (t : IntType) (x y : ℤ)
    → pos 0 ≤ℤ x
    → pos 0 ≤ℤ y
    → nat_abs x < 2 ^ 64
    → nat_abs y < 2 ^ 64
    → Fits t x
    → Fits t y
    → y ≢ pos 0
    → (pos (to_bits 64 x / to_bits 64 y) ≡ cast t (euclid_div x y))
      × (pos (to_bits 64 x % to_bits 64 y) ≡ cast t (euclid_mod x y))
unsigned_divide t (pos m) (pos n) px py lx ly hx hy ne =
    let quot : euclid_div (pos m) (pos n) ≡ pos (m / n) =
      unfold euclid_div in add_zero (pos (m / n)) in
    let rest : euclid_mod (pos m) (pos n) ≡ pos (m % n) = unfold euclid_mod in refl in
    let fits = (Fits-less t m (m / n) (div-le_self m n)).0 hx in
    rw
      (
        cast-Fits t (euclid_mod (pos m) (pos n)) (euclid_mod-Fits t (pos m) (pos n) hy ne),
        quot,
        rest,
        cast-Fits t (pos (m / n)) fits,
      )
      (both m n lx ly)
unsigned_divide t (negsuc m) y px py lx ly hx hy ne = absurd (omega arith)
unsigned_divide t (pos m) (negsuc n) px py lx ly hx hy ne = absurd (omega arith)

module _ (t : IntType) (x y : ℤ) (hy : Fits t y) (ne : y ≢ pos 0) where
  signed_mod : (r : ℤ) → r ≡ euclid_mod x y → r ≡ cast t (euclid_mod x y)
  signed_mod r e = e ∙ sym (cast-Fits t (euclid_mod x y) (euclid_mod-Fits t x y hy ne))

divide_lem : (t : IntType) (x y : ℤ) → Fits t x → Fits t y → y ≢ pos 0 → IsQuotient t x y
unfolding IsQuotient divide modulo cast
divide_lem int_8 x y hx hy ne = (
  unfold ediv_small euclid_div in refl,
  signed_mod int_8 x y hy ne _ (emod-euclid 7 x y ne (grind arith)),
)
divide_lem int_16 x y hx hy ne = (
  unfold ediv_small euclid_div in refl,
  signed_mod int_16 x y hy ne _ (emod-euclid 15 x y ne (grind arith)),
)
divide_lem int_32 x y hx hy ne =
    (ediv-euclid 32 x y, signed_mod int_32 x y hy ne _ (emod-euclid 31 x y ne (grind arith)))
divide_lem int_64 x y hx hy ne = (
  ediv-euclid 64 x y,
  signed_mod int_64 x y hy ne _
      (emod_i64-emod x y ne (grind arith) ∙ emod-euclid 63 x y ne (grind arith)),
)
divide_lem bits_8 x y hx hy ne =
    unsigned_divide bits_8 x y (omega arith) (omega arith) (grind arith) (grind arith) hx hy ne
divide_lem bits_16 x y hx hy ne =
    unsigned_divide bits_16 x y (omega arith) (omega arith) (grind arith) (grind arith) hx hy ne
divide_lem bits_32 x y hx hy ne =
    unsigned_divide bits_32 x y (omega arith) (omega arith) (grind arith) (grind arith) hx hy ne
divide_lem bits_64 x y hx hy ne =
    unsigned_divide bits_64 x y (omega arith) (omega arith) (grind arith) (grind arith) hx hy ne

-- Division and remainder of each of the eight types, by a divisor that is not 0: the remainder is
-- Euclid's, so never negative, and the quotient is Euclid's, wrapped where the type does not hold
-- it. The operands are values of the type.
pub div_op-IsEuclid :
    (t : IntType) (a b : Boxed)
    → Fits t (get t a)
    → Fits t (get t b)
    → get t b ≢ pos 0
    → (q r : Boxed) × (exact : ℤ) × (div_op t a b ≡ ok q)
      × (mod_op t a b ≡ ok r)
      × (get t q ≡ cast t exact)
      × IsEuclid (get t a) (get t b) exact (get t r)
unfolding IsQuotient div_op mod_op
div_op-IsEuclid t a b ha hb ne =
    let x = get t a in
    let y = get t b in
    let value = divide_lem t x y ha hb ne in
    let some : is_zero y ≡ false = is_zero_lem y ne in
    let rest : get t (mk t (cast t (euclid_mod x y))) ≡ euclid_mod x y =
      get-mk t (euclid_mod x y) ∙ cast-Fits t (euclid_mod x y) (euclid_mod-Fits t x y hb ne) in
    (
      mk t (divide t x y),
      mk t (modulo t x y),
      euclid_div x y,
      rw some refl,
      rw some refl,
      rw value.0 (get-mk t (euclid_div x y)),
      rw (value.1, rest) (euclid_div-IsEuclid x y ne),
    )
  where
    is_zero_lem : (y : ℤ) → y ≢ pos 0 → is_zero y ≡ false
    is_zero_lem (pos zero) ne = absurd (ne refl)
    is_zero_lem (pos (suc n)) ne = ground arith
    is_zero_lem (negsuc n) ne = refl

-- What `(int64_t)` leaves of a value: the value itself, or a negative number.
to_int64 :
    (from : IntType) (y : ℤ)
    → Fits from y
    → (cast int_64 y ≡ y) ⊎ (char_from_codepoint (cast int_64 y) ≡ 0)
to_int64 int_8 y h = inl (cast-Fits int_64 y (omega arith))
to_int64 int_16 y h = inl (cast-Fits int_64 y (omega arith))
to_int64 int_32 y h = inl (cast-Fits int_64 y (omega arith))
to_int64 int_64 y h = inl (cast-Fits int_64 y (omega arith))
to_int64 bits_8 y h = inl (cast-Fits int_64 y (omega arith))
to_int64 bits_16 y h = inl (cast-Fits int_64 y (omega arith))
to_int64 bits_32 y h = inl (cast-Fits int_64 y (omega arith))
to_int64 bits_64 (negsuc n) h = absurd (omega arith)
to_int64 bits_64 (pos n) h = elim (Bool-cases (ltb n (2 ^ 63))) [
  | inl small ↦ inl (cast-Fits int_64 (pos n) (ground arith))
  | inr large ↦ inr (
      let whole : n % 2 ^ 64 ≡ n = omega arith in
      unfold cast wrap to_bits of_bits char_from_codepoint in rw (whole, large) refl)
]

fits_char : (c : ℕ) → IsScalar c → get bits_32 (mk bits_32 (pos c)) ≡ pos c
fits_char c s =
    let same = cast-Fits bits_32 (pos c) (omega (arith, s.0)) in
    ap (λ i. get bits_32 (mk bits_32 i)) (sym same) ∙ (get-mk bits_32 (pos c) ∙ same)

scalar :
    (v : ℤ)
    → IsScalar (char_from_codepoint v)
      × ((v ≡ pos (char_from_codepoint v)) ⊎ (char_from_codepoint v ≡ 0))
unfolding char_from_codepoint
scalar (pos v) = ground arith
scalar (negsuc v) = (grind arith, inr refl)

-- A conversion of any of the eight types to a character gives a Unicode scalar value: the number
-- itself where it is one, and NUL otherwise.
pub cast_to_char-IsScalar :
    (from : IntType) (x : Boxed)
    → Fits from (get from x)
    → (c : ℕ) × (get bits_32 (cast_to_char from x) ≡ pos c)
      × IsScalar c
      × ((get from x ≡ pos c) ⊎ (c ≡ 0))
unfolding cast_to_char
cast_to_char-IsScalar from x h =
    let v = cast int_64 (get from x) in
    let s = scalar v in
    let c = char_from_codepoint v in
    (
      c,
      fits_char c s.0,
      s.0,
      elim (to_int64 from (get from x) h) [
        | inl same ↦ elim s.1 [ inl is ↦ inl (sym same ∙ is) | inr none ↦ inr none ]
        | inr none ↦ inr none
      ],
    )
