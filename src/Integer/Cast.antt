-- ===== src/Integer/Cast.antt =====
-- The conversions between `Integer` and the fixed-width types, in rc2/support/rc2/idris2rc2_numeric.h
-- and, with `idris2rc2_integerLsb`, in idris2rc2_numeric.c.
use idris2_rc.Prelude.{ℕ, ◌%◌, ◌^◌, ◌<◌, ◌≡◌, refl, ap, ◌∙◌, true, [], arith}
use native.Mathlib.Nat.{mod-eq_of_lt}
use idris2_rc.Prelude.Int.{ℤ, pos, nat_abs}
use idris2_rc.Division.{to_bits, wrap}
use idris2_rc.Immediate.{Boxed, to_u64}
use idris2_rc.FixedInt.{
  IntType, int_8, int_16, int_32, int_64, bits_8, bits_16, bits_32, bits_64, width, cast, mk, get,
  char_from_codepoint,
}
use idris2_rc.FixedInt.Wrap.{Fits, cast-to_bits, cast-Fits, get-mk, to_bits_lt, to_bits_idem}
use idris2_rc.Integer.Mpz.{Gmp, GmpLaws}
use idris2_rc.Integer.{
  Integer, packed, boxed, imm_signed, Outcome, packed_result, fits_i64, mk_integer_i64,
  mk_integer_u64,
}
use idris2_rc.Integer.Canonical.{
  int_value, Represents, packed-Represents, mk_integer_i64-Represents, mk_integer_u64-Represents,
}

module _ (g : Gmp) where
  unfoldable pub integer_lsb : Integer g.Mpz → (bits : ℕ) → ℕ
  integer_lsb (packed p) bits = to_bits 64 (imm_signed p)
  integer_lsb (boxed rc z) bits = g.mpz_get_ui (g.mpz_fdiv_r_2exp z bits)

  -- `idris2rc2_cast_Integer_to_<TO>`.
  unfoldable pub cast_integer_to : IntType → Integer g.Mpz → Boxed
  unfolding integer_lsb
  cast_integer_to t x = mk t (cast t (pos (integer_lsb x (width t))))

  -- `idris2rc2_cast_<FROM>_to_Integer`.
  unfoldable pub cast_to_integer : IntType → Boxed → Outcome g.Mpz
  cast_to_integer int_64 x = mk_integer_i64 g (get int_64 x)
  cast_to_integer bits_64 x = mk_integer_u64 g (nat_abs (get bits_64 x))
  cast_to_integer t x = packed_result (get t x)

  unfoldable pub cast_integer_to_char : Integer g.Mpz → Boxed
  cast_integer_to_char (boxed rc z) = mk bits_32 (pos 0)
  cast_integer_to_char (packed p) = mk bits_32 (pos (char_from_codepoint (imm_signed p)))

i64_lem : (x : ℤ) → Fits int_64 x → fits_i64 x ≡ true
i64_lem x h = ground arith

few_bits : (t : IntType) (x : ℤ) → to_bits (width t) x < 2 ^ 64
few_bits int_8 x = omega (arith, to_bits_lt 8 x)
few_bits int_16 x = omega (arith, to_bits_lt 16 x)
few_bits int_32 x = omega (arith, to_bits_lt 32 x)
few_bits int_64 x = omega (arith, to_bits_lt 64 x)
few_bits bits_8 x = omega (arith, to_bits_lt 8 x)
few_bits bits_16 x = omega (arith, to_bits_lt 16 x)
few_bits bits_32 x = omega (arith, to_bits_lt 32 x)
few_bits bits_64 x = omega (arith, to_bits_lt 64 x)

-- The low bits of a number are what a conversion keeps of it.
cast-low : (t : IntType) (x : ℤ) → cast t (pos (to_bits (width t) x % 2 ^ 64)) ≡ cast t x
unfolding cast wrap
cast-low t x =
    let low : to_bits (width t) x % 2 ^ 64 ≡ to_bits (width t) x = mod-eq_of_lt (few_bits t x) in
    rw (low, to_bits_idem (width t) x) refl

module _ (g : Gmp) (l : GmpLaws g) where
  lsb_lem :
      (t : IntType) (x : Integer g.Mpz)
      → cast t (pos (integer_lsb g x (width t))) ≡ cast t (int_value g l x)
  unfolding integer_lsb int_value
  lsb_lem t (packed p) = cast-to_bits t (imm_signed p)
  lsb_lem t (boxed rc z) =
      ap (λ (n : ℕ). cast t (pos n))
        (l.value-get_ui _ ∙ ap (λ (v : ℤ). nat_abs v % 2 ^ 64) (l.value-fdiv_r_2exp z (width t)))
      ∙ cast-low t (l.value z)

  to_integer :
      (t : IntType) (v : Boxed)
      → Fits t (get t v)
      → Represents g l (cast_to_integer g t v) (get t v)
  unfolding cast_to_integer get
  to_integer int_8 v h = packed-Represents g l (get int_8 v) [] [] (omega (arith, h.0, h.1))
  to_integer int_16 v h = packed-Represents g l (get int_16 v) [] [] (omega (arith, h.0, h.1))
  to_integer int_32 v h = packed-Represents g l (get int_32 v) [] [] (omega (arith, h.0, h.1))
  to_integer bits_8 v h = packed-Represents g l (get bits_8 v) [] [] (omega (arith, h.0, h.1))
  to_integer bits_16 v h = packed-Represents g l (get bits_16 v) [] [] (omega (arith, h.0, h.1))
  to_integer bits_32 v h = packed-Represents g l (get bits_32 v) [] [] (omega (arith, h.0, h.1))
  to_integer int_64 v h = mk_integer_i64-Represents g l (get int_64 v) (i64_lem (get int_64 v) h)
  to_integer bits_64 v h = mk_integer_u64-Represents g l (to_u64 v) (omega (arith, h.1))

  value_of : (o : Outcome g.Mpz) (x : ℤ) → Represents g l o x → int_value g l o.result ≡ x
  unfolding Represents
  value_of o x h = h.1

  -- A conversion of an `Integer` of any size to a fixed-width type keeps it modulo the width, and the
  -- conversion of a fixed-width value gives the `Integer` of the same number in its one form, from
  -- which the value is read back. This holds for GMP as its manual says.
  pub cast_integer-value :
      (t : IntType) (x : Integer g.Mpz) (v : Boxed)
      → Fits t (get t v)
      → (get t (cast_integer_to g t x) ≡ cast t (int_value g l x))
        × Represents g l (cast_to_integer g t v) (get t v)
        × (get t (cast_integer_to g t (cast_to_integer g t v).result) ≡ get t v)
  unfolding cast_integer_to
  cast_integer-value t x v h =
      let there : (y : Integer g.Mpz) → get t (cast_integer_to g t y) ≡ cast t (int_value g l y) =
        λ y. rw (lsb_lem t y) (get-mk t (int_value g l y)) in
      let made = to_integer t v h in
      (there x, made, there _ ∙ (ap (cast t) (value_of _ _ made) ∙ cast-Fits t (get t v) h))
