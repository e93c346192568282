-- ===== src/Rounding/Mpz.antt =====
-- The functions of GMP and of C's floating point that `idris2rc2_ratio_to_double` calls, and what
-- GMP's manual says of them for numbers that are not negative.
use idris2_rc.Prelude.{ℕ, suc, ◌+◌, ◌*◌, ◌/◌, ◌%◌, ◌^◌, ◌<◌, ◌≤◌, ◌≡◌, Bool, ◌==◌}
use idris2_rc.Prelude.Int.{ℤ, pos, negsuc}

pub record Arith : Type 1 where
  pub Mpz : Type 0
  pub Double : Type 0
  pub mpz_sgn : Mpz → ℤ
  -- The number of digits in a base.
  pub mpz_sizeinbase : Mpz → ℕ → ℕ
  pub mpz_mul_2exp : Mpz → ℕ → Mpz
  pub mpz_fdiv_qr : Mpz → Mpz → Mpz × Mpz
  pub mpz_fdiv_q_2exp : Mpz → ℕ → Mpz
  pub mpz_add_ui : Mpz → ℕ → Mpz
  pub mpz_odd_p : Mpz → Bool
  -- The sign of the result is that of the comparison.
  pub mpz_cmp : Mpz → Mpz → ℤ
  pub mpz_get_d : Mpz → Double
  pub ldexp : Double → ℤ → Double
  pub zero_double : Double

pub record ArithLaws (g : Arith) : Type 0 where
  pub value : g.Mpz → ℕ
  pub sgn-zero : (a : g.Mpz) → value a ≡ 0 → g.mpz_sgn a ≡ pos 0
  pub sgn-pos : (a : g.Mpz) → 0 < value a → g.mpz_sgn a ≡ pos 1
  -- Exact for a base that is a power of two.
  pub sizeinbase-lt : (a : g.Mpz) → value a < 2 ^ g.mpz_sizeinbase a 2
  pub sizeinbase-le :
      (a : g.Mpz) → 0 < value a → (n : ℕ) × (g.mpz_sizeinbase a 2 ≡ suc n) × (2 ^ n ≤ value a)
  pub value-mul_2exp : (a : g.Mpz) (n : ℕ) → value (g.mpz_mul_2exp a n) ≡ value a * 2 ^ n
  pub value-fdiv_qr :
      (a b : g.Mpz)
      → 0 < value b
      → (value a ≡ value (g.mpz_fdiv_qr a b).0 * value b + value (g.mpz_fdiv_qr a b).1)
        × (value (g.mpz_fdiv_qr a b).1 < value b)
  pub value-fdiv_q_2exp : (a : g.Mpz) (n : ℕ) → value (g.mpz_fdiv_q_2exp a n) ≡ value a / 2 ^ n
  pub value-add_ui : (a : g.Mpz) (n : ℕ) → n < 2 ^ 64 → value (g.mpz_add_ui a n) ≡ value a + n
  pub odd_p : (a : g.Mpz) → g.mpz_odd_p a ≡ (value a % 2 == 1)
  -- The sign of a comparison.
  pub cmp-lt : (a b : g.Mpz) → value a < value b → (n : ℕ) × (g.mpz_cmp a b ≡ negsuc n)
  pub cmp-eq : (a b : g.Mpz) → value a ≡ value b → g.mpz_cmp a b ≡ pos 0
  pub cmp-gt : (a b : g.Mpz) → value b < value a → (n : ℕ) × (g.mpz_cmp a b ≡ pos (suc n))
