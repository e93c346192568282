-- ===== src/ParseDouble/Library.antt =====
-- The functions that Rounding and Decimal call, on one type of numbers, and the few more that
-- `idris2rc2_parse_double` calls.
use idris2_rc.Prelude.{ℕ, suc, ◌*◌, ◌^◌, ◌<◌, ◌≤◌, ◌≡◌, ◌⊎◌, List}
use idris2_rc.Prelude.Int.{ℤ}
use idris2_rc.Rounding.Mpz.{Arith, ArithLaws}
use idris2_rc.Decimal.Library.{Calls, CallsLaws}

pub record Numbers : Type 1 where
  pub arith : Arith
  pub mpz_set_ui : ℕ → arith.Mpz
  pub mpz_mul_ui : arith.Mpz → ℕ → arith.Mpz
  pub mpz_mul : arith.Mpz → arith.Mpz → arith.Mpz
  pub mpz_ui_pow_ui : ℕ → ℕ → arith.Mpz
  pub print_long : ℤ → List ℕ
  pub huge_val : arith.Double
  pub negate_double : arith.Double → arith.Double

abbrev pub calls : Numbers → Calls
calls g = record {
  Mpz = g.arith.Mpz;
  mpz_set_ui = g.mpz_set_ui;
  mpz_mul_ui = g.mpz_mul_ui;
  mpz_add_ui = g.arith.mpz_add_ui;
  print_long = g.print_long;
}

pub record NumbersLaws (g : Numbers) : Type 0 where
  pub arith_laws : ArithLaws g.arith
  pub calls_laws : CallsLaws (calls g)
  pub one_value : (a : g.arith.Mpz) → calls_laws.value a ≡ arith_laws.value a
  pub value-mul :
      (a b : g.arith.Mpz)
      → arith_laws.value (g.mpz_mul a b) ≡ arith_laws.value a * arith_laws.value b
  pub value-ui_pow_ui :
      (b n : ℕ) → b < 2 ^ 64 → n < 2 ^ 64 → arith_laws.value (g.mpz_ui_pow_ui b n) ≡ b ^ n
  -- The number of digits, or one more.
  pub sizeinbase-ten :
      (a : g.arith.Mpz) (n : ℕ)
      → 10 ^ n ≤ arith_laws.value a
      → arith_laws.value a < 10 ^ suc n
      → (g.arith.mpz_sizeinbase a 10 ≡ suc n) ⊎ (g.arith.mpz_sizeinbase a 10 ≡ suc (suc n))
