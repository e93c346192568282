-- ===== src/Decimal/Library.antt =====
-- What the reader and the writer of decimals call: GMP's arithmetic, and `sprintf` with "%ld".
use idris2_rc.Prelude.{ℕ, suc, ◌+◌, ◌-◌, ◌*◌, ◌^◌, ◌<◌, ◌≤◌, ◌≡◌, List, [], ◌∷◌, length, All}
use idris2_rc.Prelude.Int.{ℤ, pos, negsuc}

pub record Calls : Type 1 where
  pub Mpz : Type 0
  pub mpz_set_ui : ℕ → Mpz
  pub mpz_mul_ui : Mpz → ℕ → Mpz
  pub mpz_add_ui : Mpz → ℕ → Mpz
  pub print_long : ℤ → List ℕ

abbrev pub IsDigit : ℕ → Type 0
IsDigit c = (b'0' ≤ c) × (c ≤ b'9')

-- The number that digits stand for, after `acc`.
abbrev pub num_from : ℕ → List ℕ → ℕ
num_from acc [] = acc
num_from acc (c ∷ ds) = num_from (acc * 10 + (c - b'0')) ds

-- One digit at least, for the number.
pub record IsDecimal (ds : List ℕ) (n : ℕ) : Type 0 where
  pub digits : All IsDigit ds
  pub some_digit : 0 < length ds
  pub number : num_from 0 ds ≡ n

pub record CallsLaws (g : Calls) : Type 0 where
  pub value : g.Mpz → ℕ
  pub value-set_ui : (n : ℕ) → n < 2 ^ 64 → value (g.mpz_set_ui n) ≡ n
  pub value-mul_ui : (a : g.Mpz) (n : ℕ) → n < 2 ^ 64 → value (g.mpz_mul_ui a n) ≡ value a * n
  pub value-add_ui : (a : g.Mpz) (n : ℕ) → n < 2 ^ 64 → value (g.mpz_add_ui a n) ≡ value a + n
  pub print_pos : (n : ℕ) → n < 2 ^ 63 → IsDecimal (g.print_long (pos n)) n
  pub print_negsuc :
      (n : ℕ)
      → n < 2 ^ 63
      → (ds : List ℕ) × (g.print_long (negsuc n) ≡ b'-' ∷ ds) × IsDecimal ds (suc n)
