-- ===== src/Integer/Mpz.antt =====
-- GMP, which the `Integer` of the runtime stands on: the functions and the fields of `mpz_t` that
-- the runtime uses, and what the manual of GMP documents of them, as the integer that a number of
-- GMP stands for. Limbs have 64 bits.
use idris2_rc.Prelude.{ℕ, ◌-◌, ◌%◌, ◌<◌, ◌≤◌, ◌^◌, ◌≡◌, ◌≢◌, true}
use idris2_rc.Prelude.Int.{ℤ, pos, negsuc, nat_abs, ◌+ℤ◌, ◌-ℤ◌, ◌*ℤ◌, ◌≤ℤ◌, of_sign, ltb_ℤ}
use idris2_rc.Division.{is_negative, to_bits}
use idris2_rc.FixedInt.{shift_down}
use idris2_rc.Division.Euclid.{IsEuclid}

pub record Gmp : Type 1 where
  pub Mpz : Type 0
  -- The sign and the number of limbs, and the lowest limb.
  pub mp_size : Mpz → ℤ
  pub mp_d : Mpz → ℕ
  pub mpz_set : Mpz → Mpz
  pub mpz_set_si : ℤ → Mpz
  pub mpz_set_ui : ℕ → Mpz
  -- A number of one limb; the sign of the second argument is its sign.
  pub mpz_roinit_n : ℕ → ℤ → Mpz
  pub mpz_add : Mpz → Mpz → Mpz
  pub mpz_sub : Mpz → Mpz → Mpz
  pub mpz_mul : Mpz → Mpz → Mpz
  pub mpz_mod : Mpz → Mpz → Mpz
  pub mpz_divexact : Mpz → Mpz → Mpz
  pub mpz_neg : Mpz → Mpz
  pub mpz_mul_2exp : Mpz → ℕ → Mpz
  pub mpz_fdiv_q_2exp : Mpz → ℕ → Mpz
  pub mpz_fdiv_r_2exp : Mpz → ℕ → Mpz
  pub mpz_get_ui : Mpz → ℕ
  -- The sign of the result is that of the comparison.
  pub mpz_cmp : Mpz → Mpz → ℤ

-- What the size and the lowest limb say of a number: it is 0, or it has one limb, or more.
pub data HasLayout (size : ℤ) (low : ℕ) (n : ℤ) : Type 0 where
  no_limb : size ≡ pos 0 → n ≡ pos 0 → HasLayout size low n
  one_limb : size ≡ pos 1 → 0 < low → low < 2 ^ 64 → n ≡ pos low → HasLayout size low n
  minus_one_limb :
      size ≡ negsuc 0 → 0 < low → low < 2 ^ 64 → n ≡ of_sign true low → HasLayout size low n
  limbs :
      2 ≤ nat_abs size
      → 2 ^ 64 ≤ nat_abs n
      → is_negative size ≡ is_negative n
      → HasLayout size low n

pub record GmpLaws (g : Gmp) : Type 0 where
  pub value : g.Mpz → ℤ
  pub layout : (z : g.Mpz) → HasLayout (g.mp_size z) (g.mp_d z) (value z)
  pub value-set : (a : g.Mpz) → value (g.mpz_set a) ≡ value a
  pub value-set_si :
      (n : ℤ) → negsuc (2 ^ 63 - 1) ≤ℤ n → n ≤ℤ pos (2 ^ 63 - 1) → value (g.mpz_set_si n) ≡ n
  pub value-set_ui : (n : ℕ) → n < 2 ^ 64 → value (g.mpz_set_ui n) ≡ pos n
  pub value-roinit_n :
      (n : ℕ) (sign : ℤ) → n < 2 ^ 64 → value (g.mpz_roinit_n n sign) ≡ of_sign (is_negative sign) n
  pub value-add : (a b : g.Mpz) → value (g.mpz_add a b) ≡ value a +ℤ value b
  pub value-sub : (a b : g.Mpz) → value (g.mpz_sub a b) ≡ value a -ℤ value b
  pub value-mul : (a b : g.Mpz) → value (g.mpz_mul a b) ≡ value a *ℤ value b
  pub value-neg : (a : g.Mpz) → value (g.mpz_neg a) ≡ pos 0 -ℤ value a
  -- The sign of the divisor is ignored, and the result is never negative.
  pub value-mod :
      (a b : g.Mpz)
      → value b ≢ pos 0
      → (q : ℤ) × IsEuclid (value a) (value b) q (value (g.mpz_mod a b))
  -- Only where the divisor divides the number.
  pub value-divexact :
      (a b : g.Mpz) (q : ℤ)
      → value b ≢ pos 0
      → value a ≡ value b *ℤ q
      → value (g.mpz_divexact a b) ≡ q
  pub cmp-negative : (a b : g.Mpz) → is_negative (g.mpz_cmp a b) ≡ ltb_ℤ (value a) (value b)
  pub cmp-positive : (a b : g.Mpz) → ltb_ℤ (pos 0) (g.mpz_cmp a b) ≡ ltb_ℤ (value b) (value a)
  pub value-mul_2exp : (a : g.Mpz) (n : ℕ) → value (g.mpz_mul_2exp a n) ≡ value a *ℤ pos (2 ^ n)
  -- Both divisions round down.
  pub value-fdiv_q_2exp :
      (a : g.Mpz) (n : ℕ) → value (g.mpz_fdiv_q_2exp a n) ≡ shift_down (value a) n
  pub value-fdiv_r_2exp :
      (a : g.Mpz) (n : ℕ) → value (g.mpz_fdiv_r_2exp a n) ≡ pos (to_bits n (value a))
  -- The low 64 bits of the magnitude.
  pub value-get_ui : (a : g.Mpz) → g.mpz_get_ui a ≡ nat_abs (value a) % 2 ^ 64
