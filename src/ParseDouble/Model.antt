-- ===== src/ParseDouble/Model.antt =====
-- Natural numbers in place of GMP's, for the reader of doubles: what the manual says can hold.
use idris2_rc.Prelude.{
  ℕ, zero, suc, ◌*◌, ◌/◌, ◌^◌, ◌<◌, ◌≤◌, ◌≡◌, inl, refl, true, false, arith, ltb,
}
use native.Mathlib.Nat.{pow-suc}
use idris2_rc.Prelude.Int.{pos, ◌-ℤ◌}
use idris2_rc.Rounding.Model as Whole
use idris2_rc.Rounding.Model.{size10}
use idris2_rc.Decimal.Model as Digits
use idris2_rc.ParseDouble.Library.{Numbers, NumbersLaws}
use idris2_rc.ParseDouble.Powers.{ten_pos, ltb-false}

pub size10-digits : (fuel n a : ℕ) → a ≤ fuel → 10 ^ n ≤ a → a < 10 ^ suc n → size10 fuel a ≡ suc n
unfolding size10
size10-digits zero n a h lo hi = absurd (omega (arith, ten_pos n))
size10-digits (suc fuel) zero a h lo hi = let last : ltb a 10 ≡ true = ground arith in rw last
size10-digits (suc fuel) (suc n) a h lo hi =
    let ten_times = pow-suc 10 n in
    let more : ltb a 10 ≡ false = ltb-false a 10 (omega (arith, ten_times, ten_pos n)) in
    let ih =
      size10-digits fuel n (a / 10) (omega (arith, ten_times, ten_pos n)) (omega (arith, ten_times))
        (omega (arith, pow-suc 10 (suc n))) in
    rw (more, ih)

-- A double is a signed mantissa and an exponent of two, and the infinite one is 2 ^ 5000.
abbrev pub plain : Numbers
plain = record {
  arith = Whole.plain;
  mpz_set_ui = λ n. n;
  mpz_mul_ui = λ a n. a * n;
  mpz_mul = λ a b. a * b;
  mpz_ui_pow_ui = λ b n. b ^ n;
  print_long = Digits.print_long;
  huge_val = (pos 1, pos 5000);
  negate_double = λ d. (pos 0 -ℤ d.0, d.1);
}

unfoldable pub plain_laws : NumbersLaws plain
unfolding Whole.plain_laws Digits.plain_laws
plain_laws = record {
  arith_laws = Whole.plain_laws;
  calls_laws = Digits.plain_laws;
  one_value = λ a. refl;
  value-mul = λ a b. refl;
  value-ui_pow_ui = λ b n h k. refl;
  sizeinbase-ten = λ a n lo hi. inl (size10-digits a n a (omega arith) lo hi);
}
