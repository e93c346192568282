-- ===== src/Rounding/Model.antt =====
-- Natural numbers in place of GMP's, and a signed mantissa with an exponent in place of a double:
-- what the manual says can hold.
use idris2_rc.Prelude.{
  ℕ, zero, suc, ◌+◌, ◌*◌, ◌/◌, ◌%◌, ◌^◌, ◌<◌, ◌≤◌, ◌≡◌, inl, inr, refl, sym, false, arith, ltb,
  ◌==◌, if◌then◌else◌, Bool-cases, ==_iff,
}
use native.Mathlib.Nat.{pow-suc, div-add-mod', mod-lt}
use idris2_rc.Prelude.Int.{ℤ, pos, negsuc}
use idris2_rc.Rounding.Mpz.{Arith, ArithLaws}

unfoldable pub bits : (fuel n : ℕ) → ℕ
bits zero n = 0
bits (suc fuel) n = let rest = bits fuel (n / 2) in if n == 0 then 0 else suc rest

bits-zero : (fuel : ℕ) → bits fuel 0 ≡ 0
unfolding bits
bits-zero zero = refl
bits-zero (suc fuel) = refl

bits-lt : (fuel n : ℕ) → n ≤ fuel → n < 2 ^ bits fuel n
unfolding bits
bits-lt zero n h = omega arith
bits-lt (suc fuel) n h = elim (Bool-cases (n == 0)) [
  | inl e ↦ rw e (ground arith)
  | inr e ↦
      let ih = bits-lt fuel (n / 2) (ground arith) in
      rw e (omega (arith, pow-suc 2 (bits fuel (n / 2)), ih))
]

bits-le : (fuel n : ℕ) → n ≤ fuel → 0 < n → (k : ℕ) × (bits fuel n ≡ suc k) × (2 ^ k ≤ n)
unfolding bits
bits-le zero n h p = absurd (omega arith)
bits-le (suc fuel) n h p =
    let more : (n == 0) ≡ false = ground arith in
    elim (Bool-cases (n / 2 == 0)) [
      | inl last ↦
          let z : n / 2 ≡ 0 = (==_iff (n / 2) 0).0 last in
          (0, rw (more, z, bits-zero fuel), omega arith)
      | inr e ↦
          let (k, f, le) = bits-le fuel (n / 2) (omega arith) (ground arith) in
          (suc k, rw (more, f), omega (arith, pow-suc 2 k, le))
    ]

unfoldable pub size10 : (fuel n : ℕ) → ℕ
size10 zero n = 1
size10 (suc fuel) n = let rest = size10 fuel (n / 10) in if ltb n 10 then 1 else suc rest

abbrev pub size : ℕ → ℕ
size n = if n == 0 then 1 else bits n n

abbrev pub order : ℕ → ℕ → ℤ
order a b = if ltb a b then negsuc 0 else if ltb b a then pos 1 else pos 0

abbrev pub plain : Arith
plain = record {
  Mpz = ℕ;
  Double = ℤ × ℤ;
  mpz_sgn = λ a. if a == 0 then pos 0 else pos 1;
  mpz_sizeinbase = λ a base. if base == 2 then size a else size10 a a;
  mpz_mul_2exp = λ a n. a * 2 ^ n;
  mpz_fdiv_qr = λ a b. (a / b, a % b);
  mpz_fdiv_q_2exp = λ a n. a / 2 ^ n;
  mpz_add_ui = λ a n. a + n;
  mpz_odd_p = λ a. a % 2 == 1;
  mpz_cmp = order;
  mpz_get_d = λ a. (pos a, pos 0);
  ldexp = λ d e. (d.0, e);
  zero_double = (pos 0, pos 0);
}

pub size-lt : (a : ℕ) → a < 2 ^ size a
size-lt a = elim (Bool-cases (a == 0)) [
  | inl e ↦ rw e (ground arith)
  | inr e ↦ rw e (bits-lt a a (omega arith))
]

pub size-le : (a : ℕ) → 0 < a → (n : ℕ) × (size a ≡ suc n) × (2 ^ n ≤ a)
size-le a p = let more : (a == 0) ≡ false = ground arith in rw more (bits-le a a (omega arith) p)

unfoldable pub plain_laws : ArithLaws plain
plain_laws = record {
  value = λ a. a;
  sgn-zero = λ a e. ground arith;
  sgn-pos = λ a p. ground arith;
  sizeinbase-lt = size-lt;
  sizeinbase-le = size-le;
  value-mul_2exp = λ a n. refl;
  value-fdiv_qr = λ a b p. (sym (div-add-mod' a b), mod-lt a p);
  value-fdiv_q_2exp = λ a n. refl;
  value-add_ui = λ a n h. refl;
  odd_p = λ a. refl;
  cmp-lt = λ a b h. (0, ground arith);
  cmp-eq = λ a b h. ground arith;
  cmp-gt = λ a b h. (0, ground arith);
}
