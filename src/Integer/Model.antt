-- ===== src/Integer/Model.antt =====
-- An implementation of the interface of GMP by unbounded integers, which shows that its laws can
-- hold. Of a number with two limbs or more it gives the size 2.
use idris2_rc.Prelude.{
  ℕ, zero, suc, ◌*◌, ◌/◌, ◌%◌, ◌^◌, ◌<◌, ◌≡◌, ◌≢◌, refl, sym, ap, ◌∙◌, inl, inr, Bool, true, false,
  ltb, ◌==◌, arith, if◌then◌else◌, Bool-cases,
}
use native.Mathlib.Nat.{mul-div_cancel_left, div-eq_of_lt}
use idris2_rc.Prelude.Int.{
  ℤ, pos, negsuc, nat_abs, ◌+ℤ◌, ◌-ℤ◌, ◌*ℤ◌, ltb_ℤ, of_sign, of_sign_parts, *ℤ_parts, eq_of_parts,
}
use idris2_rc.FixedInt.{shift_down}
use idris2_rc.Division.{is_negative, to_bits, differ, cdiv}
use idris2_rc.Division.Euclid.{euclid_div, euclid_mod, euclid_div-IsEuclid}
use idris2_rc.Integer.Mpz.{Gmp, GmpLaws, HasLayout, no_limb, one_limb, minus_one_limb, limbs}

abbrev limb_count : ℕ → ℕ
limb_count n = if n == 0 then 0 else if ltb n (2 ^ 64) then 1 else 2

abbrev pub int_gmp : Gmp
int_gmp = record {
  Mpz = ℤ;
  mp_size = λ z. of_sign (is_negative z) (limb_count (nat_abs z));
  mp_d = λ z. nat_abs z % 2 ^ 64;
  mpz_set = λ a. a;
  mpz_set_si = λ n. n;
  mpz_set_ui = pos;
  mpz_roinit_n = λ n sign. of_sign (is_negative sign) n;
  mpz_add = λ a b. a +ℤ b;
  mpz_sub = λ a b. a -ℤ b;
  mpz_mul = λ a b. a *ℤ b;
  mpz_mod = euclid_mod;
  mpz_divexact = cdiv;
  mpz_neg = λ a. pos 0 -ℤ a;
  mpz_mul_2exp = λ a n. a *ℤ pos (2 ^ n);
  mpz_fdiv_q_2exp = shift_down;
  mpz_fdiv_r_2exp = λ a n. pos (to_bits n a);
  mpz_get_ui = λ a. nat_abs a % 2 ^ 64;
  mpz_cmp = λ a b. a -ℤ b;
}

one_lem : (n : ℕ) → ltb (suc n) (2 ^ 64) ≡ true → limb_count (suc n) ≡ 1
one_lem n h = ground arith

many_count : (n : ℕ) → ltb (suc n) (2 ^ 64) ≡ false → limb_count (suc n) ≡ 2
many_count n h = ground arith

pub layout_lem : (z : ℤ) → HasLayout (int_gmp.mp_size z) (int_gmp.mp_d z) z
layout_lem (pos zero) = no_limb refl refl
layout_lem (pos (suc n)) = elim (Bool-cases (ltb (suc n) (2 ^ 64))) [
  | inl low ↦
      let whole : suc n % 2 ^ 64 ≡ suc n = ground arith in
      one_limb (ap pos (one_lem n low)) (ground arith) (omega arith) (ap pos (sym whole))
  | inr high ↦ limbs (rw (many_count n high) (omega arith)) (ground arith) refl
]
layout_lem (negsuc n) = elim (Bool-cases (ltb (suc n) (2 ^ 64))) [
  | inl low ↦
      let whole : suc n % 2 ^ 64 ≡ suc n = ground arith in
      minus_one_limb (ap (of_sign true) (one_lem n low)) (ground arith) (omega arith)
        (ap (of_sign true) (sym whole))
  | inr high ↦
      limbs (rw (many_count n high) (omega arith)) (ground arith) (rw (many_count n high) refl)
]

-- A product by its sign and its size.
mul_sign :
    (b q : ℤ) → b *ℤ q ≡ of_sign (differ (is_negative b) (is_negative q)) (nat_abs b * nat_abs q)
mul_sign (pos k) (pos n) = eq_of_parts _ _ (omega (arith, *ℤ_parts (pos k) (pos n)))
mul_sign (pos k) (negsuc n) =
    eq_of_parts _ _ (omega (arith, *ℤ_parts (pos k) (negsuc n), of_sign_parts true (k * suc n)))
mul_sign (negsuc k) (pos n) =
    eq_of_parts _ _ (omega (arith, *ℤ_parts (negsuc k) (pos n), of_sign_parts true (suc k * n)))
mul_sign (negsuc k) (negsuc n) = eq_of_parts _ _ (omega (arith, *ℤ_parts (negsuc k) (negsuc n)))

sign_of_sign : (s : Bool) (n : ℕ) → 0 < n → is_negative (of_sign s n) ≡ s
sign_of_sign s zero h = absurd (omega arith)
sign_of_sign true (suc n) h = refl
sign_of_sign false (suc n) h = refl

abs_of_sign : (s : Bool) (n : ℕ) → nat_abs (of_sign s n) ≡ n
abs_of_sign true zero = refl
abs_of_sign true (suc n) = refl
abs_of_sign false n = refl

of_sign_zero : (s : Bool) → of_sign s 0 ≡ pos 0
of_sign_zero true = refl
of_sign_zero false = refl

differ-differ : (t s : Bool) → differ (differ t s) t ≡ s
differ-differ true true = refl
differ-differ true false = refl
differ-differ false true = refl
differ-differ false false = refl

-- The exact quotient of a number that is given by its sign and its size.
exact_sign :
    (s t : Bool) (b q : ℕ) → 0 < b → cdiv (of_sign (differ t s) (b * q)) (of_sign t b) ≡ of_sign s q
unfolding cdiv
exact_sign s t b zero h =
    let none : b * 0 ≡ 0 = omega arith in
    rw
      (
        none,
        of_sign_zero (differ t s),
        of_sign_zero s,
        abs_of_sign t b,
        div-eq_of_lt {n = 0} h,
        of_sign_zero _,
      )
      refl
exact_sign s t b (suc q) h =
    let some : 0 < b * suc q = grind arith in
    let quot : b * suc q / b ≡ suc q = mul-div_cancel_left (suc q) h in
    rw
      (
        sign_of_sign (differ t s) (b * suc q) some,
        sign_of_sign t b h,
        abs_of_sign (differ t s) (b * suc q),
        abs_of_sign t b,
        quot,
        differ-differ t s,
      )
      refl

sign_abs : (x : ℤ) → of_sign (is_negative x) (nat_abs x) ≡ x
sign_abs (pos n) = refl
sign_abs (negsuc n) = refl

-- An exact quotient, by the signs of the divisor and of the quotient.
pub exact : (b q : ℤ) → b ≢ pos 0 → cdiv (b *ℤ q) b ≡ q
exact b q ne =
    ap (λ t. cdiv t b) (mul_sign b q)
    ∙ (ap (λ t. cdiv (of_sign (differ (is_negative b) (is_negative q)) (nat_abs b * nat_abs q)) t)
          (sym (sign_abs b))
        ∙ (exact_sign (is_negative q) (is_negative b) (nat_abs b) (nat_abs q) (some b ne)
            ∙ sign_abs q))
  where
    some : (b : ℤ) → b ≢ pos 0 → 0 < nat_abs b
    some (pos zero) ne = absurd (ne refl)
    some (pos (suc n)) ne = omega arith
    some (negsuc n) ne = omega arith

pub difference_sign :
    (a b : ℤ) → (is_negative (a -ℤ b) ≡ ltb_ℤ a b) × (ltb_ℤ (pos 0) (a -ℤ b) ≡ ltb_ℤ b a)
unfolding ◌-ℤ◌
difference_sign a b = ground arith

unfoldable pub int_gmp_laws : GmpLaws int_gmp
int_gmp_laws = record {
  value = λ z. z;
  layout = layout_lem;
  value-set = λ a. refl;
  value-set_si = λ n low high. refl;
  value-set_ui = λ n h. refl;
  value-roinit_n = λ n sign h. refl;
  value-add = λ a b. refl;
  value-sub = λ a b. refl;
  value-mul = λ a b. refl;
  value-neg = λ a. refl;
  value-mod = λ a b ne. (euclid_div a b, euclid_div-IsEuclid a b ne);
  value-divexact = λ a b q ne h. ap (λ t. cdiv t b) h ∙ exact b q ne;
  value-mul_2exp = λ a n. refl;
  value-fdiv_q_2exp = λ a n. refl;
  value-fdiv_r_2exp = λ a n. refl;
  value-get_ui = λ a. refl;
  cmp-negative = λ a b. (difference_sign a b).0;
  cmp-positive = λ a b. (difference_sign a b).1;
}
