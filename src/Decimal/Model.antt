-- ===== src/Decimal/Model.antt =====
-- Natural numbers in place of GMP's, and a decimal printer.
use idris2_rc.Prelude.{
  ℕ, zero, suc, ◌+◌, ◌*◌, ◌/◌, ◌%◌, ◌<◌, ◌≤◌, refl, ◌∙◌, ap, List, [], ◌∷◌, ◌++◌, arith, ltb,
  if◌then◌else◌, length-append, All-append, Bool-cases, inl, inr,
}
use idris2_rc.Prelude.Int.{ℤ, pos, negsuc}
use idris2_rc.Decimal.Library.{Calls, CallsLaws, IsDigit, IsDecimal, num_from}
use idris2_rc.Decimal.Digits.{num_from-append}

unfoldable pub decimal : (fuel n : ℕ) → List ℕ
decimal zero n = []
decimal (suc fuel) n =
    let front = decimal fuel (n / 10) in
    if ltb n 10 then (b'0' + n) ∷ [] else front ++ ((b'0' + n % 10) ∷ [])

pub decimal-IsDecimal : (fuel n : ℕ) → n < fuel → IsDecimal (decimal fuel n) n
unfolding decimal
decimal-IsDecimal zero n h = absurd (omega arith)
decimal-IsDecimal (suc fuel) n h = elim (Bool-cases (ltb n 10)) [
  | inl small ↦
      rw small
        (record { digits = (ground arith, tt); some_digit = omega arith; number = omega arith })
  | inr more ↦
      let big : 10 ≤ n = ground arith in
      let ih = decimal-IsDecimal fuel (n / 10) (omega arith) in
      let last : List ℕ = (b'0' + n % 10) ∷ [] in
      rw more (record {
        digits = All-append IsDigit (decimal fuel (n / 10)) last ih.digits (omega arith, tt);
        some_digit = omega (arith, length-append (decimal fuel (n / 10)) last);
        number =
            num_from-append 0 (decimal fuel (n / 10)) last
            ∙ ap (λ (t : ℕ). num_from t last) ih.number
            ∙ omega arith;
      })
]

abbrev pub print_long : ℤ → List ℕ
print_long (pos n) = decimal (suc n) n
print_long (negsuc n) = b'-' ∷ decimal (suc (suc n)) (suc n)

abbrev pub plain : Calls
plain = record {
  Mpz = ℕ;
  mpz_set_ui = λ n. n;
  mpz_mul_ui = λ a n. a * n;
  mpz_add_ui = λ a n. a + n;
  print_long = print_long;
}

unfoldable pub plain_laws : CallsLaws plain
plain_laws = record {
  value = λ a. a;
  value-set_ui = λ n h. refl;
  value-mul_ui = λ a n h. refl;
  value-add_ui = λ a n h. refl;
  print_pos = λ n h. decimal-IsDecimal (suc n) n (omega arith);
  print_negsuc = λ n h.
      (decimal (suc (suc n)) (suc n), refl, decimal-IsDecimal (suc (suc n)) (suc n) (omega arith));
}
