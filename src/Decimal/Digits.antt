-- ===== src/Decimal/Digits.antt =====
-- The loops over digits give the number that the digits stand for.
use idris2_rc.Prelude.{
  ℕ, zero, suc, ◌+◌, ◌-◌, ◌*◌, ◌^◌, ◌≤◌, ◌≡◌, refl, ◌∙◌, ap, true, false, List, [], ◌∷◌, ◌++◌,
  arith, ltb, length, All, replicate, add-zero,
}
use native.Mathlib.Nat.{pow-suc, add-suc, suc-add}
use idris2_rc.Decimal.{is_digit, starts_with_digit, digits_loop, exponent_loop}
use idris2_rc.Decimal.Library.{Calls, CallsLaws, IsDigit, num_from}

pub is_digit-IsDigit : (c : ℕ) → IsDigit c → is_digit c ≡ true
is_digit-IsDigit c h = ground arith

pub num_from-append :
    (acc : ℕ) (xs ys : List ℕ) → num_from acc (xs ++ ys) ≡ num_from (num_from acc xs) ys
num_from-append acc [] ys = refl
num_from-append acc (x ∷ xs) ys = num_from-append (acc * 10 + (x - b'0')) xs ys

pub num_from-zeros : (acc m : ℕ) → num_from acc (replicate m b'0') ≡ acc * 10 ^ m
num_from-zeros acc zero = omega arith
num_from-zeros acc (suc m) =
    let ih = num_from-zeros (acc * 10 + 0) m in ih ∙ rw (pow-suc 10 m) (grind arith)

pub num_from-ge : (acc : ℕ) (ds : List ℕ) → acc ≤ num_from acc ds
num_from-ge acc [] = omega arith
num_from-ge acc (c ∷ ds) = omega (arith, num_from-ge (acc * 10 + (c - b'0')) ds)

-- The digits are followed by something else.
abbrev pub Stops : List ℕ → Type 0
Stops p = starts_with_digit p ≡ false

pub exponent_loop-number :
    (ds rest : List ℕ) (ev : ℕ)
    → All IsDigit ds
    → Stops rest
    → num_from ev ds ≤ 1_000_000_000
    → exponent_loop (ds ++ rest) ev ≡ (rest, num_from ev ds)
unfolding exponent_loop
exponent_loop-number [] [] ev all stops le = refl
exponent_loop-number [] (c ∷ rest) ev all stops le = rw stops
exponent_loop-number (c ∷ ds) rest ev (d, all) stops le =
    let next = ev * 10 + (c - b'0') in
    let small : ltb 1_000_000_000 next ≡ false = let ge = num_from-ge next ds in ground arith in
    rw (is_digit-IsDigit c d, small) (exponent_loop-number ds rest next all stops le)

module _ (g : Calls) (laws : CallsLaws g) where
  open laws use {value}

  pub digits_loop-number :
      (ds rest : List ℕ) (sig : g.Mpz) (n : ℕ)
      → All IsDigit ds
      → Stops rest
      → (sig' : g.Mpz) × (digits_loop g (ds ++ rest) sig n ≡ (rest, sig', n + length ds))
        × (value sig' ≡ num_from (value sig) ds)
  unfolding digits_loop
  digits_loop-number [] [] sig n all stops = (sig, rw add-zero, refl)
  digits_loop-number [] (c ∷ rest) sig n all stops = (sig, rw (stops, add-zero), refl)
  digits_loop-number (c ∷ ds) rest sig n (d, all) stops =
      let next = g.mpz_add_ui (g.mpz_mul_ui sig 10) (c - b'0') in
      let (sig', e, v) = digits_loop-number ds rest next (suc n) all stops in
      let step : value next ≡ value sig * 10 + (c - b'0') = omega (
        arith,
        laws.value-mul_ui sig 10,
        laws.value-add_ui (g.mpz_mul_ui sig 10) (c - b'0') (omega arith),
      ) in
      (sig', rw (is_digit-IsDigit c d, e, add-suc, suc-add), v ∙ ap (λ (t : ℕ). num_from t ds) step)
