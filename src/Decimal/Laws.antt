-- ===== src/Decimal/Laws.antt =====
-- What the reader makes of a mantissa with or without a point, and of an exponent.
use idris2_rc.Prelude.{
  ℕ, suc, ◌+◌, ◌<◌, ◌≤◌, ◌≡◌, refl, sym, ◌∙◌, ap, Bool, true, false, List, [], ◌∷◌, ◌++◌, arith,
  ◌==◌, if◌then◌else◌, length, All, zero-add,
}
use mathlib.Core.List.{append-nil}
use idris2_rc.Prelude.Int.{ℤ, pos, negsuc, ◌+ℤ◌, ◌-ℤ◌, nat_abs, int_laws}
use idris2_rc.Decimal.{
  is_digit, starts_with_digit, digits_loop, fraction, sign, exponent_loop, scan_exponent,
  scan_decimal,
}
use idris2_rc.Decimal.Library.{Calls, CallsLaws, IsDigit, IsDecimal, num_from}
use idris2_rc.Decimal.Digits.{
  is_digit-IsDigit, num_from-append, Stops, exponent_loop-number, digits_loop-number,
}

minus_negsuc : (de : ℤ) (n : ℕ) → de -ℤ pos (suc n) ≡ de +ℤ negsuc n
minus_negsuc de n = omega int_laws

module _ (g : Calls) (laws : CallsLaws g) where
  open laws use {value}

  scan_parts :
      (p p1 p2 : List ℕ) (s1 s2 : g.Mpz) (n1 n2 : ℕ)
      → digits_loop g p (g.mpz_set_ui 0) 0 ≡ (p1, s1, n1)
      → fraction g p1 s1 ≡ (p2, s2, n2)
      → (n1 + n2 == 0) ≡ false
      → scan_decimal g p ≡ record {
        rest = (scan_exponent p2 (pos 0 -ℤ pos n2)).0;
        sig = s2;
        dexp = (scan_exponent p2 (pos 0 -ℤ pos n2)).1;
      }
  unfolding scan_decimal
  scan_parts p p1 p2 s1 s2 n1 n2 e1 e2 more = rw (e1, e2, more)

  zero_value : value (g.mpz_set_ui 0) ≡ 0
  zero_value = laws.value-set_ui 0 (omega arith)

  -- Digits, a point, digits, and what follows.
  pub with_point :
      (xs ys tail : List ℕ)
      → All IsDigit xs
      → All IsDigit ys
      → 0 < length xs
      → Stops tail
      → (s : g.Mpz) × (scan_decimal g (xs ++ (b'.' ∷ (ys ++ tail))) ≡ record {
        rest = (scan_exponent tail (pos 0 -ℤ pos (length ys))).0;
        sig = s;
        dexp = (scan_exponent tail (pos 0 -ℤ pos (length ys))).1;
      })
        × (value s ≡ num_from 0 (xs ++ ys))
  unfolding fraction
  with_point xs ys tail ax ay some_digit stops =
      let (s1, e1, v1) =
        digits_loop-number g laws xs (b'.' ∷ (ys ++ tail)) (g.mpz_set_ui 0) 0 ax refl in
      let (s2, e2, v2) = digits_loop-number g laws ys tail s1 0 ay stops in
      (
        s2,
        scan_parts (xs ++ (b'.' ∷ (ys ++ tail))) (b'.' ∷ (ys ++ tail)) tail s1 s2 (length xs)
            (length ys) (rw zero-add at e1) (rw zero-add at e2) (ground arith),
        v2
            ∙ ap (λ (t : ℕ). num_from t ys) (v1 ∙ ap (λ (t : ℕ). num_from t xs) zero_value)
            ∙ sym (num_from-append 0 xs ys),
      )

  -- Digits and what follows, which is no point.
  pub without_point :
      (xs tail : List ℕ) (c : ℕ)
      → All IsDigit xs
      → 0 < length xs
      → is_digit c ≡ false
      → (c == b'.') ≡ false
      → (s : g.Mpz) × (scan_decimal g (xs ++ (c ∷ tail)) ≡ record {
        rest = (scan_exponent (c ∷ tail) (pos 0 -ℤ pos 0)).0;
        sig = s;
        dexp = (scan_exponent (c ∷ tail) (pos 0 -ℤ pos 0)).1;
      })
        × (value s ≡ num_from 0 xs)
  unfolding fraction
  without_point xs tail c ax some_digit stops no_point =
      let (s1, e1, v1) = digits_loop-number g laws xs (c ∷ tail) (g.mpz_set_ui 0) 0 ax stops in
      (
        s1,
        scan_parts (xs ++ (c ∷ tail)) (c ∷ tail) (c ∷ tail) s1 s1 (length xs) 0 (rw zero-add at e1)
            (rw no_point) (ground arith),
        v1 ∙ ap (λ (t : ℕ). num_from t xs) zero_value,
      )

  -- What `sprintf` writes of an exponent starts with a digit or with a minus.
  digit_sign : (ds : List ℕ) → All IsDigit ds → 0 < length ds → sign ds ≡ (false, ds)
  unfolding sign
  digit_sign [] all p = absurd (omega arith)
  digit_sign (c ∷ ds) (d, all) p =
      let (m, q) : ((c == b'-') ≡ false) × ((c == b'+') ≡ false) = (ground arith, ground arith) in
      rw (m, q)

  digit_start : (ds : List ℕ) → All IsDigit ds → 0 < length ds → starts_with_digit ds ≡ true
  digit_start [] all p = absurd (omega arith)
  digit_start (c ∷ ds) (d, all) p = is_digit-IsDigit c d

  exponent_number :
      (ds : List ℕ) (n : ℕ) → IsDecimal ds n → n ≤ 1_000_000_000 → exponent_loop ds 0 ≡ ([], n)
  exponent_number ds n is le =
      let e = exponent_loop-number ds [] 0 is.digits refl (rw is.number le) in
      rw (append-nil, is.number) at e

  exponent-parts :
      (ep digits rest : List ℕ) (minus : Bool) (ev : ℕ) (de : ℤ)
      → sign ep ≡ (minus, digits)
      → exponent_loop digits 0 ≡ (rest, ev)
      → starts_with_digit digits ≡ true
      → scan_exponent (b'e' ∷ ep) de ≡ (rest, if minus then de -ℤ pos ev else de +ℤ pos ev)
  unfolding scan_exponent
  exponent-parts ep digits rest minus ev de e1 e2 start = rw (e1, e2, start)

  -- An exponent as `sprintf` writes it.
  pub exponent-read :
      (m de : ℤ)
      → nat_abs m ≤ 1_000_000_000
      → scan_exponent (b'e' ∷ g.print_long m) de ≡ ([], de +ℤ m)
  exponent-read (pos n) de le =
      let is = laws.print_pos n (omega arith) in
      exponent-parts (g.print_long (pos n)) (g.print_long (pos n)) [] false n de
        (digit_sign (g.print_long (pos n)) is.digits is.some_digit)
        (exponent_number (g.print_long (pos n)) n is le)
        (digit_start (g.print_long (pos n)) is.digits is.some_digit)
  exponent-read (negsuc n) de le =
      let (ds, e, is) = laws.print_negsuc n (omega arith) in
      exponent-parts (g.print_long (negsuc n)) ds [] true (suc n) de (rw e (unfold sign in refl))
        (exponent_number ds (suc n) is le) (digit_start ds is.digits is.some_digit)
      ∙ ap (λ (z : ℤ). let r : List ℕ × ℤ = ([], z) in r) (minus_negsuc de n)
