-- ===== src/DoubleConvert/Exponent.antt =====
-- The exponent that the fast reader takes is the one that the exact reader takes.
use idris2_rc.Prelude.{
  ℕ, ◌+◌, ◌-◌, ◌*◌, ◌≡◌, inl, inr, ◌∙◌, ap, ap₂, Bool, true, false, arith, ◌||◌, Option, some, List,
  [], ◌∷◌, ◌==◌, if◌then◌else◌, eq_of_some, bind_some, ltb, Bool-cases,
}
use idris2_rc.Prelude.Int.{ℤ, pos, ◌+ℤ◌, ◌-ℤ◌, int_laws}
use idris2_rc.Decimal.{is_digit, starts_with_digit, sign, exponent_loop, scan_exponent}
use idris2_rc.DoubleConvert.{fast_exponent_loop, fast_exponent}

plus_zero : (a : ℤ) → a +ℤ pos 0 ≡ a
plus_zero a = omega int_laws

minus_zero : (a : ℤ) (v : ℕ) → a -ℤ pos v ≡ a +ℤ (pos 0 -ℤ pos v)
minus_zero a v = omega int_laws

fast_exponent_loop-exact :
    (p rest : List ℕ) (ev v : ℕ)
    → fast_exponent_loop p ev ≡ some (rest, v)
    → exponent_loop p ev ≡ (rest, v)
unfolding fast_exponent_loop exponent_loop
fast_exponent_loop-exact [] rest ev v e = eq_of_some e
fast_exponent_loop-exact (c ∷ p) rest ev v e = elim (Bool-cases (is_digit c)) [
  | inl digit ↦ elim (Bool-cases (ltb 100_000 (ev * 10 + (c - b'0')))) [
    | inl large ↦ absurd (ground arith)
    | inr small ↦
        let low : ltb 1_000_000_000 (ev * 10 + (c - b'0')) ≡ false = ground arith in
        rw (digit, low)
          (fast_exponent_loop-exact p rest (ev * 10 + (c - b'0')) v (rw (digit, small) at e))
  ]
  | inr other ↦ rw other (eq_of_some (rw other at e))
]

exponent_pair :
    (minus : Bool) (rest' rest : List ℕ) (v : ℕ) (de exp10 : ℤ)
    → ◌≡◌ {A = Option (List ℕ × ℤ)}
        (some (rest', if minus then pos 0 -ℤ pos v else pos v))
        (some (rest, exp10))
    → ◌≡◌ {A = List ℕ × ℤ} (rest', if minus then de -ℤ pos v else de +ℤ pos v) (rest, de +ℤ exp10)
exponent_pair true rest' rest v de exp10 e =
    let pair = eq_of_some e in
    let same : de -ℤ pos v ≡ de +ℤ exp10 =
      minus_zero de v ∙ ap (λ (z : ℤ). de +ℤ z) (ap (λ (t : List ℕ × ℤ). t.1) pair) in
    ap₂ (λ (r : List ℕ) (z : ℤ). (r, z)) (ap (λ (t : List ℕ × ℤ). t.0) pair) same
exponent_pair false rest' rest v de exp10 e =
    let pair = eq_of_some e in ap (λ (t : List ℕ × ℤ). (t.0, de +ℤ t.1)) pair

pub fast_exponent-exact :
    (p rest : List ℕ) (exp10 de : ℤ)
    → fast_exponent p ≡ some (rest, exp10)
    → scan_exponent p de ≡ (rest, de +ℤ exp10)
unfolding fast_exponent scan_exponent
fast_exponent-exact [] rest exp10 de e =
    (rw (plus_zero de) at (exponent_pair false [] rest 0 de exp10 e))
fast_exponent-exact (c ∷ p) rest exp10 de e = elim (Bool-cases (c == b'e' || c == b'E')) [
  | inl is_e ↦ elim (Bool-cases (starts_with_digit (sign p).1)) [
    | inl digit ↦
        let ((rest', v), loop, read) = bind_some _ _ (rw (is_e, digit) at e) in
        let exact = fast_exponent_loop-exact (sign p).1 rest' 0 v loop in
        rw (is_e, digit, exact) (exponent_pair (sign p).0 rest' rest v de exp10 read)
    | inr other ↦ absurd (ground (arith, (rw (is_e, other) at e)))
  ]
  | inr other ↦
      rw other (rw (plus_zero de) at (exponent_pair false (c ∷ p) rest 0 de exp10 (rw other at e)))
]
