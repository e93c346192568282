-- ===== src/FixedInt/Bitwise.antt =====
-- And, or and exclusive or of unbounded integers, in two's complement with its endless digits, and that
-- the operations on the low digits agree with them. `negsuc a` has the digits of `a`, each inverted.
use idris2_rc.Prelude.{
  ℕ, zero, suc, ◌+◌, ◌-◌, ◌*◌, ◌/◌, ◌%◌, ◌^◌, ◌<◌, ◌≡◌, refl, sym, ap, ◌∙◌, arith, bit_and, bit_or,
  bit_xor,
}
use Prim.Native.Nat.{min, max}
use native.Mathlib.Nat.{pow-suc, mod-lt}
use idris2_rc.Prelude.Bits.{and_step, or_step, xor_step, mod_double, and_le, power_pos}
use idris2_rc.Prelude.Int.{ℤ, pos, negsuc}
use idris2_rc.Division.{to_bits}

abbrev pub and_ℤ : ℤ → ℤ → ℤ
and_ℤ (pos a) (pos b) = pos (bit_and a b)
and_ℤ (pos a) (negsuc b) = pos (a - bit_and a b)
and_ℤ (negsuc a) (pos b) = pos (b - bit_and a b)
and_ℤ (negsuc a) (negsuc b) = negsuc (bit_or a b)

abbrev pub or_ℤ : ℤ → ℤ → ℤ
or_ℤ (pos a) (pos b) = pos (bit_or a b)
or_ℤ (pos a) (negsuc b) = negsuc (b - bit_and a b)
or_ℤ (negsuc a) (pos b) = negsuc (a - bit_and a b)
or_ℤ (negsuc a) (negsuc b) = negsuc (bit_and a b)

abbrev pub xor_ℤ : ℤ → ℤ → ℤ
xor_ℤ (pos a) (pos b) = pos (bit_xor a b)
xor_ℤ (pos a) (negsuc b) = negsuc (bit_xor a b)
xor_ℤ (negsuc a) (pos b) = negsuc (bit_xor a b)
xor_ℤ (negsuc a) (negsuc b) = pos (bit_xor a b)

-- The lowest digit, and the number of the other digits.
abbrev low_digit : ℤ → ℕ
low_digit (pos n) = n % 2
low_digit (negsuc n) = 1 - n % 2

abbrev half_ℤ : ℤ → ℤ
half_ℤ (pos n) = pos (n / 2)
half_ℤ (negsuc n) = negsuc (n / 2)

low_digit-lt : (x : ℤ) → low_digit x < 2
low_digit-lt (pos n) = omega arith
low_digit-lt (negsuc n) = omega arith

to_bits-suc : (n : ℕ) (x : ℤ) → to_bits (suc n) x ≡ to_bits n (half_ℤ x) * 2 + low_digit x
unfolding to_bits
to_bits-suc n (pos m) =
    let power : m % 2 ^ suc n ≡ m % (2 * 2 ^ n) =
      ap (λ (p : ℕ). m % p) (pow-suc 2 n ∙ omega arith) in
    omega (arith, power, mod_double m (2 ^ n))
to_bits-suc n (negsuc m) =
    let power : m % 2 ^ suc n ≡ m % (2 * 2 ^ n) =
      ap (λ (p : ℕ). m % p) (pow-suc 2 n ∙ omega arith) in
    omega (arith, power, mod_double m (2 ^ n), pow-suc 2 n, mod-lt (m / 2) (power_pos n))

and_digits :
    (x y : ℤ)
    → (half_ℤ (and_ℤ x y) ≡ and_ℤ (half_ℤ x) (half_ℤ y))
      × (low_digit (and_ℤ x y) ≡ min (low_digit x) (low_digit y))
and_digits (pos a) (pos b) = let e = and_step a b in (ap pos (omega arith), omega arith)
and_digits (pos a) (negsuc b) =
    let e = and_step a b in let le = and_le (a / 2) (b / 2) in (ap pos (omega arith), omega arith)
and_digits (negsuc a) (pos b) =
    let e = and_step a b in let le = and_le (a / 2) (b / 2) in (ap pos (omega arith), omega arith)
and_digits (negsuc a) (negsuc b) = let e = or_step a b in (ap negsuc (omega arith), omega arith)

or_digits :
    (x y : ℤ)
    → (half_ℤ (or_ℤ x y) ≡ or_ℤ (half_ℤ x) (half_ℤ y))
      × (low_digit (or_ℤ x y) ≡ max (low_digit x) (low_digit y))
or_digits (pos a) (pos b) = let e = or_step a b in (ap pos (omega arith), omega arith)
or_digits (pos a) (negsuc b) =
    let e = and_step a b in
    let le = and_le (a / 2) (b / 2) in (ap negsuc (omega arith), omega arith)
or_digits (negsuc a) (pos b) =
    let e = and_step a b in
    let le = and_le (a / 2) (b / 2) in (ap negsuc (omega arith), omega arith)
or_digits (negsuc a) (negsuc b) = let e = and_step a b in (ap negsuc (omega arith), omega arith)

xor_digits :
    (x y : ℤ)
    → (half_ℤ (xor_ℤ x y) ≡ xor_ℤ (half_ℤ x) (half_ℤ y))
      × (low_digit (xor_ℤ x y) ≡ (low_digit x + low_digit y) % 2)
xor_digits (pos a) (pos b) = let e = xor_step a b in (ap pos (omega arith), omega arith)
xor_digits (pos a) (negsuc b) = let e = xor_step a b in (ap negsuc (omega arith), omega arith)
xor_digits (negsuc a) (pos b) = let e = xor_step a b in (ap negsuc (omega arith), omega arith)
xor_digits (negsuc a) (negsuc b) = let e = xor_step a b in (ap pos (omega arith), omega arith)

-- An operation on integers and one on natural numbers that do the same to the lowest digits agree on
-- the `n` low digits.
module _ (op_ℤ : ℤ → ℤ → ℤ) (op digit : ℕ → ℕ → ℕ) (none_left : op 0 0 ≡ 0)
    (digits : (x y : ℤ)
      → (half_ℤ (op_ℤ x y) ≡ op_ℤ (half_ℤ x) (half_ℤ y))
        × (low_digit (op_ℤ x y) ≡ digit (low_digit x) (low_digit y)))
    (step : (a b : ℕ) → op a b ≡ op (a / 2) (b / 2) * 2 + digit (a % 2) (b % 2)) where
  to_bits-zero : (x : ℤ) → to_bits 0 x ≡ 0
  unfolding to_bits
  to_bits-zero (pos n) = omega arith
  to_bits-zero (negsuc n) = omega arith

  joined : (a b l k : ℕ) → l < 2 → k < 2 → op (a * 2 + l) (b * 2 + k) ≡ op a b * 2 + digit l k
  joined a b l k hl hk =
      let ha : (a * 2 + l) / 2 ≡ a = omega arith in
      let hb : (b * 2 + k) / 2 ≡ b = omega arith in
      let ra : (a * 2 + l) % 2 ≡ l = omega arith in
      let rb : (b * 2 + k) % 2 ≡ k = omega arith in
      rw (ha, hb, ra, rb) at (step (a * 2 + l) (b * 2 + k))

  to_bits-op : (n : ℕ) (x y : ℤ) → to_bits n (op_ℤ x y) ≡ op (to_bits n x) (to_bits n y)
  to_bits-op zero x y = rw (to_bits-zero (op_ℤ x y), to_bits-zero x, to_bits-zero y, none_left)
  to_bits-op (suc n) x y =
      let (rest, low) = digits x y in
      rw
        (
          to_bits-suc n (op_ℤ x y),
          rest,
          low,
          to_bits-op n (half_ℤ x) (half_ℤ y),
          to_bits-suc n x,
          to_bits-suc n y,
        )
        (sym (
          joined (to_bits n (half_ℤ x)) (to_bits n (half_ℤ y)) (low_digit x) (low_digit y)
            (low_digit-lt x) (low_digit-lt y)))

pub to_bits-and : (n : ℕ) (x y : ℤ) → to_bits n (and_ℤ x y) ≡ bit_and (to_bits n x) (to_bits n y)
to_bits-and = to_bits-op and_ℤ bit_and min (omega (arith, and_le 0 0)) and_digits and_step

pub to_bits-or : (n : ℕ) (x y : ℤ) → to_bits n (or_ℤ x y) ≡ bit_or (to_bits n x) (to_bits n y)
to_bits-or = to_bits-op or_ℤ bit_or max refl or_digits or_step

pub to_bits-xor : (n : ℕ) (x y : ℤ) → to_bits n (xor_ℤ x y) ≡ bit_xor (to_bits n x) (to_bits n y)
to_bits-xor = to_bits-op xor_ℤ bit_xor (λ a b. (a + b) % 2) refl xor_digits xor_step
