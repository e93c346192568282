-- ===== src/FixedInt/Shift.antt =====
-- The shifts against unbounded integers.
use idris2_rc.Prelude.{
  ℕ, zero, suc, ◌+◌, ◌-◌, ◌*◌, ◌/◌, ◌%◌, ◌^◌, ◌≤◌, ◌≡◌, refl, sym, ap, ◌∙◌, inl, inr, leb, arith,
  if◌then◌else◌, Bool-cases, ◌&&◌,
}
use native.Mathlib.Nat.{pow-suc, pow-le-pow_right, div-eq_of_lt}
use idris2_rc.Prelude.Int.{ℤ, pos, negsuc, ◌*ℤ◌}
use idris2_rc.Division.{to_bits, of_bits, wrap, is_negative}
use idris2_rc.FixedInt.{
  IntType, int_8, int_16, int_32, int_64, bits_8, bits_16, bits_32, bits_64, width, is_signed, cast,
  mul_u64, shl, shr, shift_down,
}
use idris2_rc.FixedInt.Wrap.{
  cast-to_bits, mul_u64-bits, factor, Fits, cast-Fits, shift_down-Fits, Fits-pos-lt, Fits-negsuc,
}

pow_add : (a b : ℕ) → 2 ^ (a + b) ≡ 2 ^ a * 2 ^ b
pow_add zero b = ap (λ (n : ℕ). 2 ^ n) {y = b} (omega arith) ∙ omega arith
pow_add (suc a) b =
    ap (λ (n : ℕ). 2 ^ n) {y = suc (a + b)} (omega arith)
    ∙ omega (arith, pow-suc 2 (a + b), pow_add a b, ap (λ (n : ℕ). n * 2 ^ b) (pow-suc 2 a))

le_split : (a b : ℕ) → a ≤ b → b ≡ a + (b - a)
le_split a b h = omega arith

shifted :
    (t : IntType) (x : ℤ) (c : ℕ)
    → cast t (pos (to_bits 64 x * 2 ^ c % 2 ^ 64)) ≡ cast t (x *ℤ pos (2 ^ c))
unfolding mul_u64 to_bits
shifted t x c =
    let swap : to_bits 64 x * 2 ^ c % 2 ^ 64 ≡ to_bits 64 x * (2 ^ c % 2 ^ 64) % 2 ^ 64 =
      omega (arith, factor (2 ^ c) (to_bits 64 x)) in
    ap (λ (n : ℕ). cast t (pos n)) swap
    ∙ (ap (cast t) (mul_u64-bits x (pos (2 ^ c))) ∙ cast-to_bits t (x *ℤ pos (2 ^ c)))

-- Nothing is left of a number that is shifted by its whole width.
gone : (t : IntType) (u k : ℕ) → cast t (pos (u * (2 ^ width t * k) % 2 ^ 64)) ≡ pos 0
unfolding cast wrap to_bits of_bits
gone int_8 u k =
    let none : u * (2 ^ 8 * k) % 2 ^ 64 % 2 ^ 8 ≡ 0 = omega arith in ap (of_bits 8) none
gone bits_8 u k = let none : u * (2 ^ 8 * k) % 2 ^ 64 % 2 ^ 8 ≡ 0 = omega arith in ap pos none
gone int_16 u k =
    let none : u * (2 ^ 16 * k) % 2 ^ 64 % 2 ^ 16 ≡ 0 = omega arith in ap (of_bits 16) none
gone bits_16 u k = let none : u * (2 ^ 16 * k) % 2 ^ 64 % 2 ^ 16 ≡ 0 = omega arith in ap pos none
gone int_32 u k =
    let none : u * (2 ^ 32 * k) % 2 ^ 64 % 2 ^ 32 ≡ 0 = omega arith in ap (of_bits 32) none
gone bits_32 u k = let none : u * (2 ^ 32 * k) % 2 ^ 64 % 2 ^ 32 ≡ 0 = omega arith in ap pos none
gone int_64 u k =
    let none : u * (2 ^ 64 * k) % 2 ^ 64 % 2 ^ 64 ≡ 0 = omega arith in ap (of_bits 64) none
gone bits_64 u k = let none : u * (2 ^ 64 * k) % 2 ^ 64 % 2 ^ 64 ≡ 0 = omega arith in ap pos none

pub shl_lem : (t : IntType) (x : ℤ) (c : ℕ) → shl t x c ≡ cast t (x *ℤ pos (2 ^ c))
unfolding shl
shl_lem t x c = elim (Bool-cases (leb (width t) c)) [
  | inl all ↦
      let split : 2 ^ c ≡ 2 ^ width t * 2 ^ (c - width t) =
        ap (λ (n : ℕ). 2 ^ n) (le_split (width t) c (ground arith))
        ∙ pow_add (width t) (c - width t) in
      rw all (
        sym (gone t (to_bits 64 x) (2 ^ (c - width t)))
        ∙ (ap (λ (n : ℕ). cast t (pos (to_bits 64 x * n % 2 ^ 64))) (sym split) ∙ shifted t x c))
  | inr some ↦ rw some (shifted t x c)
]

shr_all :
    (t : IntType) (x : ℤ) (c : ℕ)
    → Fits t x
    → width t ≤ c
    → (if is_signed t && is_negative x then negsuc 0 else pos 0) ≡ shift_down x c
shr_all t (pos n) c h le =
    let none : n / 2 ^ c ≡ 0 =
      div-eq_of_lt (omega (arith, Fits-pos-lt t n h, pow-le-pow_right {n = 2} (omega arith) le)) in
    elim (Bool-cases (is_signed t)) [ inl s ↦ rw (s, none) refl | inr u ↦ rw (u, none) refl ]
shr_all t (negsuc n) c h le =
    let f = Fits-negsuc t n h in
    let none : n / 2 ^ c ≡ 0 =
      div-eq_of_lt (omega (arith, f.1, pow-le-pow_right {n = 2} (omega arith) le)) in
    rw (f.0, none) refl

pub shr_lem : (t : IntType) (x : ℤ) (c : ℕ) → Fits t x → shr t x c ≡ shift_down x c
unfolding shr
shr_lem t x c h = elim (Bool-cases (leb (width t) c)) [
  | inl all ↦ rw all (shr_all t x c h (ground arith))
  | inr some ↦ rw some (cast-Fits t (shift_down x c) (shift_down-Fits t x c h))
]
