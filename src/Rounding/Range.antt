-- ===== src/Rounding/Range.antt =====
-- The exponent of the quotient fits the `int` of `ldexp`, for a fraction that is not extreme.
use idris2_rc.Prelude.{
  ℕ, suc, ◌+◌, ◌*◌, ◌^◌, ◌<◌, ◌≤◌, ◌≡◌, arith, dec_lt, ltb, true, false, inl, inr, ◌-◌, ◌%◌, ◌⊎◌,
  refl,
}
use native.Mathlib.Nat.{
  pow-le-pow_right, mul-le-mul_right, mul-lt-mul_of_pos_right, suc-mul, mul_comm,
}
use idris2_rc.Prelude.Int.{ℤ, pos, negsuc, ◌-ℤ◌, pos_part, neg_part, -ℤ_parts}
use idris2_rc.Division.{wrap, to_bits, of_bits}
use idris2_rc.Rounding.Nearest.{IsNearest, pow-add, power_pos}

order_four : (a x y z : ℕ) → a * x * (y * z) ≡ y * x * z * a
order_four a x y z = grind arith

order_three : (b y z : ℕ) → y * (b * z) ≡ b * (y * z)
order_three b y z = grind arith

-- A power of two on one side is bounded by those on the other.
power_bound : (a b c k p m : ℕ) → a * 2 ^ p ≤ 2 ^ c * (b * 2 ^ m) → b < a * 2 ^ k → p < c + k + m
power_bound a b c k p m le lt = elim (dec_lt p (c + k + m)) [
  | yes less ↦ less
  | no ge ↦
      let whole : 2 ^ (c + k + m) ≤ 2 ^ p = pow-le-pow_right {n = 2} (omega arith) (omega arith) in
      let power : 2 ^ (c + k + m) ≡ 2 ^ c * 2 ^ k * 2 ^ m =
        rw (pow-add (c + k) m, pow-add c k) refl in
      let most : 2 ^ c * 2 ^ k * 2 ^ m * a ≤ 2 ^ p * a = mul-le-mul_right a (rw (← power) whole) in
      let positive : 0 < 2 ^ c * 2 ^ m = rw (← pow-add c m) (power_pos (c + m)) in
      let more : b * (2 ^ c * 2 ^ m) < a * 2 ^ k * (2 ^ c * 2 ^ m) =
        mul-lt-mul_of_pos_right lt positive in
      absurd (
        omega (
          arith,
          mul_comm a (2 ^ p),
          order_four a (2 ^ k) (2 ^ c) (2 ^ m),
          order_three b (2 ^ c) (2 ^ m),
        ))
]

-- An integer in the range of `int` is kept by the conversion to it.
wrap-small : (z : ℤ) → pos_part z < 2 ^ 31 → neg_part z ≤ 2 ^ 31 → wrap 32 z ≡ z
unfolding wrap to_bits of_bits
wrap-small (pos n) p m =
    let low : n % 2 ^ 32 ≡ n = omega arith in
    let sign : ltb n (2 ^ 31) ≡ true = ground arith in rw (low, sign)
wrap-small (negsuc n) p m =
    let low : n % 2 ^ 32 ≡ n = omega arith in
    let sign : ltb (2 ^ 32 - 1 - n) (2 ^ 31) ≡ false = ground arith in
    let back : 2 ^ 32 - 1 - (2 ^ 32 - 1 - n) ≡ n = omega arith in rw (low, sign, back)

-- A quotient of 53 bits next to `n * 2 ^ s / d`, where neither number is `2 ^ k` times the other.
module _ (n d k q : ℕ) (s : ℤ) (few : k ≤ 2 ^ 30) (below : n < d * 2 ^ k) (above : d < n * 2 ^ k)
    (first_bit : 2 ^ 52 ≤ q) (fits : q < 2 ^ 53)
    (near : IsNearest q (n * 2 ^ pos_part s) (d * 2 ^ neg_part s)) where
  up : pos_part s < 53 + k + neg_part s
  up =
      let most : suc q * (d * 2 ^ neg_part s) ≤ 2 ^ 53 * (d * 2 ^ neg_part s) =
        mul-le-mul_right (d * 2 ^ neg_part s) fits in
      power_bound n d 53 k (pos_part s) (neg_part s)
        (omega (arith, near.upper, most, suc-mul q (d * 2 ^ neg_part s))) above

  down : neg_part s < 0 + k + pos_part s
  down =
      let least = mul-le-mul_right (d * 2 ^ neg_part s) first_bit in
      power_bound d n 0 k (neg_part s) (pos_part s) (omega (arith, near.lower, least)) below

  -- So `(int)(-s)` is `-s`.
  pub wrap-exponent : wrap 32 (pos 0 -ℤ s) ≡ pos 0 -ℤ s
  wrap-exponent = wrap-small (pos 0 -ℤ s) (omega (arith, bounds.0)) (omega (arith, bounds.1))
    where
      one_part : (z : ℤ) → (pos_part z ≡ 0) ⊎ (neg_part z ≡ 0)
      one_part (pos z) = inr refl
      one_part (negsuc z) = inl refl

      bounds : (pos_part (pos 0 -ℤ s) < 2 ^ 31) × (neg_part (pos 0 -ℤ s) < 2 ^ 31)
      bounds =
          let parts = -ℤ_parts (pos 0) s in
          let a = one_part s in let b = one_part (pos 0 -ℤ s) in omega (arith, up, down)
