-- ===== src/Prelude/Bits.antt =====
-- The bit operations at variables: one equation for the lowest digit, then the shifts and masks
-- of the source as arithmetic.
use Prim.Native.Nat.{
  ℕ, zero, suc, ◌+◌, ◌-◌, ◌*◌, ◌/◌, ◌%◌, ◌^◌, ◌≤◌, ◌<◌, min, max, bit_and, bit_or, bit_xor, digits,
  bitwise, differ, bit_and-bitwise, bit_or-bitwise, bit_xor-bitwise,
}
use mathlib.Core.Path.{◌≡◌, refl, ap, ◌∙◌}
use native.Mathlib.Nat.{pow-suc, pow-le-pow_right, mod-add-div', div-div-eq-div-mul}
use native.Mathlib.Omega.{arith}

module _ (rest : ℕ → ℕ) (op : ℕ → ℕ → ℕ) where
  -- Any two counts that cover the first number give the same digits.
  digits_cover : (j k x y : ℕ) → x ≤ j → x ≤ k → digits rest op j x y ≡ digits rest op k x y
  digits_cover zero zero x y hj hk = refl
  digits_cover zero (suc k) zero y hj hk = refl
  digits_cover (suc j) zero zero y hj hk = refl
  digits_cover (suc j) (suc k) zero y hj hk = refl
  digits_cover zero k (suc x) y hj hk = absurd (omega arith)
  digits_cover (suc j) zero (suc x) y hj hk = absurd (omega arith)
  digits_cover (suc j) (suc k) (suc x) y hj hk =
      ap (λ t. t * 2 + op (suc x % 2) (y % 2))
        (digits_cover j k (suc x / 2) (y / 2) (omega arith) (omega arith))

  bitwise_step :
      (x y : ℕ)
      → bitwise rest op (suc x) y ≡ bitwise rest op (suc x / 2) (y / 2) * 2 + op (suc x % 2) (y % 2)
  bitwise_step x y =
      ap (λ t. t * 2 + op (suc x % 2) (y % 2))
        (digits_cover x (suc x / 2) (suc x / 2) (y / 2) (omega arith) (omega arith))

pub or_step : (x y : ℕ) → bit_or x y ≡ bit_or (x / 2) (y / 2) * 2 + max (x % 2) (y % 2)
or_step zero y = omega (arith, bit_or-bitwise 0 y, bit_or-bitwise 0 (y / 2))
or_step (suc x) y = omega (
  arith,
  bit_or-bitwise (suc x) y,
  bit_or-bitwise (suc x / 2) (y / 2),
  bitwise_step (λ b. b) max x y,
)

pub and_step : (x y : ℕ) → bit_and x y ≡ bit_and (x / 2) (y / 2) * 2 + min (x % 2) (y % 2)
and_step zero y = omega (arith, bit_and-bitwise 0 y, bit_and-bitwise 0 (y / 2))
and_step (suc x) y = omega (
  arith,
  bit_and-bitwise (suc x) y,
  bit_and-bitwise (suc x / 2) (y / 2),
  bitwise_step (λ b. 0) min x y,
)

differ_lem : (a b : ℕ) → a < 2 → b < 2 → differ a b ≡ (a + b) % 2
differ_lem zero zero h k = refl
differ_lem zero (suc zero) h k = refl
differ_lem (suc zero) zero h k = refl
differ_lem (suc zero) (suc zero) h k = refl
differ_lem (suc (suc a)) b h k = absurd (omega arith)
differ_lem a (suc (suc b)) h k = absurd (omega arith)

pub xor_step : (x y : ℕ) → bit_xor x y ≡ bit_xor (x / 2) (y / 2) * 2 + (x % 2 + y % 2) % 2
xor_step zero y = omega (arith, bit_xor-bitwise 0 y, bit_xor-bitwise 0 (y / 2))
xor_step (suc x) y = omega (
  arith,
  bit_xor-bitwise (suc x) y,
  bit_xor-bitwise (suc x / 2) (y / 2),
  bitwise_step (λ b. b) differ x y,
  differ_lem (suc x % 2) (y % 2) (omega arith) (omega arith),
)

-- By the bound `n` on the first number, which halves.
or_zero_below : (n x : ℕ) → x ≤ n → bit_or x 0 ≡ x
or_zero_below n zero h = bit_or-bitwise 0 0
or_zero_below zero (suc x) h = absurd (omega arith)
or_zero_below (suc n) (suc x) h =
    omega (arith, or_step (suc x) 0, or_zero_below n (suc x / 2) (omega arith))

and_zero_below : (n x : ℕ) → x ≤ n → bit_and x 0 ≡ 0
and_zero_below n zero h = bit_and-bitwise 0 0
and_zero_below zero (suc x) h = absurd (omega arith)
and_zero_below (suc n) (suc x) h =
    omega (arith, and_step (suc x) 0, and_zero_below n (suc x / 2) (omega arith))

and_le_below : (n x y : ℕ) → x ≤ n → (bit_and x y ≤ x) × (bit_and x y ≤ y)
and_le_below n zero y h = omega (arith, bit_and-bitwise 0 y)
and_le_below zero (suc x) y h = absurd (omega arith)
and_le_below (suc n) (suc x) y h =
    omega (arith, and_step (suc x) y, and_le_below n (suc x / 2) (y / 2) (omega arith))

pub and_le : (x y : ℕ) → (bit_and x y ≤ x) × (bit_and x y ≤ y)
and_le x y = and_le_below x x y (omega arith)

double_pow : (q k : ℕ) → q * 2 ^ suc k ≡ 2 * (q * 2 ^ k)
double_pow q k = omega (arith, ap (λ (t : ℕ). q * t) (pow-suc 2 k))

-- `(q << k) | r` is a sum where `r` fits in `k` bits.
pub or_shifted : (k q r : ℕ) → r < 2 ^ k → bit_or (q * 2 ^ k) r ≡ q * 2 ^ k + r
or_shifted zero q r h = ground (arith, or_zero_below q q)
or_shifted (suc k) q r h = omega (
  arith,
  or_step (q * 2 ^ suc k) r,
  double_pow q k,
  pow-suc 2 k,
  ap (λ (t : ℕ). bit_or t (r / 2)) (half_shift q k),
  or_shifted k q (r / 2) (omega (arith, pow-suc 2 k)),
)
  where
    half_shift : (q k : ℕ) → (q * 2 ^ suc k) / 2 ≡ q * 2 ^ k
    half_shift q k = omega (arith, double_pow q k)

-- `x & (2^k - 1)` is the remainder by `2^k`, for the masks of the source.
pub and_one : (x : ℕ) → bit_and x 1 ≡ x % 2
and_one x = omega (arith, and_step x 1, and_zero_below (x / 2) (x / 2))

pub and_seven : (x : ℕ) → bit_and x 7 ≡ x % 8
and_seven x = omega (arith, and_step x 7, and_step (x / 2) 3, and_one (x / 2 / 2))

pub and_63 : (x : ℕ) → bit_and x 63 ≡ x % 64
and_63 x =
    omega (
      arith,
      and_step x 63,
      and_step (x / 2) 31,
      and_step (x / 2 / 2) 15,
      and_seven (x / 2 / 2 / 2),
    )

pub power_pos : (n : ℕ) → 0 < 2 ^ n
power_pos n = pow-le-pow_right {n = 2} (omega arith) {i = 0} {j = n} (omega arith)

pub mod_double : (x p : ℕ) → x / 2 % p * 2 + x % 2 ≡ x % (2 * p)
mod_double x p =
    let halves : x / (2 * p) * (2 * p) ≡ 2 * (x / 2 / p * p) =
      rw (div-div-eq-div-mul x 2 p) (grind arith) in
    omega (arith, mod-add-div' (x / 2) p, mod-add-div' x (2 * p))

-- The mask of the `k` lowest bits.
pub and_mask : (k x : ℕ) → bit_and x (2 ^ k - 1) ≡ x % 2 ^ k
and_mask zero x = omega (arith, and_zero_below x x)
and_mask (suc k) x =
    let p = power_pos k in
    let ih = and_mask k (x / 2) in
    let power = pow-suc 2 k in
    let front : (2 ^ suc k - 1) / 2 ≡ 2 ^ k - 1 = omega arith in
    let joined : x % 2 ^ suc k ≡ x % (2 * 2 ^ k) = ap (λ (m : ℕ). x % m) (omega arith) in
    and_step x (2 ^ suc k - 1)
    ∙ rw front (omega (arith, ih, power, p, joined, mod_double x (2 ^ k)))
