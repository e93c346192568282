-- ===== src/DoubleConvert/Words.antt =====
-- What the steps on 64-bit words compute.
use idris2_rc.Prelude.{
  ℕ, zero, suc, ◌+◌, ◌-◌, ◌*◌, ◌/◌, ◌%◌, ◌^◌, ◌<◌, ◌≤◌, ◌≡◌, inl, inr, arith, u64, bit_or, ◌==◌,
  Bool-cases, ltb, ==_iff,
}
use native.Mathlib.Nat.{pow-suc, mul-le-mul_right, mul_comm}
use idris2_rc.Prelude.Bits.{or_shifted}
use idris2_rc.DoubleConvert.{mulhi128, clz_loop, clzll, Product, normalize_product}

pub product_le : (a b x y : ℕ) → a ≤ x → b ≤ y → a * b ≤ x * y
product_le a b x y h k =
    let first : a * b ≤ x * b = mul-le-mul_right b h in
    let second : b * x ≤ y * x = mul-le-mul_right x k in
    omega (arith, first, second, mul_comm x b, mul_comm x y)

-- The 128 bits, before they are split.
abbrev pub upper_product : (a b_hi b_lo : ℕ) → ℕ
upper_product a b_hi b_lo = a * b_hi + a * b_lo / 2 ^ 64

spread : (a h l : ℕ) → a * (h * 2 ^ 64 + l) ≡ a * h * 2 ^ 64 + a * l
spread a h l = grind arith

pub upper_product-floor :
    (a h l : ℕ)
    → (upper_product a h l * 2 ^ 64 ≤ a * (h * 2 ^ 64 + l))
      × (a * (h * 2 ^ 64 + l) < (upper_product a h l + 1) * 2 ^ 64)
upper_product-floor a h l = rw (spread a h l) (omega arith)

-- No bit is lost above.
pub mulhi128_lem :
    (a h l : ℕ)
    → a < 2 ^ 64
    → h < 2 ^ 64
    → l < 2 ^ 64
    → (upper_product a h l < 2 ^ 128)
      × (mulhi128 a h l ≡ (upper_product a h l / 2 ^ 64, upper_product a h l % 2 ^ 64))
unfolding mulhi128
mulhi128_lem a h l pa ph pl =
    let high : a * h ≤ (2 ^ 64 - 1) * (2 ^ 64 - 1) =
      product_le a h (2 ^ 64 - 1) (2 ^ 64 - 1) (omega arith) (omega arith) in
    let low : a * l ≤ (2 ^ 64 - 1) * (2 ^ 64 - 1) =
      product_le a l (2 ^ 64 - 1) (2 ^ 64 - 1) (omega arith) (omega arith) in
    let fits : u64 (a * l / 2 ^ 64) ≡ a * l / 2 ^ 64 = omega arith in
    let whole : upper_product a h l % 2 ^ 128 ≡ upper_product a h l = omega arith in
    (omega arith, rw (fits, whole))

double_shift : (w c : ℕ) → w * 2 ^ suc c ≡ 2 * w * 2 ^ c
double_shift w c = rw (pow-suc 2 c) (grind arith)

clz_loop_lem :
    (fuel w : ℕ)
    → w < 2 ^ 64
    → 2 ^ 63 ≤ w * 2 ^ fuel
    → (2 ^ 63 ≤ w * 2 ^ clz_loop fuel w)
      × (w * 2 ^ clz_loop fuel w < 2 ^ 64)
      × (clz_loop fuel w ≤ fuel)
unfolding clz_loop
clz_loop_lem zero w small big = (omega arith, omega arith, omega arith)
clz_loop_lem (suc fuel) w small big = elim (Bool-cases (ltb w (2 ^ 63))) [
  | inl low ↦
      let ih = clz_loop_lem fuel (2 * w) (ground arith) (rw (double_shift w fuel) at big) in
      rw (low, double_shift w (clz_loop fuel (2 * w))) (omega (arith, ih))
  | inr high ↦ rw high (ground arith)
]

-- The first bit that is set becomes the top bit.
pub clzll_lem :
    (w : ℕ)
    → 0 < w
    → w < 2 ^ 64
    → (2 ^ 63 ≤ w * 2 ^ clzll w) × (w * 2 ^ clzll w < 2 ^ 64) × (clzll w ≤ 63)
unfolding clzll
clzll_lem w p h = clz_loop_lem 63 w h (omega arith)

-- The top bit is set, and the 128 bits are shifted by `extra`.
pub record IsNormal (p : ℕ) (x : Product) : Type 0 where
  pub value : x.hi * 2 ^ 64 + x.lo ≡ p * 2 ^ x.extra
  pub top_set : 2 ^ 63 ≤ x.hi
  pub hi_fits : x.hi < 2 ^ 64
  pub lo_fits : x.lo < 2 ^ 64
  pub one_shift : x.extra ≤ 1

pub normalize_product-IsNormal :
    (p : ℕ) → 2 ^ 126 ≤ p → p < 2 ^ 128 → IsNormal p (normalize_product (p / 2 ^ 64, p % 2 ^ 64))
unfolding normalize_product
normalize_product-IsNormal p lo hi = elim (Bool-cases (p / 2 ^ 64 / 2 ^ 63 == 0)) [
  | inl low ↦
      let small : p / 2 ^ 64 / 2 ^ 63 ≡ 0 = (==_iff _ 0).0 low in
      let wraps : u64 (p / 2 ^ 64 * 2) ≡ p / 2 ^ 64 * 2 ^ 1 = omega arith in
      let joined : bit_or (u64 (p / 2 ^ 64 * 2)) (p % 2 ^ 64 / 2 ^ 63)
          ≡ p / 2 ^ 64 * 2 + p % 2 ^ 64 / 2 ^ 63 =
        rw wraps (or_shifted 1 (p / 2 ^ 64) (p % 2 ^ 64 / 2 ^ 63) (omega arith)) in
      rw (low, joined)
        (record {
          value = omega arith;
          top_set = omega arith;
          hi_fits = omega arith;
          lo_fits = omega arith;
          one_shift = omega arith;
        })
  | inr high ↦ rw high (record {
    value = omega arith;
    top_set = ground arith;
    hi_fits = omega arith;
    lo_fits = omega arith;
    one_shift = omega arith;
  })
]
