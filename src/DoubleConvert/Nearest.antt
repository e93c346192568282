-- ===== src/DoubleConvert/Nearest.antt =====
-- The rounding of the 128 bits, which stand for a number up to four units.
use idris2_rc.Prelude.{
  ℕ, ◌+◌, ◌-◌, ◌*◌, ◌/◌, ◌%◌, ◌^◌, ◌<◌, ◌≤◌, ◌≡◌, ◌⊎◌, inl, inr, refl, Bool, true, false, arith,
  not, ◌&&◌, ◌||◌, some, none, bit_and, ◌==◌, if◌then◌else◌, eq_of_some, ==_iff,
}
use native.Mathlib.Nat.{mul-le-mul_right}
use idris2_rc.Prelude.Bits.{and_one}
use idris2_rc.Rounding.Nearest.{IsNearest, InReach, carry-IsNearest}
use idris2_rc.DoubleConvert.{Product, Mantissa, round_product, ambiguity_delta}

unit_product : (q d u : ℕ) → q * (d * u) ≡ q * u * d
unit_product q d u = grind arith

-- A number between two that are nearer to `q` units than half a unit.
near-IsNearest :
    (q n d lo hi u : ℕ)
    → 0 < d
    → lo * d ≤ n
    → n ≤ hi * d
    → 2 * (q * u) < 2 * lo + u
    → 2 * hi < 2 * (q * u) + u
    → IsNearest q n (d * u)
near-IsNearest q n d lo hi u p from to below above =
    let below' : 2 * (q * u) + 1 ≤ 2 * lo + u = omega arith in
    let above' : 2 * hi + 1 ≤ 2 * (q * u) + u = omega arith in
    let low : (2 * (q * u) + 1) * d ≤ (2 * lo + u) * d = mul-le-mul_right d below' in
    let high : (2 * hi + 1) * d ≤ (2 * (q * u) + u) * d = mul-le-mul_right d above' in
    let l1 : (2 * (q * u) + 1) * d ≡ 2 * (q * (d * u)) + d = grind arith in
    let l2 : (2 * lo + u) * d ≡ 2 * (lo * d) + d * u = grind arith in
    let h1 : (2 * hi + 1) * d ≡ 2 * (hi * d) + d = grind arith in
    let h2 : (2 * (q * u) + u) * d ≡ 2 * (q * (d * u)) + d * u = grind arith in
    record { upper = omega arith; lower = omega arith; even = inr (omega arith, omega arith) }

-- The mantissa before the carry.
abbrev rounded_up : Product → ℕ
rounded_up p =
    let kept54 = p.hi / 2 ^ 10 in
    let half = kept54 / 2 in
    let sticky = not (p.lo == 0) || not (bit_and p.hi 0x3FF == 0) in
    let up = bit_and kept54 1 == 1 && (sticky || bit_and half 1 == 1) in
    if up then half + 1 else half

sure : (p : Product) → 0 < p.lo → (p.lo == 0) ≡ false
sure p h = ground arith

-- The bit below the mantissa decides, as there is always something behind it.
rounded_up_lem : (p : Product) → 0 < p.lo → rounded_up p ≡ p.hi / 2 ^ 10 / 2 + p.hi / 2 ^ 10 % 2
rounded_up_lem p h = rw (sure p h, and_one (p.hi / 2 ^ 10)) (ground arith)

less : (n : ℕ) → n ≤ 2 ^ 53 → (n == 2 ^ 53) ≡ false → n < 2 ^ 53
less n h e = ground arith

-- What it means that the rounding gives a mantissa.
round_cases :
    (unsure full : Bool) (x y m : Mantissa)
    → (if unsure then none else if full then some x else some y) ≡ some m
    → (unsure ≡ false) × (((full ≡ true) × (x ≡ m)) ⊎ ((full ≡ false) × (y ≡ m)))
round_cases true full x y m e = absurd (ground arith)
round_cases false true x y m e = (refl, inl (refl, eq_of_some e))
round_cases false false x y m e = (refl, inr (refl, eq_of_some e))

module _ (p : Product) (n d : ℕ) (positive : 0 < d) (top_set : 2 ^ 63 ≤ p.hi) (fits : p.hi < 2 ^ 64)
    (from : (p.hi * 2 ^ 64 + p.lo - 2) * d ≤ n) (to : n ≤ (p.hi * 2 ^ 64 + p.lo + 4) * d) where
  rounded_up-IsNearest :
      ambiguity_delta ≤ p.lo
      → p.lo ≤ 2 ^ 64 - 1 - ambiguity_delta
      → (2 ^ 52 ≤ rounded_up p) × (rounded_up p ≤ 2 ^ 53) × IsNearest (rounded_up p) n (d * 2 ^ 75)
  rounded_up-IsNearest below above = rw (rounded_up_lem p (omega arith)) (
    omega arith,
    omega arith,
    near-IsNearest (p.hi / 2 ^ 10 / 2 + p.hi / 2 ^ 10 % 2) n d _ _ (2 ^ 75) positive from to
        (omega arith) (omega arith),
  )

  -- Where the product is far enough from a number of 64 bits, the mantissa has 53 bits and is next
  -- to the number that the product stands for. No double of the next smaller exponent is nearer.
  pub round_product-IsNearest :
      (m : Mantissa)
      → round_product p ≡ some m
      → (2 ^ 52 ≤ m.mant53)
        × (m.mant53 < 2 ^ 53)
        × IsNearest m.mant53 n (d * 2 ^ 75 * 2 ^ m.carry)
        × InReach n (d * 2 ^ 75 * 2 ^ m.carry)
  unfolding round_product
  round_product-IsNearest m e =
      let (sure_enough, cases) = round_cases _ _ _ _ m e in
      let (lo, hi, near) = rounded_up-IsNearest (ground arith) (ground arith) in
      elim cases [
        | inl (full, x) ↦
            let power : rounded_up p ≡ 2 ^ 53 = (==_iff (rounded_up p) (2 ^ 53)).0 full in
            let half = carry-IsNearest n (d * 2 ^ 75) (rw power at near) in
            let twice : 2 * (d * 2 ^ 75) ≡ d * 2 ^ 75 * 2 ^ 1 = omega arith in
            let top : (2 ^ 54 - 1) * 2 ^ 74 ≤ p.hi * 2 ^ 64 + p.lo - 2 =
              let sure' : 2 ≤ p.lo = ground arith in
              let lem = rounded_up_lem p (omega arith) in omega arith in
            let reach : (2 ^ 54 - 1) * 2 ^ 74 * d ≤ n =
              let scaled = mul-le-mul_right d top in omega (arith, scaled) in
            rw (← x) (omega arith, omega arith, (rw twice at half), omega (arith, reach))
        | inr (not_full, y) ↦
            let once : d * 2 ^ 75 ≡ d * 2 ^ 75 * 2 ^ 0 = omega arith in
            let top : 2 ^ 52 * 2 ^ 75 ≤ p.hi * 2 ^ 64 + p.lo - 2 =
              let sure' : 2 ≤ p.lo = ground arith in omega arith in
            let reach : 2 ^ 52 * 2 ^ 75 * d ≤ n =
              let scaled = mul-le-mul_right d top in omega (arith, scaled) in
            rw (← y) (lo, less (rounded_up p) hi not_full, (rw once at near), omega (arith, reach))
      ]
