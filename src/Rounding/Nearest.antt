-- ===== src/Rounding/Nearest.antt =====
-- The integer next to a quotient, ties to even, and powers of two.
use idris2_rc.Prelude.{
  ℕ, zero, suc, ◌+◌, ◌-◌, ◌*◌, ◌%◌, ◌^◌, ◌<◌, ◌≤◌, ◌≡◌, ◌⊎◌, inl, inr, arith, ap, sym, ◌∙◌, dec_lt,
  zero-add, suc-add,
}
use native.Mathlib.Nat.{
  pow-suc, pow-le-pow_right, suc-mul, add-mul, mul-le-mul_right, mul-lt-mul_of_pos_right,
}

-- No integer is nearer to `n / d` than `q`, and if another is as near, `q` is even.
pub record IsNearest (q n d : ℕ) : Type 0 where
  pub upper : 2 * n ≤ 2 * (q * d) + d
  pub lower : 2 * (q * d) ≤ 2 * n + d
  pub even : (q % 2 ≡ 0) ⊎ (2 * n < 2 * (q * d) + d) × (2 * (q * d) < 2 * n + d)

-- A quotient of 53 bits may be rounded up to 2 ^ 52, from at most a quarter below: further down the
-- quotients of 53 bits lie closer.
abbrev pub InReach : (n d : ℕ) → Type 0
InReach n d = (2 ^ 54 - 1) * d ≤ 4 * n

pub pow-add : (m n : ℕ) → 2 ^ (m + n) ≡ 2 ^ m * 2 ^ n
pow-add zero n = rw zero-add (omega arith)
pow-add (suc m) n = rw (suc-add, pow-suc 2 (m + n), pow-add m n, pow-suc 2 m) (grind arith)

-- The remainder says which of the two integers around the quotient is next to it.
pub below-IsNearest : (q n d r : ℕ) → n ≡ q * d + r → 2 * r < d → IsNearest q n d
below-IsNearest q n d r e h = record {
  upper = omega arith;
  lower = omega arith;
  even = inr (omega arith, omega arith);
}

pub tie-IsNearest : (q n d r : ℕ) → n ≡ q * d + r → 2 * r ≡ d → q % 2 ≡ 0 → IsNearest q n d
tie-IsNearest q n d r e h even = record {
  upper = omega arith;
  lower = omega arith;
  even = inl even;
}

pub tie_up-IsNearest : (q n d r : ℕ) → n ≡ q * d + r → 2 * r ≡ d → q % 2 ≡ 1 → IsNearest (q + 1) n d
tie_up-IsNearest q n d r e h odd = record {
  upper = omega (arith, add-mul q 1 d);
  lower = omega (arith, add-mul q 1 d);
  even = inl (omega arith);
}

pub above-IsNearest : (q n d r : ℕ) → n ≡ q * d + r → d < 2 * r → r < d → IsNearest (q + 1) n d
above-IsNearest q n d r e h k = record {
  upper = omega (arith, add-mul q 1 d);
  lower = omega (arith, add-mul q 1 d);
  even = inr (omega (arith, add-mul q 1 d), omega (arith, add-mul q 1 d));
}

-- Both numbers halved.
twice_product : (q d : ℕ) → q * (2 * d) ≡ 2 * (q * d)
twice_product q d = grind arith

pub halve-IsNearest :
    (q n d n' d' : ℕ) → n' ≡ 2 * n → d' ≡ 2 * d → IsNearest q n' d' → IsNearest q n d
halve-IsNearest q n d n' d' en ed h = record {
  upper = let product = twice_product q d in omega (arith, rw ed at h.upper, product);
  lower = let product = twice_product q d in omega (arith, rw ed at h.lower, product);
  even = elim h.even [
    | inl e ↦ inl e
    | inr (a, b) ↦
        inr (
          omega (arith, rw ed at a, twice_product q d),
          omega (arith, rw ed at b, twice_product q d),
        )
  ];
}

-- The carry: the quotient of one bit less.
pub carry-IsNearest : (n d : ℕ) → IsNearest (2 ^ 53) n d → IsNearest (2 ^ 52) n (2 * d)
carry-IsNearest n d h = record {
  upper = omega (arith, h.upper, h.lower);
  lower = omega (arith, h.upper, h.lower);
  even = inl (omega arith);
}

-- A quotient lies where the numerator lies among the multiples of the denominator.
pub quotient-ge : (lo n d q r : ℕ) → n ≡ q * d + r → r < d → lo * d ≤ n → lo ≤ q
quotient-ge lo n d q r e h le = elim (dec_lt q lo) [
  | yes lt ↦
      let over : suc q * d ≤ lo * d = mul-le-mul_right d lt in absurd (omega (arith, suc-mul q d))
  | no ge ↦ omega arith
]

pub quotient-lt : (hi n d q r : ℕ) → n ≡ q * d + r → n < hi * d → q < hi
quotient-lt hi n d q r e lt = elim (dec_lt q hi) [
  | yes h ↦ h
  | no ge ↦ let over : hi * d ≤ q * d = mul-le-mul_right d (omega arith) in absurd (omega arith)
]

double_left : (m n : ℕ) → 2 ^ suc m * 2 ^ n ≡ 2 * (2 ^ m * 2 ^ n)
double_left m n = rw (pow-suc 2 m) (grind arith)

pub power_pos : (n : ℕ) → 0 < 2 ^ n
power_pos n = pow-le-pow_right {n = 2} (omega arith) {i = 0} {j = n} (omega arith)

-- The first scaling puts the quotient into two binary orders: the numerator has `bn + 1` bits and
-- the denominator `bd + 1`.
pub scaled_bounds :
    (bn bd a b n d : ℕ)
    → 2 ^ bn ≤ n
    → n < 2 ^ suc bn
    → 2 ^ bd ≤ d
    → d < 2 ^ suc bd
    → a + bn ≡ 53 + (bd + b)
    → (2 ^ 52 * (d * 2 ^ b) ≤ n * 2 ^ a) × (n * 2 ^ a < 2 ^ 54 * (d * 2 ^ b))
scaled_bounds bn bd a b n d nl nh dl dh e =
    let e1 : 2 ^ bn * 2 ^ a ≡ 2 ^ 53 * 2 ^ (bd + b) =
      sym (pow-add bn a) ∙ ap (λ (t : ℕ). 2 ^ t) (omega arith) ∙ pow-add 53 (bd + b) in
    let e2 : 2 ^ (bd + b) ≡ 2 ^ bd * 2 ^ b = pow-add bd b in
    let n1 : 2 ^ bn * 2 ^ a ≤ n * 2 ^ a = mul-le-mul_right (2 ^ a) nl in
    let n2 : n * 2 ^ a < 2 ^ suc bn * 2 ^ a = mul-lt-mul_of_pos_right nh (power_pos a) in
    let d1 : 2 ^ bd * 2 ^ b ≤ d * 2 ^ b = mul-le-mul_right (2 ^ b) dl in
    let d2 : d * 2 ^ b < 2 ^ suc bd * 2 ^ b = mul-lt-mul_of_pos_right dh (power_pos b) in
    let p1 : 2 ^ suc bn * 2 ^ a ≡ 2 * (2 ^ bn * 2 ^ a) = double_left bn a in
    let p2 : 2 ^ suc bd * 2 ^ b ≡ 2 * (2 ^ bd * 2 ^ b) = double_left bd b in
    (omega arith, omega arith)
