-- ===== src/ParseDouble/Powers.antt =====
-- Powers of ten that a numerator and a denominator share.
use idris2_rc.Prelude.{
  ℕ, zero, suc, ◌+◌, ◌-◌, ◌*◌, ◌^◌, ◌<◌, ◌≤◌, ◌≡◌, inl, inr, sym, ◌∙◌, ap, arith, dec_lt, ltb,
  false, zero-add, suc-add,
}
use native.Mathlib.Nat.{
  zero-mul, mul-le-mul_right, pow-suc, pow-le-pow_right, lt_of_mul-lt-mul_left,
  mul-lt-mul_of_pos_right, mul-le-mul_left, mul-lt-mul_of_pos_left, mul_comm,
}
use idris2_rc.Prelude.Int.{
  ℤ, pos, negsuc, ◌+ℤ◌, ◌-ℤ◌, nat_abs, pos_part, neg_part, +ℤ_parts, -ℤ_parts,
}
use idris2_rc.Rounding.Nearest.{IsNearest, InReach}

pub ten_add : (m n : ℕ) → 10 ^ (m + n) ≡ 10 ^ m * 10 ^ n
ten_add zero n = rw zero-add (omega arith)
ten_add (suc m) n = rw (suc-add, pow-suc 10 (m + n), ten_add m n, pow-suc 10 m) (grind arith)

cancel_le : (t a b : ℕ) → 0 < t → t * a ≤ t * b → a ≤ b
cancel_le t a b p h = elim (dec_lt b a) [
  | yes lt ↦
      let over : b * t < a * t = mul-lt-mul_of_pos_right lt p in
      absurd (omega (arith, mul_comm t a, mul_comm t b))
  | no ge ↦ omega arith
]

factored : (t q d : ℕ) → t * (2 * (q * d) + d) ≡ 2 * (q * (t * d)) + t * d
factored t q d = grind arith

twice : (t n : ℕ) → t * (2 * n) ≡ 2 * (t * n)
twice t n = grind arith

factored_twice : (t n d : ℕ) → t * (2 * n + d) ≡ 2 * (t * n) + t * d
factored_twice t n d = grind arith

factored_left : (t q d : ℕ) → t * (2 * (q * d)) ≡ 2 * (q * (t * d))
factored_left t q d = grind arith

-- A common factor of the numerator and the denominator goes.
pub cancel-IsNearest : (t q n d : ℕ) → 0 < t → IsNearest q (t * n) (t * d) → IsNearest q n d
cancel-IsNearest t q n d p h = record {
  upper = cancel_le t _ _ p (omega (arith, h.upper, factored t q d, twice t n));
  lower = cancel_le t _ _ p (omega (arith, h.lower, factored_twice t n d, factored_left t q d));
  even = elim h.even [
    | inl e ↦ inl e
    | inr (a, b) ↦ inr (
      lt_of_mul-lt-mul_left t (omega (arith, a, factored t q d, twice t n)),
      lt_of_mul-lt-mul_left t (omega (arith, b, factored_twice t n d, factored_left t q d)),
    )
  ];
}

scaled_left : (t d c : ℕ) → c * (t * d) ≡ t * (c * d)
scaled_left t d c = grind arith

pub cancel-InReach : (t n d : ℕ) → 0 < t → InReach (t * n) (t * d) → InReach n d
cancel-InReach t n d p h =
    cancel_le t _ _ p (omega (arith, scaled_left t d (2 ^ 54 - 1), scaled_left t n 4))

-- A common factor is put in.
scale-IsNearest : (t q n d : ℕ) → 0 < t → IsNearest q n d → IsNearest q (t * n) (t * d)
scale-IsNearest t q n d p h =
    let up : t * (2 * n) ≤ t * (2 * (q * d) + d) = mul-le-mul_left t h.upper in
    let low : t * (2 * (q * d)) ≤ t * (2 * n + d) = mul-le-mul_left t h.lower in
    record {
      upper = omega (arith, factored t q d, twice t n);
      lower = omega (arith, factored_twice t n d, factored_left t q d);
      even = elim h.even [
        | inl e ↦ inl e
        | inr (a, b) ↦
            let above : t * (2 * n) < t * (2 * (q * d) + d) = mul-lt-mul_of_pos_left a p in
            let below : t * (2 * (q * d)) < t * (2 * n + d) = mul-lt-mul_of_pos_left b p in
            inr (
              omega (arith, factored t q d, twice t n),
              omega (arith, factored_twice t n d, factored_left t q d),
            )
      ];
    }

-- What is next to a fraction is next to every other that is equal.
pub equal_ratio-IsNearest :
    (q n d n' d' : ℕ) → 0 < d → 0 < d' → n * d' ≡ n' * d → IsNearest q n d → IsNearest q n' d'
equal_ratio-IsNearest q n d n' d' p p' e h =
    let num : d' * n ≡ d * n' = mul_comm d' n ∙ e ∙ mul_comm n' d in
    let scaled = scale-IsNearest d' q n d p' h in
    cancel-IsNearest d q n' d' p (rw (num, mul_comm d' d) at scaled)

pub equal_ratio-InReach : (n d n' d' : ℕ) → 0 < d → n * d' ≡ n' * d → InReach n d → InReach n' d'
equal_ratio-InReach n d n' d' p e h =
    let scaled : d' * ((2 ^ 54 - 1) * d) ≤ d' * (4 * n) = mul-le-mul_left d' h in
    let num : d' * n ≡ d * n' = mul_comm d' n ∙ e ∙ mul_comm n' d in
    cancel_le d _ _ p (
      omega (
        arith,
        scaled_left d' d (2 ^ 54 - 1),
        scaled_left d' n 4,
        scaled_left d d' (2 ^ 54 - 1),
        scaled_left d n' 4,
        mul_comm d d',
      ))

neg_part-le : (e : ℤ) (j : ℕ) → neg_part (e +ℤ pos j) ≤ neg_part e
unfolding ◌+ℤ◌
neg_part-le (pos a) j = ground arith
neg_part-le (negsuc a) j = ground arith

pub ten_pos : (n : ℕ) → 0 < 10 ^ n
ten_pos n = pow-le-pow_right {n = 10} (omega arith) {i = 0} {j = n} (omega arith)

move_factor : (v a b p : ℕ) → a * b ≡ p → v * a * b ≡ v * p
move_factor v a b p e = rw (sym e) (grind arith)

swap_factor : (v a t : ℕ) → v * (a * t) ≡ t * (v * a)
swap_factor v a t = grind arith

-- The number with `j` zeros more and the exponent less `j` stand for one quotient.
pub same_quotient :
    (v : ℕ) (e : ℤ) (j : ℕ)
    → (t : ℕ) × (0 < t)
      × (v * 10 ^ j * 10 ^ pos_part e ≡ t * (v * 10 ^ pos_part (e +ℤ pos j)))
      × (10 ^ neg_part e ≡ t * 10 ^ neg_part (e +ℤ pos j))
same_quotient v e j =
    let m = e +ℤ pos j in
    let less = neg_part e - neg_part m in
    let parts = +ℤ_parts e (pos j) in
    let le = neg_part-le e j in
    let num : 10 ^ j * 10 ^ pos_part e ≡ 10 ^ pos_part m * 10 ^ less =
      sym (ten_add j (pos_part e))
      ∙ ap (λ (i : ℕ). 10 ^ i) (omega arith)
      ∙ ten_add (pos_part m) less in
    let den : 10 ^ neg_part e ≡ 10 ^ less * 10 ^ neg_part m =
      ap (λ (i : ℕ). 10 ^ i) (omega arith) ∙ ten_add less (neg_part m) in
    (
      10 ^ less,
      ten_pos less,
      move_factor v _ _ _ num ∙ swap_factor v (10 ^ pos_part m) (10 ^ less),
      den,
    )

pub times_power :
    (a j n : ℕ)
    → 10 ^ n ≤ a
    → a < 10 ^ suc n
    → (10 ^ (n + j) ≤ a * 10 ^ j) × (a * 10 ^ j < 10 ^ suc (n + j))
times_power a j n lo hi =
    let whole = ten_add (suc n) j in
    let least : 10 ^ n * 10 ^ j ≤ a * 10 ^ j = mul-le-mul_right (10 ^ j) lo in
    let most : a * 10 ^ j < 10 ^ suc n * 10 ^ j = mul-lt-mul_of_pos_right hi (ten_pos j) in
    (omega (arith, ten_add n j), omega (arith, (rw suc-add at whole)))

pub product_pos : (a b : ℕ) → 0 < a → 0 < b → 0 < a * b
product_pos a b p q = omega (arith, mul-lt-mul_of_pos_right p q, zero-mul b)

pub ltb-false : (a b : ℕ) → b ≤ a → ltb a b ≡ false
ltb-false a b h = ground arith

nat_abs_parts : (a : ℤ) → nat_abs a ≡ pos_part a + neg_part a
nat_abs_parts (pos n) = omega arith
nat_abs_parts (negsuc n) = omega arith

module _ (e k : ℤ) (j l n : ℕ) (shifted : e +ℤ pos j ≡ k -ℤ pos l) where
  -- The exponent that is read, from the place of the point.
  exponent_parts : neg_part e + pos_part k ≡ neg_part k + l + (pos_part e + j)
  exponent_parts =
      let p : pos_part (e +ℤ pos j) ≡ pos_part (k -ℤ pos l) = ap pos_part shifted in
      let q : neg_part (e +ℤ pos j) ≡ neg_part (k -ℤ pos l) = ap neg_part shifted in
      omega (arith, p, q, +ℤ_parts e (pos j), -ℤ_parts k (pos l))

-- The printed exponent bounds the place of the point.
place-bounds : (k : ℤ) (b : ℕ) → nat_abs (k -ℤ pos 1) ≤ b → (pos_part k ≤ b + 1) × (neg_part k ≤ b)
place-bounds (pos a) b h =
    omega (arith, h, nat_abs_parts (pos a -ℤ pos 1), -ℤ_parts (pos a) (pos 1))
place-bounds (negsuc a) b h =
    omega (arith, h, nat_abs_parts (negsuc a -ℤ pos 1), -ℤ_parts (negsuc a) (pos 1))

abs-le : (e : ℤ) (x y : ℕ) → neg_part e + x ≡ y + pos_part e → nat_abs e ≤ x + y
abs-le (pos a) x y h = omega arith
abs-le (negsuc a) x y h = omega arith

pub exponent-bounds :
    (e k : ℤ) (j l n : ℕ)
    → e +ℤ pos j ≡ k -ℤ pos l
    → j ≤ suc (pos_part k)
    → nat_abs (k -ℤ pos 1) ≤ 1_000_000_000
    → l < 2 ^ 62
    → neg_part k + l ≤ pos_part k + n + 341
    → pos_part k + n + 2 ≤ 340 + neg_part k + l
    → (neg_part e ≤ pos_part e + (n + j) + 341)
      × (pos_part e + (n + j) + 2 ≤ 340 + neg_part e)
      × (nat_abs e < 2 ^ 64)
exponent-bounds e k j l n shifted j_le small short above below =
    let parts = exponent_parts e k j l n shifted in
    let bounds = place-bounds k 1_000_000_000 small in
    (
      omega (arith, parts),
      omega (arith, parts),
      omega
          (arith, bounds, parts, abs-le e (pos_part k) (neg_part k + l + j) (omega (arith, parts))),
    )
