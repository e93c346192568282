-- ===== src/Rounding/Unique.antt =====
-- There is only one double next to a fraction.
use idris2_rc.Prelude.{
  ℕ, suc, ◌+◌, ◌-◌, ◌*◌, ◌^◌, ◌<◌, ◌≤◌, ◌≡◌, inl, inr, sym, ◌∙◌, ap, arith, dec_lt,
}
use native.Mathlib.Nat.{mul-le-mul_right, pow-suc}
use idris2_rc.Prelude.Int.{ℤ, pos_part, neg_part, eq_of_parts}
use idris2_rc.Rounding.Nearest.{IsNearest, InReach, pow-add, power_pos}

-- A quotient of 53 bits is next to a number that is below the tie with 2 ^ 53.
below_tie : (q n d : ℕ) → 0 < d → q < 2 ^ 53 → IsNearest q n d → 2 * n < (2 ^ 54 - 1) * d
below_tie q n d p lt near =
    let most : (q + 1) * d ≤ 2 ^ 53 * d = mul-le-mul_right d (omega arith) in
    let sum : (q + 1) * d ≡ q * d + d = grind arith in
    elim (dec_lt (q + 1) (2 ^ 53)) [
      | yes less ↦
          let more : (q + 2) * d ≤ 2 ^ 53 * d = mul-le-mul_right d (omega arith) in
          let sum' : (q + 2) * d ≡ q * d + 2 * d = grind arith in omega (arith, near.upper)
      | no last ↦ elim near.even [
        | inl even ↦ absurd (omega arith)
        | inr (strict, low) ↦ omega arith
      ]
    ]

-- Two fractions, the second greater by a power of two, have not both such a quotient.
no_two :
    (q n1 d1 n2 d2 t : ℕ)
    → 0 < d1
    → 0 < d2
    → n2 * d1 ≡ 2 * t * (n1 * d2)
    → 0 < t
    → InReach n1 d1
    → q < 2 ^ 53
    → IsNearest q n2 d2
    → ⊥
no_two q n1 d1 n2 d2 t p1 p2 e pt reach lt near =
    let above : (2 ^ 54 - 1) * d1 * d2 ≤ 4 * n1 * d2 = mul-le-mul_right d2 reach in
    let below : (2 * n2 + 1) * d1 ≤ (2 ^ 54 - 1) * d2 * d1 =
      mul-le-mul_right d1 (omega (arith, below_tie q n2 d2 p2 lt near)) in
    let least : 1 * (n1 * d2) ≤ t * (n1 * d2) = mul-le-mul_right (n1 * d2) pt in
    let swap : (2 ^ 54 - 1) * d1 * d2 ≡ (2 ^ 54 - 1) * d2 * d1 = grind arith in
    let spread : (2 * n2 + 1) * d1 ≡ 2 * (n2 * d1) + d1 = grind arith in
    let four : 4 * n1 * d2 ≡ 4 * (n1 * d2) = grind arith in
    let twice : 2 * t * (n1 * d2) ≡ 2 * (t * (n1 * d2)) = grind arith in omega arith

-- One fraction has one nearest integer.
one_nearest : (q q' n d : ℕ) → 0 < d → IsNearest q n d → IsNearest q' n d → q' ≤ q
one_nearest q q' n d p near near' = elim (dec_lt q q') [
  | yes more ↦
      let next : (q + 1) * d ≤ q' * d = mul-le-mul_right d (omega arith) in
      let sum : (q + 1) * d ≡ q * d + d = grind arith in
      elim (dec_lt (q + 1) q') [
        | yes far ↦
            let after : (q + 2) * d ≤ q' * d = mul-le-mul_right d (omega arith) in
            let sum' : (q + 2) * d ≡ q * d + 2 * d = grind arith in
            absurd (omega (arith, near.upper, near'.lower))
        | no adjacent ↦ absurd (elim near.even [
          | inl even ↦ elim near'.even [
            | inl even' ↦ omega arith
            | inr (up, low) ↦ omega (arith, near.upper)
          ]
          | inr (up, low) ↦ omega (arith, near'.lower)
        ])
      ]
  | no le ↦ omega arith
]

module _ (n d : ℕ) where
  abbrev num : ℤ → ℕ
  num s = n * 2 ^ pos_part s

  abbrev den : ℤ → ℕ
  den s = d * 2 ^ neg_part s

  den-pos : 0 < d → (s : ℤ) → 0 < den s
  den-pos p s =
      let le : 1 * 2 ^ neg_part s ≤ d * 2 ^ neg_part s = mul-le-mul_right (2 ^ neg_part s) p in
      omega (arith, power_pos (neg_part s))

  ordered : (x y : ℕ) → n * x * (d * y) ≡ n * d * (x * y)
  ordered x y = grind arith

  out : (c t x y : ℕ) → c * (x * y * (2 * t)) ≡ 2 * t * (c * (x * y))
  out c t x y = grind arith

  -- The greater exponent makes the fraction greater.
  greater :
      (s s' : ℤ) (k : ℕ)
      → pos_part s' + neg_part s ≡ pos_part s + neg_part s' + suc k
      → num s' * den s ≡ 2 * 2 ^ k * (num s * den s')
  greater s s' k e =
      let powers : 2 ^ pos_part s' * 2 ^ neg_part s
          ≡ 2 ^ pos_part s * 2 ^ neg_part s' * (2 * 2 ^ k) =
        sym (pow-add (pos_part s') (neg_part s))
        ∙ ap (λ (i : ℕ). 2 ^ i) e
        ∙ pow-add (pos_part s + neg_part s') (suc k)
        ∙ rw (pow-add (pos_part s) (neg_part s'), pow-suc 2 k) (grind arith) in
      ordered (2 ^ pos_part s') (2 ^ neg_part s)
      ∙ ap (λ (i : ℕ). n * d * i) powers
      ∙ out (n * d) (2 ^ k) (2 ^ pos_part s) (2 ^ neg_part s')
      ∙ ap (λ (i : ℕ). 2 * 2 ^ k * i) (sym (ordered (2 ^ pos_part s) (2 ^ neg_part s')))

  not_greater :
      (s s' : ℤ) (q' : ℕ)
      → 0 < d
      → InReach (num s) (den s)
      → q' < 2 ^ 53
      → IsNearest q' (num s') (den s')
      → pos_part s' + neg_part s ≤ pos_part s + neg_part s'
  not_greater s s' q' p reach lt near =
      let x = pos_part s + neg_part s' in
      let y = pos_part s' + neg_part s in
      elim (dec_lt x y) [
        | yes less ↦
            let k = y - x - 1 in
            absurd (
              no_two q' (num s) (den s) (num s') (den s') (2 ^ k) (den-pos p s) (den-pos p s')
                (greater s s' k (omega arith)) (power_pos k) reach lt near)
        | no ge ↦ omega arith
      ]

  -- Two quotients of 53 bits that are next to a fraction, each with its exponent, are one.
  pub one_double :
      (q q' : ℕ) (s s' : ℤ)
      → 0 < d
      → (q < 2 ^ 53) × IsNearest q (num s) (den s) × InReach (num s) (den s)
      → (q' < 2 ^ 53) × IsNearest q' (num s') (den s') × InReach (num s') (den s')
      → (q ≡ q') × (s ≡ s')
  one_double q q' s s' p (lt, near, reach) (lt', near', reach') =
      let up = not_greater s s' q' p reach lt' near' in
      let down = not_greater s' s q p reach' lt near in
      let same : s ≡ s' = eq_of_parts s s' (omega arith) in
      let moved = (rw same at near) in
      let le = one_nearest q q' (num s') (den s') (den-pos p s') moved near' in
      let ge = one_nearest q' q (num s') (den s') (den-pos p s') near' moved in
      (omega (arith, le, ge), same)
