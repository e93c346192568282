-- ===== src/Rounding/Scaling.antt =====
-- The first scaling and the two loops put the quotient into 53 bits.
use idris2_rc.Prelude.{
  ℕ, suc, ◌+◌, ◌*◌, ◌^◌, ◌<◌, ◌≤◌, ◌≡◌, ◌⊎◌, inl, refl, ◌∙◌, true, false, some, arith, ltb, dec_lt,
}
use native.Mathlib.Nat.{pow-le-pow_right, mul-lt-mul_of_pos_right, mul-le-mul_right, suc-mul}
use idris2_rc.Prelude.Int.{ℤ, pos, negsuc, ◌-ℤ◌, pos_part, neg_part, -ℤ_parts}
use idris2_rc.Rounding.{Scaled, fdiv, scale, first_scale, grow_loop, shrink_loop}
use idris2_rc.Rounding.Mpz.{Arith, ArithLaws}
use idris2_rc.Rounding.Nearest.{quotient-ge, quotient-lt, scaled_bounds, power_pos}
use idris2_rc.Rounding.Powers.{pred_powers}

module _ (g : Arith) (laws : ArithLaws g) where
  open laws use {value}

  -- The quotient of the two numbers as they stand, which are `k` times what the exponent makes of `n`
  -- and `d`.
  pub record IsScaled (n d k : ℕ) (x : Scaled g.Mpz) : Type 0 where
    pub exact : value x.num ≡ value x.q * value x.den + value x.r
    pub rest : value x.r < value x.den
    pub num_power : value x.num ≡ k * (n * 2 ^ pos_part x.s)
    pub den_power : value x.den ≡ k * (d * 2 ^ neg_part x.s)

  pub size-ge : (k : ℕ) (a : g.Mpz) → 2 ^ k ≤ value a → k < g.mpz_sizeinbase a 2
  size-ge k a h = elim (dec_lt k (g.mpz_sizeinbase a 2)) [
    | yes lt ↦ lt
    | no ge ↦
        let small : 2 ^ g.mpz_sizeinbase a 2 ≤ 2 ^ k =
          pow-le-pow_right {n = 2} (omega arith) (omega arith) in
        absurd (omega (arith, laws.sizeinbase-lt a))
  ]

  pub size-le : (k : ℕ) (a : g.Mpz) → 0 < value a → value a < 2 ^ k → g.mpz_sizeinbase a 2 ≤ k
  size-le k a p h =
      let (n, e, le) = laws.sizeinbase-le a p in
      elim (dec_lt n k) [
        | yes lt ↦ omega arith
        | no ge ↦
            let big : 2 ^ k ≤ 2 ^ n = pow-le-pow_right {n = 2} (omega arith) (omega arith) in
            absurd (omega arith)
      ]

  fdiv-exact :
      (num den : g.Mpz) (s : ℤ)
      → 0 < value den
      → (value num ≡ value (fdiv g num den s).q * value den + value (fdiv g num den s).r)
        × (value (fdiv g num den s).r < value den)
  unfolding fdiv
  fdiv-exact num den s p = laws.value-fdiv_qr num den p

  scale-IsScaled :
      (num den : g.Mpz) (s : ℤ)
      → 0 < value den
      → IsScaled (value num) (value den) 1 (scale g num den s) × ((scale g num den s).s ≡ s)
  unfolding scale fdiv
  scale-IsScaled num den (pos n) p =
      let (e, r) = fdiv-exact (g.mpz_mul_2exp num n) den (pos n) p in
      (
        record {
          exact = e;
          rest = r;
          num_power = omega (arith, laws.value-mul_2exp num n);
          den_power = omega arith;
        },
        refl,
      )
  scale-IsScaled num den (negsuc n) p =
      let by = laws.value-mul_2exp den (suc n) in
      let positive : 0 < value (g.mpz_mul_2exp den (suc n)) =
        omega (arith, mul-lt-mul_of_pos_right p (power_pos (suc n))) in
      let (e, r) = fdiv-exact num (g.mpz_mul_2exp den (suc n)) (negsuc n) positive in
      (record { exact = e; rest = r; num_power = omega arith; den_power = omega (arith, by) }, refl)

  -- The first quotient has 53 or 54 bits.
  pub first_bounds :
      (num den : g.Mpz)
      → 0 < value num
      → 0 < value den
      → IsScaled (value num) (value den) 1 (first_scale g num den)
        × (2 ^ 52 ≤ value (first_scale g num den).q)
        × (value (first_scale g num den).q < 2 ^ 54)
  unfolding first_scale
  first_bounds num den pn pd =
      let (bn, en, nl) = laws.sizeinbase-le num pn in
      let (bd, ed, dl) = laws.sizeinbase-le den pd in
      let sizes = pos (g.mpz_sizeinbase num 2) -ℤ pos (g.mpz_sizeinbase den 2) in
      let s = pos 53 -ℤ sizes in
      let balance : pos_part s + bn ≡ 53 + (bd + neg_part s) = omega (
        arith,
        -ℤ_parts (pos 53) sizes,
        -ℤ_parts (pos (g.mpz_sizeinbase num 2)) (pos (g.mpz_sizeinbase den 2)),
      ) in
      let (lo, hi) =
        scaled_bounds bn bd (pos_part s) (neg_part s) (value num) (value den) nl
          (rw (← en) (laws.sizeinbase-lt num)) dl (rw (← ed) (laws.sizeinbase-lt den)) balance in
      let (x, same) = scale-IsScaled num den s pd in
      let num' = rw same at x.num_power in
      let den' = rw same at x.den_power in
      (
        x,
        quotient-ge (2 ^ 52) (value (scale g num den s).num) (value (scale g num den s).den) _ _
            x.exact x.rest (omega arith),
        quotient-lt (2 ^ 54) (value (scale g num den s).num) (value (scale g num den s).den) _ _
            x.exact (omega arith),
      )

  pub grow-stops :
      (fuel : ℕ) (x : Scaled g.Mpz) → 2 ^ 52 ≤ value x.q → grow_loop g (suc fuel) x ≡ some x
  unfolding grow_loop
  grow-stops fuel x h =
      let size = size-ge 52 x.q h in
      let stop : ltb (g.mpz_sizeinbase x.q 2) 53 ≡ false = ground arith in rw stop

  shrink-stops :
      (fuel : ℕ) (x : Scaled g.Mpz)
      → 2 ^ 52 ≤ value x.q
      → value x.q < 2 ^ 53
      → shrink_loop g (suc fuel) x ≡ some x
  unfolding shrink_loop
  shrink-stops fuel x lo hi =
      let size = size-le 53 x.q (omega arith) hi in
      let stop : ltb 53 (g.mpz_sizeinbase x.q 2) ≡ false = ground arith in rw stop

  shrink_round :
      (fuel : ℕ) (x : Scaled g.Mpz)
      → 2 ^ 53 ≤ value x.q
      → shrink_loop g (suc (suc fuel)) x
        ≡ shrink_loop g (suc fuel) (fdiv g x.num (g.mpz_mul_2exp x.den 1) (x.s -ℤ pos 1))
  unfolding shrink_loop
  shrink_round fuel x over =
      let size = size-ge 53 x.q over in
      let more : ltb 53 (g.mpz_sizeinbase x.q 2) ≡ true = ground arith in rw more

  -- One more bit: the second loop runs once, and takes the denominator twice.
  module _ (n d : ℕ) (x : Scaled g.Mpz) (scaled : IsScaled n d 1 x) (hi : value x.q < 2 ^ 54)
      (over : 2 ^ 53 ≤ value x.q) where
    abbrev shrunk : Scaled g.Mpz
    shrunk = fdiv g x.num (g.mpz_mul_2exp x.den 1) (x.s -ℤ pos 1)

    shrunk-fields :
        (shrunk.num ≡ x.num) × (shrunk.den ≡ g.mpz_mul_2exp x.den 1) × (shrunk.s ≡ x.s -ℤ pos 1)
    unfolding fdiv
    shrunk-fields = (refl, refl, refl)

    shrunk-IsScaled :
        (k : ℕ) × ((k ≡ 1) ⊎ (k ≡ 2))
        × IsScaled n d k shrunk
        × (2 ^ 52 ≤ value shrunk.q)
        × (value shrunk.q < 2 ^ 53)
    shrunk-IsScaled =
        let (k, small, nk, dk) = pred_powers n d x.s in
        let (fn, fd, fs) = shrunk-fields in
        let twice = laws.value-mul_2exp x.den 1 in
        let positive : 0 < value (g.mpz_mul_2exp x.den 1) = omega (arith, scaled.rest) in
        let (e, r) = fdiv-exact x.num (g.mpz_mul_2exp x.den 1) (x.s -ℤ pos 1) positive in
        (
          k,
          small,
          record {
            exact = rw (fn, fd) e;
            rest = rw fd r;
            num_power = rw (fn, fs) (omega (arith, scaled.num_power, nk));
            den_power = rw (fd, fs) (omega (arith, scaled.den_power, dk));
          },
          quotient-ge (2 ^ 52) (value x.num) (value (g.mpz_mul_2exp x.den 1)) _ _ e r (
              let over' = mul-le-mul_right (value x.den) over in
              omega (arith, scaled.exact, twice)),
          quotient-lt (2 ^ 53) (value x.num) (value (g.mpz_mul_2exp x.den 1)) _ _ e (
              let below = mul-le-mul_right (value x.den) hi in
              omega (arith, scaled.exact, scaled.rest, twice, suc-mul (value x.q) (value x.den))),
        )

  -- The second loop runs once at most, and the quotient has 53 bits.
  pub shrink-IsScaled :
      (fuel n d : ℕ) (x : Scaled g.Mpz)
      → IsScaled n d 1 x
      → 2 ^ 52 ≤ value x.q
      → value x.q < 2 ^ 54
      → (y : Scaled g.Mpz) × (k : ℕ) × (shrink_loop g (suc (suc fuel)) x ≡ some y)
        × ((k ≡ 1) ⊎ (k ≡ 2))
        × IsScaled n d k y
        × (2 ^ 52 ≤ value y.q)
        × (value y.q < 2 ^ 53)
  shrink-IsScaled fuel n d x scaled lo hi = elim (dec_lt (value x.q) (2 ^ 53)) [
    | yes fits ↦ (x, 1, shrink-stops (suc fuel) x lo fits, inl refl, scaled, lo, fits)
    | no over ↦
        let over' : 2 ^ 53 ≤ value x.q = omega arith in
        let (k, small, y, lo', hi') = shrunk-IsScaled n d x scaled hi over' in
        (
          shrunk n d x scaled hi over',
          k,
          shrink_round fuel x over' ∙ shrink-stops fuel (shrunk n d x scaled hi over') lo' hi',
          small,
          y,
          lo',
          hi',
        )
  ]
