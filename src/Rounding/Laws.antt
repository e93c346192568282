-- ===== src/Rounding/Laws.antt =====
-- The rounding of the quotient, and the double next to the quotient of two integers.
use idris2_rc.Prelude.{
  ℕ, suc, ◌+◌, ◌*◌, ◌%◌, ◌^◌, ◌<◌, ◌≤◌, ◌≡◌, ◌⊎◌, refl, sym, ◌∙◌, ap, Bool, true, false, ◌&&◌, ◌||◌,
  some, arith, ltb, ◌==◌, if◌then◌else◌, dec_lt, ==_iff,
}
use mathlib.Core.Path.{subst}
use native.Mathlib.Nat.{pow-le-pow_right, mul-le-mul_right}
use idris2_rc.Prelude.Int.{ℤ, pos, negsuc, ◌-ℤ◌, pos_part, neg_part, ltb_ℤ}
use idris2_rc.Rounding.{Scaled, first_scale, is_zero, carry, round, quotient, ratio_to_double}
use idris2_rc.Rounding.Mpz.{Arith, ArithLaws}
use idris2_rc.Rounding.Nearest.{
  IsNearest, InReach, below-IsNearest, tie-IsNearest, tie_up-IsNearest, above-IsNearest,
  carry-IsNearest,
}
use idris2_rc.Rounding.Powers.{pred_powers, unscale-IsNearest, unscale-InReach}
use idris2_rc.Rounding.Range.{wrap-exponent}
use idris2_rc.Rounding.Scaling.{IsScaled, size-le, first_bounds, grow-stops, shrink-IsScaled}

module _ (g : Arith) (laws : ArithLaws g) where
  open laws use {value}

  -- A quotient of 53 bits that is next to `n * 2 ^ s / d`.
  abbrev IsRounded : (n d : ℕ) → Scaled g.Mpz → Type 0
  IsRounded n d y =
      (2 ^ 52 ≤ value y.q)
      × (value y.q < 2 ^ 53)
      × IsNearest (value y.q) (n * 2 ^ pos_part y.s) (d * 2 ^ neg_part y.s)
      × InReach (n * 2 ^ pos_part y.s) (d * 2 ^ neg_part y.s)

  if-IsRounded :
      (n d : ℕ) (b : Bool) (y z : Scaled g.Mpz)
      → (b ≡ true → IsRounded n d y)
      → (b ≡ false → IsRounded n d z)
      → IsRounded n d (if b then y else z)
  if-IsRounded n d true y z f h = f refl
  if-IsRounded n d false y z f h = h refl

  module _ (n d k : ℕ) (x : Scaled g.Mpz) (small : (k ≡ 1) ⊎ (k ≡ 2))
      (scaled : IsScaled g laws n d k x) (lo : 2 ^ 52 ≤ value x.q) (hi : value x.q < 2 ^ 53) where
    at_powers :
        (q : ℕ)
        → IsNearest q (value x.num) (value x.den)
        → IsNearest q (n * 2 ^ pos_part x.s) (d * 2 ^ neg_part x.s)
    at_powers q h =
        unscale-IsNearest k q (n * 2 ^ pos_part x.s) (d * 2 ^ neg_part x.s) small
          (rw (scaled.num_power, scaled.den_power) at h)

    reach_at_powers :
        InReach (value x.num) (value x.den) → InReach (n * 2 ^ pos_part x.s) (d * 2 ^ neg_part x.s)
    reach_at_powers h =
        unscale-InReach k (n * 2 ^ pos_part x.s) (d * 2 ^ neg_part x.s) small
          (rw (scaled.num_power, scaled.den_power) at h)

    reach_kept : InReach (value x.num) (value x.den)
    reach_kept =
        let le : 2 ^ 52 * value x.den ≤ value x.q * value x.den =
          mul-le-mul_right (value x.den) lo in
        omega (arith, scaled.exact)

    reach_carried :
        IsNearest (2 ^ 53) (value x.num) (value x.den)
        → InReach (n * 2 ^ pos_part (x.s -ℤ pos 1)) (d * 2 ^ neg_part (x.s -ℤ pos 1))
    reach_carried h =
        let (j, small', nj, dj) = pred_powers n d x.s in
        let near = at_powers (2 ^ 53) h in
        let reach : InReach (n * 2 ^ pos_part x.s) (2 * (d * 2 ^ neg_part x.s)) =
          omega (arith, near.lower) in
        unscale-InReach j _ _ small' (rw (nj, dj) at reach)

    abbrev up : Scaled g.Mpz
    up = record x { q = g.mpz_add_ui x.q 1 }

    carried :
        IsNearest (2 ^ 53) (value x.num) (value x.den)
        → IsNearest (2 ^ 52) (n * 2 ^ pos_part (x.s -ℤ pos 1)) (d * 2 ^ neg_part (x.s -ℤ pos 1))
    carried h =
        let (j, small', nj, dj) = pred_powers n d x.s in
        let half =
          carry-IsNearest (n * 2 ^ pos_part x.s) (d * 2 ^ neg_part x.s) (at_powers (2 ^ 53) h) in
        unscale-IsNearest j (2 ^ 52) _ _ small' (rw (nj, dj) at half)

    up_value : value up.q ≡ value x.q + 1
    up_value = laws.value-add_ui x.q 1 (omega arith)

    carry-IsRounded :
        IsNearest (value x.q + 1) (value x.num) (value x.den) → IsRounded n d (carry g up)
    unfolding carry
    carry-IsRounded near =
        if-IsRounded n d (ltb 53 (g.mpz_sizeinbase up.q 2)) _ _
          (λ over.
            let full : value up.q ≡ 2 ^ 53 = elim (dec_lt (value up.q) (2 ^ 53)) [
              | yes lt ↦
                  let size = size-le g laws 53 up.q (omega (arith, up_value)) lt in
                  absurd (ground (arith, size))
              | no ge ↦ omega (arith, up_value)
            ] in
            let half : value (g.mpz_fdiv_q_2exp up.q 1) ≡ 2 ^ 52 =
              omega (arith, laws.value-fdiv_q_2exp up.q 1) in
            let near' = (rw (sym up_value ∙ full) at near) in
            rw half (omega arith, omega arith, carried near', reach_carried near'))
          (λ fits.
            let small_size : 2 ^ g.mpz_sizeinbase up.q 2 ≤ 2 ^ 53 =
              pow-le-pow_right {n = 2} (omega arith) {j = 53} (ground arith) in
            (
              omega (arith, up_value),
              omega (arith, laws.sizeinbase-lt up.q),
              rw up_value (at_powers (value x.q + 1) near),
              reach_at_powers reach_kept,
            ))

    -- The comparison of the doubled remainder with the denominator, and the parity.
    twice_rest : value (g.mpz_mul_2exp x.r 1) ≡ 2 * value x.r
    twice_rest = omega (arith, laws.value-mul_2exp x.r 1)

    abbrev result : ℤ → Bool → Scaled g.Mpz
    result c odd = if ltb_ℤ (pos 0) c || (is_zero c && odd) then carry g up else x

    result-lt : (c : ℕ) (odd : Bool) → result (negsuc c) odd ≡ x
    result-lt c odd = let low : ltb_ℤ (pos 0) (negsuc c) ≡ false = ground arith in rw low

    result-gt : (c : ℕ) (odd : Bool) → result (pos (suc c)) odd ≡ carry g up
    result-gt c odd = let high : ltb_ℤ (pos 0) (pos (suc c)) ≡ true = ground arith in rw high

    nearest_kept : IsNearest (value x.q) (value x.num) (value x.den) → IsRounded n d x
    nearest_kept near = (lo, hi, at_powers (value x.q) near, reach_at_powers reach_kept)

    tie-IsRounded :
        (odd : Bool)
        → odd ≡ (value x.q % 2 == 1)
        → 2 * value x.r ≡ value x.den
        → IsRounded n d (result (pos 0) odd)
    tie-IsRounded true e tie =
        carry-IsRounded (tie_up-IsNearest _ _ _ _ scaled.exact tie ((==_iff _ 1).0 (sym e)))
    tie-IsRounded false e tie = nearest_kept (tie-IsNearest _ _ _ _ scaled.exact tie (ground arith))

    round-IsRounded : IsRounded n d (round g x)
    unfolding round
    round-IsRounded =
        let odd = g.mpz_odd_p x.q in
        elim (dec_lt (2 * value x.r) (value x.den)) [
          | yes below ↦
              let (c, e) = laws.cmp-lt (g.mpz_mul_2exp x.r 1) x.den (rw twice_rest below) in
              subst (IsRounded n d) (sym (ap (λ (z : ℤ). result z odd) e ∙ result-lt c odd))
                (nearest_kept (below-IsNearest _ _ _ _ scaled.exact below))
          | no not_below ↦ elim (dec_lt (value x.den) (2 * value x.r)) [
            | yes above ↦
                let (c, e) = laws.cmp-gt (g.mpz_mul_2exp x.r 1) x.den (rw twice_rest above) in
                subst (IsRounded n d) (sym (ap (λ (z : ℤ). result z odd) e ∙ result-gt c odd))
                  (carry-IsRounded (above-IsNearest _ _ _ _ scaled.exact above scaled.rest))
            | no not_above ↦
                let tie : 2 * value x.r ≡ value x.den = omega arith in
                let e = laws.cmp-eq (g.mpz_mul_2exp x.r 1) x.den (twice_rest ∙ tie) in
                subst (IsRounded n d) (sym (ap (λ (z : ℤ). result z odd) e))
                  (tie-IsRounded odd (laws.odd_p x.q) tie)
          ]
        ]

  -- For two positive integers of which neither is `2 ^ k` times the other or more, where `k` is at most
  -- 2 ^ 30, the two loops end, the second after one round at most, and the cast of the exponent to `int`
  -- keeps it. The result is `ldexp` of a quotient of exactly 53 bits and an exponent: no integer is
  -- nearer to the scaled fraction than the quotient, and where two are as near the quotient is even. The
  -- fraction is at most a quarter below 2 ^ 52, so no double of the next smaller exponent is nearer.
  pub ratio_to_double-IsNearest :
      (fuel : ℕ) (num den : g.Mpz) (k : ℕ)
      → 0 < value num
      → 0 < value den
      → k ≤ 2 ^ 30
      → value num < value den * 2 ^ k
      → value den < value num * 2 ^ k
      → (q : g.Mpz) × (s : ℤ) × (ratio_to_double g (suc (suc fuel)) num den
          ≡ some (g.ldexp (g.mpz_get_d q) (pos 0 -ℤ s)))
        × (2 ^ 52 ≤ value q)
        × (value q < 2 ^ 53)
        × IsNearest (value q) (value num * 2 ^ pos_part s) (value den * 2 ^ neg_part s)
        × InReach (value num * 2 ^ pos_part s) (value den * 2 ^ neg_part s)
  unfolding ratio_to_double quotient round
  ratio_to_double-IsNearest fuel num den k pn pd few below above =
      let (x, lo, hi) = first_bounds g laws num den pn pd in
      let start = first_scale g num den in
      let (y, j, stops, small, scaled, lo', hi') =
        shrink-IsScaled g laws fuel (value num) (value den) start x lo hi in
      let (low, high, near, reach) =
        round-IsRounded (value num) (value den) j y small scaled lo' hi' in
      let r = round g y in
      let kept =
        wrap-exponent (value num) (value den) k (value r.q) r.s few below above low high near in
      (
        r.q,
        r.s,
        rw (laws.sgn-pos num pn, grow-stops g laws (suc fuel) start lo, stops)
            (ap (λ (z : ℤ). some (g.ldexp (g.mpz_get_d r.q) z)) kept),
        low,
        high,
        near,
        reach,
      )
