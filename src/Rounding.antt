-- ===== src/Rounding.antt =====
-- `idris2rc2_ratio_to_double` of rc2/support/rc2/idris2rc2_numeric.c: the double next to a quotient of
-- two positive integers, on which the casts from strings and from Integer to Double stand. GMP and the
-- floating-point functions of C are the parameter of Rounding/Mpz. The numbers have fewer than 2 ^ 62
-- bits, so no `long` wraps; the cast of the exponent to `int` does, where it does not fit.
pub mod Mpz
pub mod Nearest
pub mod Powers
pub mod Scaling
pub mod Laws
pub mod Unique
pub mod Range
pub mod Model
mod Examples
use idris2_rc.Prelude.{
  ℕ, zero, suc, Bool, true, false, ◌&&◌, ◌||◌, Option, none, some, ltb, if◌then◌else◌, ◌>>=◌,
}
use idris2_rc.Prelude.Int.{ℤ, pos, negsuc, ◌+ℤ◌, ◌-ℤ◌, ltb_ℤ}
use idris2_rc.Division.{wrap}
use idris2_rc.Rounding.Mpz.{Arith}

-- The local variables.
pub record Scaled (Mpz : Type 0) : Type 0 where
  pub num : Mpz
  pub den : Mpz
  pub q : Mpz
  pub r : Mpz
  pub s : ℤ

abbrev pub is_zero : ℤ → Bool
is_zero (pos zero) = true
is_zero n = false

module _ (g : Arith) where
  unfoldable pub fdiv : g.Mpz → g.Mpz → ℤ → Scaled g.Mpz
  fdiv num den s =
      let (q, r) = g.mpz_fdiv_qr num den in record { num = num; den = den; q = q; r = r; s = s }

  -- `num * 2 ^ s`, or `den * 2 ^ -s`, with the first quotient.
  unfoldable pub scale : g.Mpz → g.Mpz → ℤ → Scaled g.Mpz
  unfolding fdiv
  scale num den (pos n) = fdiv (g.mpz_mul_2exp num n) den (pos n)
  scale num den (negsuc n) = fdiv num (g.mpz_mul_2exp den (suc n)) (negsuc n)

  unfoldable pub first_scale : g.Mpz → g.Mpz → Scaled g.Mpz
  unfolding scale
  first_scale num den =
      scale num den (pos 53 -ℤ (pos (g.mpz_sizeinbase num 2) -ℤ pos (g.mpz_sizeinbase den 2)))

  -- The two loops that pin the quotient; `none` is fuel that ran out.
  unfoldable pub grow_loop : ℕ → Scaled g.Mpz → Option (Scaled g.Mpz)
  unfolding fdiv
  grow_loop zero x = none
  grow_loop (suc fuel) x =
      let rest = grow_loop fuel (fdiv (g.mpz_mul_2exp x.num 1) x.den (x.s +ℤ pos 1)) in
      if ltb (g.mpz_sizeinbase x.q 2) 53 then rest else some x

  unfoldable pub shrink_loop : ℕ → Scaled g.Mpz → Option (Scaled g.Mpz)
  unfolding fdiv
  shrink_loop zero x = none
  shrink_loop (suc fuel) x =
      let rest = shrink_loop fuel (fdiv x.num (g.mpz_mul_2exp x.den 1) (x.s -ℤ pos 1)) in
      if ltb 53 (g.mpz_sizeinbase x.q 2) then rest else some x

  -- A quotient that was rounded up to 54 bits loses one.
  unfoldable pub carry : Scaled g.Mpz → Scaled g.Mpz
  carry x =
      if ltb 53 (g.mpz_sizeinbase x.q 2)
      then record x { q = g.mpz_fdiv_q_2exp x.q 1; s = x.s -ℤ pos 1 }
      else x

  unfoldable pub round : Scaled g.Mpz → Scaled g.Mpz
  unfolding carry
  round x =
      let c = g.mpz_cmp (g.mpz_mul_2exp x.r 1) x.den in
      if ltb_ℤ (pos 0) c || (is_zero c && g.mpz_odd_p x.q)
      then carry (record x { q = g.mpz_add_ui x.q 1 })
      else x

  -- Up to the rounded quotient.
  unfoldable pub quotient : ℕ → g.Mpz → g.Mpz → Option (Scaled g.Mpz)
  unfolding first_scale grow_loop shrink_loop round
  quotient fuel num den = do
    x ← grow_loop fuel (first_scale num den)
    y ← shrink_loop fuel x
    some (round y)

  unfoldable pub ratio_to_double : ℕ → g.Mpz → g.Mpz → Option g.Double
  unfolding quotient wrap
  ratio_to_double fuel num den =
      let nearest : Option g.Double = (do
        x ← quotient fuel num den
        some (g.ldexp (g.mpz_get_d x.q) (wrap 32 (pos 0 -ℤ x.s)))) in
      if is_zero (g.mpz_sgn num) then some g.zero_double else nearest
