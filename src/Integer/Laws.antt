-- ===== src/Integer/Laws.antt =====
-- The operations of `Integer` compute in the integers, whatever the form of their operands.
use idris2_rc.Prelude.{
  ◌≡◌, ◌≢◌, inl, inr, refl, sym, ap₂, ◌∙◌, true, [], arith, if◌then◌else◌, Bool-cases,
}
use idris2_rc.Prelude.Int.{ℤ, pos, nat_abs, ◌+ℤ◌, ◌-ℤ◌, ◌*ℤ◌}
use idris2_rc.Prelude.Run.{ok, ◌>>=◌}
use idris2_rc.Division.{is_negative, crem}
use idris2_rc.Division.Euclid.{IsEuclid, euclid_div, euclid_mod, euclid_div-IsEuclid}
use idris2_rc.Integer.Mpz.{Gmp, GmpLaws}
use idris2_rc.Integer.{
  Integer, packed, boxed, imm_signed, packed_result, fits_i64, int64, mk_integer_i64, integer_view,
  place, drop_others, binop_slow, negate_slow, add_integer, sub_integer, mul_integer, mod_integer,
  negate_integer, div_slow, div_integer,
}
use idris2_rc.Integer.Words.{
  sum_fits, rest_out, divisor_some, magnitude, magnitude_fits, rest-IsSmall, rest_fits, quot_fits,
  adjusted_lem, adjusted_fits,
}
use idris2_rc.Integer.Canonical.{
  int_value, IsCanonical, Computes, packed-Represents, mk_integer_i64-Represents,
  value-integer_view, normalize-Represents, packed-IsSmall,
}

module _ (g : Gmp) (l : GmpLaws g) where
  slow-Computes :
      (fn : g.Mpz → g.Mpz → g.Mpz) (op : ℤ → ℤ → ℤ) (x y : Integer g.Mpz)
      → ((a b : g.Mpz) → l.value (fn a b) ≡ op (l.value a) (l.value b))
      → IsCanonical g l x
      → IsCanonical g l y
      → Computes g l (ok (binop_slow g fn x y)) (op (int_value g l x) (int_value g l y))
  unfolding Computes binop_slow
  slow-Computes fn op x y law hx hy =
      let e =
        law (integer_view g x) (integer_view g y)
        ∙ ap₂ op (value-integer_view g l x hx) (value-integer_view g l y hy) in
      (
        binop_slow g fn x y,
        refl,
        rw (← e) (normalize-Represents g l (place g x y) (drop_others g (place g x y)) _),
      )

  fast-Computes :
      (x : ℤ) → fits_i64 x ≡ true → Computes g l (int64 x >>= λ n. ok (mk_integer_i64 g n)) x
  unfolding Computes
  fast-Computes x h = rw h (mk_integer_i64 g x, refl, mk_integer_i64-Represents g l x h)

  add_integer-sum :
      (x y : Integer g.Mpz)
      → IsCanonical g l x
      → IsCanonical g l y
      → Computes g l (add_integer g x y) (int_value g l x +ℤ int_value g l y)
  unfolding add_integer int_value
  add_integer-sum (packed p) (packed q) hx hy =
      fast-Computes _ (sum_fits _ _ (packed-IsSmall g l p hx) (packed-IsSmall g l q hy)).0
  add_integer-sum (packed p) (boxed m z) hx hy =
      slow-Computes g.mpz_add (λ a b. a +ℤ b) _ _ l.value-add hx hy
  add_integer-sum (boxed m z) y hx hy =
      slow-Computes g.mpz_add (λ a b. a +ℤ b) _ _ l.value-add hx hy

  sub_integer-difference :
      (x y : Integer g.Mpz)
      → IsCanonical g l x
      → IsCanonical g l y
      → Computes g l (sub_integer g x y) (int_value g l x -ℤ int_value g l y)
  unfolding sub_integer int_value
  sub_integer-difference (packed p) (packed q) hx hy =
      fast-Computes _ (sum_fits _ _ (packed-IsSmall g l p hx) (packed-IsSmall g l q hy)).1
  sub_integer-difference (packed p) (boxed m z) hx hy =
      slow-Computes g.mpz_sub (λ a b. a -ℤ b) _ _ l.value-sub hx hy
  sub_integer-difference (boxed m z) y hx hy =
      slow-Computes g.mpz_sub (λ a b. a -ℤ b) _ _ l.value-sub hx hy

  mul_integer-product :
      (x y : Integer g.Mpz)
      → IsCanonical g l x
      → IsCanonical g l y
      → Computes g l (mul_integer g x y) (int_value g l x *ℤ int_value g l y)
  unfolding mul_integer int_value Computes
  mul_integer-product (packed p) (packed q) hx hy =
      let r = imm_signed p *ℤ imm_signed q in
      elim (Bool-cases (fits_i64 r)) [
        | inl fits ↦ rw fits (mk_integer_i64 g r, refl, mk_integer_i64-Represents g l r fits)
        | inr over ↦
            rw over
              (slow-Computes g.mpz_mul (λ a b. a *ℤ b) (packed p) (packed q) l.value-mul hx hy)
      ]
  mul_integer-product (packed p) (boxed m z) hx hy =
      slow-Computes g.mpz_mul (λ a b. a *ℤ b) _ _ l.value-mul hx hy
  mul_integer-product (boxed m z) y hx hy =
      slow-Computes g.mpz_mul (λ a b. a *ℤ b) _ _ l.value-mul hx hy

  negate_integer-opposite :
      (x : Integer g.Mpz)
      → IsCanonical g l x
      → Computes g l (negate_integer g x) (pos 0 -ℤ int_value g l x)
  unfolding negate_integer int_value Computes negate_slow integer_view
  negate_integer-opposite (packed p) hx =
      fast-Computes _ (sum_fits (pos 0) _ (omega arith) (packed-IsSmall g l p hx)).1
  negate_integer-opposite (boxed m z) hx =
      (negate_slow g (boxed m z), refl, rw (← l.value-neg z) (normalize-Represents g l _ _ _))

  slow_mod :
      (x y : Integer g.Mpz)
      → IsCanonical g l x
      → IsCanonical g l y
      → int_value g l y ≢ pos 0
      → (q r : ℤ) × IsEuclid (int_value g l x) (int_value g l y) q r
        × Computes g l (ok (binop_slow g g.mpz_mod x y)) r
  unfolding Computes binop_slow
  slow_mod x y hx hy ne =
      let vx = value-integer_view g l x hx in
      let vy = value-integer_view g l y hy in
      let (q, e) = l.value-mod (integer_view g x) (integer_view g y) (λ z. ne (sym vy ∙ z)) in
      (
        q,
        l.value (g.mpz_mod (integer_view g x) (integer_view g y)),
        rw (← vx, ← vy) e,
        (binop_slow g g.mpz_mod x y, refl, normalize-Represents g l _ _ _),
      )

  slow_div :
      (x y : Integer g.Mpz)
      → IsCanonical g l x
      → IsCanonical g l y
      → int_value g l y ≢ pos 0
      → (q r : ℤ) × IsEuclid (int_value g l x) (int_value g l y) q r
        × Computes g l (ok (div_slow g x y)) q
  unfolding Computes div_slow
  slow_div x y hx hy ne =
      let vx = value-integer_view g l x hx in
      let vy = value-integer_view g l y hy in
      let some = λ (z : l.value (integer_view g y) ≡ pos 0). ne (sym vy ∙ z) in
      let (q, e) = l.value-mod (integer_view g x) (integer_view g y) some in
      let exact =
        l.value-divexact _ (integer_view g y) q some
          (l.value-sub _ _ ∙ rest_out _ _ _ _ e.splits) in
      (
        q,
        l.value (g.mpz_mod (integer_view g x) (integer_view g y)),
        rw (← vx, ← vy) e,
        (div_slow g x y, refl, rw (← exact) (normalize-Represents g l _ _ _)),
      )

  rest_ok :
      (a b : ℤ)
      → fits_i64 (euclid_mod a b) ≡ true
      → (int64 (if is_negative (crem a b) then crem a b +ℤ pos (nat_abs b) else crem a b)
          >>= λ rest. ok (packed_result {M = g.Mpz} rest))
        ≡ ok (packed_result (euclid_mod a b))
  unfolding euclid_mod
  rest_ok a b h = rw h refl

  mod_integer-rest :
      (x y : Integer g.Mpz)
      → IsCanonical g l x
      → IsCanonical g l y
      → int_value g l y ≢ pos 0
      → (q r : ℤ) × IsEuclid (int_value g l x) (int_value g l y) q r
        × Computes g l (mod_integer g x y) r
  unfolding mod_integer int_value Computes
  mod_integer-rest (packed p) (packed q) hx hy ne =
      let a = imm_signed p in
      let b = imm_signed q in
      let sa = packed-IsSmall g l p hx in
      let sb = packed-IsSmall g l q hy in
      (
        euclid_div a b,
        euclid_mod a b,
        euclid_div-IsEuclid a b ne,
        (
          packed_result (euclid_mod a b),
          rw
              (
                divisor_some a b sa sb ne b ne,
                magnitude a b sa sb ne b sb,
                magnitude_fits a b sa sb ne,
              )
              (rest_ok a b (rest_fits a b sa sb ne)),
          packed-Represents g l (euclid_mod a b) [] [] (rest-IsSmall a b sa sb ne),
        ),
      )
  mod_integer-rest (packed p) (boxed m z) hx hy ne = slow_mod (packed p) (boxed m z) hx hy ne
  mod_integer-rest (boxed m z) y hx hy ne = slow_mod (boxed m z) y hx hy ne

  div_integer-quotient :
      (x y : Integer g.Mpz)
      → IsCanonical g l x
      → IsCanonical g l y
      → int_value g l y ≢ pos 0
      → (q r : ℤ) × IsEuclid (int_value g l x) (int_value g l y) q r
        × Computes g l (div_integer g x y) q
  unfolding div_integer int_value Computes
  div_integer-quotient (packed p) (packed q) hx hy ne =
      let a = imm_signed p in
      let b = imm_signed q in
      let sa = packed-IsSmall g l p hx in
      let sb = packed-IsSmall g l q hy in
      let fits = adjusted_fits a b sa sb ne in
      (
        euclid_div a b,
        euclid_mod a b,
        euclid_div-IsEuclid a b ne,
        (
          mk_integer_i64 g (euclid_div a b),
          rw
              (
                divisor_some a b sa sb ne b ne,
                quot_fits a b sa sb ne,
                adjusted_lem a b sa sb ne,
                fits,
              )
              refl,
          mk_integer_i64-Represents g l (euclid_div a b) fits,
        ),
      )
  div_integer-quotient (packed p) (boxed m z) hx hy ne = slow_div (packed p) (boxed m z) hx hy ne
  div_integer-quotient (boxed m z) y hx hy ne = slow_div (boxed m z) y hx hy ne

  -- Addition, subtraction, multiplication and negation of integers of any size, packed or boxed: no
  -- `int64_t` overflows, the result stands for what the operation gives in the integers, and it is in
  -- its one form, so in the word exactly where it fits. This holds for GMP as its manual says.
  pub integer_ops-Computes :
      (x y : Integer g.Mpz)
      → IsCanonical g l x
      → IsCanonical g l y
      → Computes g l (add_integer g x y) (int_value g l x +ℤ int_value g l y)
        × Computes g l (sub_integer g x y) (int_value g l x -ℤ int_value g l y)
        × Computes g l (mul_integer g x y) (int_value g l x *ℤ int_value g l y)
        × Computes g l (negate_integer g x) (pos 0 -ℤ int_value g l x)
  integer_ops-Computes x y hx hy = (
    add_integer-sum x y hx hy,
    sub_integer-difference x y hx hy,
    mul_integer-product x y hx hy,
    negate_integer-opposite x hx,
  )

  -- Division and remainder of integers of any size by one that is not 0: the results are a quotient
  -- and a remainder of Euclid's division, in their one form, and no `int64_t` overflows. This holds
  -- for GMP as its manual says.
  pub div_mod_integer-IsEuclid :
      (x y : Integer g.Mpz)
      → IsCanonical g l x
      → IsCanonical g l y
      → int_value g l y ≢ pos 0
      → ((q r : ℤ) × IsEuclid (int_value g l x) (int_value g l y) q r
          × Computes g l (div_integer g x y) q)
        × ((q r : ℤ) × IsEuclid (int_value g l x) (int_value g l y) q r
            × Computes g l (mod_integer g x y) r)
  div_mod_integer-IsEuclid x y hx hy ne =
      (div_integer-quotient x y hx hy ne, mod_integer-rest x y hx hy ne)
