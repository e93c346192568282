-- ===== src/Integer/Shift.antt =====
-- The shifts of `Integer`, `idris2rc2_shiftl_Integer` and `idris2rc2_shiftr_Integer`, with their
-- slow path.
use idris2_rc.Prelude.{
  ℕ, suc, ◌+◌, ◌-◌, ◌*◌, ◌/◌, ◌%◌, ◌^◌, ◌≤◌, ◌<◌, ◌≡◌, refl, sym, ap, ap₂, ◌∙◌, inl, inr, Bool,
  true, false, ◌&&◌, [], ◌∷◌, ltb, arith, if◌then◌else◌, Bool-cases,
}
use native.Mathlib.Nat.{div-add-mod, mod-lt, div-eq_of_lt, pow-le-pow_right, div-le_self}
use idris2_rc.Prelude.Int.{ℤ, pos, negsuc, nat_abs, leb_ℤ, ◌*ℤ◌, *ℤ_parts, eq_of_parts}
use idris2_rc.Division.{is_negative, to_bits, of_bits}
use idris2_rc.FixedInt.{shift_down}
use idris2_rc.FixedInt.Wrap.{to_bits-of_bits}
use idris2_rc.Integer.Mpz.{Gmp, GmpLaws}
use idris2_rc.Integer.{
  Integer, packed, boxed, imm_signed, Outcome, left, right, fresh, is_unique, packed_result,
  fits_i64, mk_integer_i64, integer_view, normalize,
}
use idris2_rc.Integer.Canonical.{
  IsSmall, int_value, IsCanonical, Represents, packed-Represents, mk_integer_i64-Represents,
  value-integer_view, normalize-Represents, packed-IsSmall,
}

abbrev same_int : ℤ → ℤ → Bool
same_int a b = leb_ℤ a b && leb_ℤ b a

module _ (g : Gmp) where
  unfoldable pub shift_slow : (x y : Integer g.Mpz) (left_shift : Bool) → Outcome g.Mpz
  unfolding normalize integer_view
  shift_slow x y left_shift =
      let xv = integer_view g x in
      let count = g.mpz_get_ui (integer_view g y) in
      let dst = if is_unique x then left else fresh in
      let shifted = if left_shift then g.mpz_mul_2exp xv count else g.mpz_fdiv_q_2exp xv count in
      normalize g dst (if is_unique x then right ∷ [] else left ∷ right ∷ []) shifted

  -- `c < 0 ? -c : c` of a small number is its magnitude.
  unfoldable pub shiftl_integer : (x y : Integer g.Mpz) → Outcome g.Mpz
  unfolding shift_slow mk_integer_i64
  shiftl_integer (packed p) (packed q) =
      let a = imm_signed p in
      let c = nat_abs (imm_signed q) in
      let r = of_bits 64 (to_bits 64 a * 2 ^ c % 2 ^ 64) in
      if ltb c 62 && same_int (shift_down r c) a
      then mk_integer_i64 g r
      else shift_slow (packed p) (packed q) true
  shiftl_integer x y = shift_slow x y true

  unfoldable pub shiftr_integer : (x y : Integer g.Mpz) → Outcome g.Mpz
  unfolding shift_slow
  shiftr_integer (packed p) (packed q) =
      let c = nat_abs (imm_signed q) in
      packed_result (shift_down (imm_signed p) (if ltb 63 c then 63 else c))
  shiftr_integer x y = shift_slow x y false

power : (c : ℕ) → c < 62 → (0 < 2 ^ c) × (2 ^ c ≤ 2 ^ 62)
power c h = (
  pow-le-pow_right {n = 2} (omega arith) {i = 0} {j = c} (omega arith),
  pow-le-pow_right {n = 2} (omega arith) {i = c} {j = 62} (omega arith),
)

apart_lem : (m n : ℕ) → negsuc m ≡ pos n → ⊥
apart_lem m n e = let s : true ≡ false = ap is_negative e in cc

no_rest : (n m p : ℕ) → (0 < p) × (p ≤ 2 ^ 62) → m / p ≡ n → m % 2 ^ 64 ≡ n * p % 2 ^ 64 → m ≡ n * p
no_rest n m p h quot e =
    let split : p * n + m % p ≡ m = ap (λ (t : ℕ). p * t + m % p) (sym quot) ∙ div-add-mod m p in
    omega (arith, split, mod-lt m {m = p} h.0)

full_rest :
    (n m p : ℕ)
    → (0 < p) × (p ≤ 2 ^ 62)
    → m / p ≡ n
    → n < 2 ^ 64
    → 2 ^ 64 - 1 - m % 2 ^ 64 ≡ (2 ^ 64 - 1 - n) * p % 2 ^ 64
    → suc m ≡ suc n * p
full_rest n m p h quot low e =
    let split : p * n + m % p ≡ m = ap (λ (t : ℕ). p * t + m % p) (sym quot) ∙ div-add-mod m p in
    let sum : (2 ^ 64 - 1 - n + suc n) * p ≡ 2 ^ 64 * p = ap (λ (t : ℕ). t * p) (omega arith) in
    let parts : (2 ^ 64 - 1 - n) * p + suc n * p ≡ 2 ^ 64 * p = omega (arith, sum) in
    omega (arith, split, parts, mod-lt m {m = p} h.0)

-- A shift to the left by less than 62 that is undone by a shift to the right has lost nothing.
no_loss :
    (a r : ℤ) (c : ℕ)
    → c < 62
    → to_bits 64 r ≡ to_bits 64 a * 2 ^ c % 2 ^ 64
    → shift_down r c ≡ a
    → IsSmall a
    → r ≡ a *ℤ pos (2 ^ c)
unfolding to_bits
no_loss (pos n) (pos m) c h e back small =
    let quot : m / 2 ^ c ≡ n = ap nat_abs back in
    let whole : n % 2 ^ 64 ≡ n = omega arith in
    let same : m ≡ n * 2 ^ c = no_rest n m (2 ^ c) (power c h) quot (rw whole at e) in
    eq_of_parts _ _ (omega (arith, same, *ℤ_parts (pos n) (pos (2 ^ c))))
no_loss (pos n) (negsuc m) c h e back small = absurd (apart_lem _ _ back)
no_loss (negsuc n) (pos m) c h e back small = absurd (apart_lem _ _ (sym back))
no_loss (negsuc n) (negsuc m) c h e back small =
    let quot : m / 2 ^ c ≡ n = omega (arith, ap nat_abs back) in
    let whole : n % 2 ^ 64 ≡ n = omega arith in
    let same : suc m ≡ suc n * 2 ^ c =
      full_rest n m (2 ^ c) (power c h) quot (omega arith) (rw whole at e) in
    eq_of_parts _ _ (omega (arith, same, *ℤ_parts (negsuc n) (pos (2 ^ c))))

-- More than 63 places leave what 63 leave of a small number.
far_shift : (x : ℤ) (c : ℕ) → IsSmall x → shift_down x (if ltb 63 c then 63 else c) ≡ shift_down x c
far_shift x c h = elim (Bool-cases (ltb 63 c)) [
  | inl far ↦ rw far (both x (far_power c (ground arith)) h)
  | inr near ↦ rw near refl
]
  where
    far_power : (c : ℕ) → 63 ≤ c → 2 ^ 63 ≤ 2 ^ c
    far_power c h = pow-le-pow_right {n = 2} (omega arith) h

    both : (x : ℤ) → 2 ^ 63 ≤ 2 ^ c → IsSmall x → shift_down x 63 ≡ shift_down x c
    both (pos n) p h =
        let none : n / 2 ^ c ≡ 0 = div-eq_of_lt (omega arith) in rw none (ap pos (omega arith))
    both (negsuc n) p h =
        let none : n / 2 ^ c ≡ 0 = div-eq_of_lt (omega arith) in rw none (ap negsuc (omega arith))

same_int-eq : (x y : ℤ) → same_int x y ≡ true → x ≡ y
same_int-eq x y h = eq_of_parts x y (ground arith)

and_left : (c : ℕ) (b : Bool) → (ltb c 62 && b) ≡ true → c < 62
and_left c b h = ground arith

and_right : (b : Bool) (x y : ℤ) → (b && same_int x y) ≡ true → x ≡ y
and_right true x y h = same_int-eq x y h
and_right false x y h = absurd (cc)

fits_of_bits : (u : ℕ) → u < 2 ^ 64 → fits_i64 (of_bits 64 u) ≡ true
unfolding of_bits
fits_of_bits u h = elim (Bool-cases (ltb u (2 ^ 63))) [
  | inl low ↦ rw low (ground arith)
  | inr high ↦ rw high (ground arith)
]

shift_down-IsSmall : (x : ℤ) (c : ℕ) → IsSmall x → IsSmall (shift_down x c)
shift_down-IsSmall (pos n) c h = omega (arith, div-le_self n (2 ^ c))
shift_down-IsSmall (negsuc n) c h = omega (arith, div-le_self n (2 ^ c))

module _ (g : Gmp) (l : GmpLaws g) where
  count_lem :
      (y : Integer g.Mpz)
      → IsCanonical g l y
      → nat_abs (int_value g l y) < 2 ^ 64
      → g.mpz_get_ui (integer_view g y) ≡ nat_abs (int_value g l y)
  count_lem y hy h =
      l.value-get_ui (integer_view g y)
      ∙ (ap (λ (v : ℤ). nat_abs v % 2 ^ 64) (value-integer_view g l y hy) ∙ omega (arith, h))

  slow_left :
      (x y : Integer g.Mpz)
      → IsCanonical g l x
      → IsCanonical g l y
      → nat_abs (int_value g l y) < 2 ^ 64
      → Represents g l
          (shift_slow g x y true)
          (int_value g l x *ℤ pos (2 ^ nat_abs (int_value g l y)))
  unfolding shift_slow
  slow_left x y hx hy h =
      let e =
        l.value-mul_2exp (integer_view g x) (g.mpz_get_ui (integer_view g y))
        ∙ ap₂ (λ (a : ℤ) (n : ℕ). a *ℤ pos (2 ^ n)) (value-integer_view g l x hx)
            (count_lem y hy h) in
      rw (← e) (normalize-Represents g l _ _ _)

  slow_right :
      (x y : Integer g.Mpz)
      → IsCanonical g l x
      → IsCanonical g l y
      → nat_abs (int_value g l y) < 2 ^ 64
      → Represents g l
          (shift_slow g x y false)
          (shift_down (int_value g l x) (nat_abs (int_value g l y)))
  unfolding shift_slow
  slow_right x y hx hy h =
      let e =
        l.value-fdiv_q_2exp (integer_view g x) (g.mpz_get_ui (integer_view g y))
        ∙ ap₂ shift_down (value-integer_view g l x hx) (count_lem y hy h) in
      rw (← e) (normalize-Represents g l _ _ _)

  -- The shifts of integers of any size, by the magnitude of the second, which is less than `2 ^ 64`:
  -- to the left they multiply by the power of two, to the right they divide by it and round down, and
  -- the result is in its one form. This holds for GMP as its manual says.
  pub shift_integer-Represents :
      (x y : Integer g.Mpz)
      → IsCanonical g l x
      → IsCanonical g l y
      → nat_abs (int_value g l y) < 2 ^ 64
      → Represents g l
          (shiftl_integer g x y)
          (int_value g l x *ℤ pos (2 ^ nat_abs (int_value g l y)))
        × Represents g l
            (shiftr_integer g x y)
            (shift_down (int_value g l x) (nat_abs (int_value g l y)))
  unfolding shiftl_integer shiftr_integer int_value
  shift_integer-Represents (packed p) (packed q) hx hy h =
      let a = imm_signed p in
      let c = nat_abs (imm_signed q) in
      let small = packed-IsSmall g l p hx in
      let u = to_bits 64 a * 2 ^ c % 2 ^ 64 in
      let r = of_bits 64 u in
      (
        elim (Bool-cases (ltb c 62 && same_int (shift_down r c) a)) [
          | inl kept ↦
              let near : c < 62 = and_left _ _ kept in
              let back : shift_down r c ≡ a = and_right _ _ _ kept in
              let value = no_loss a r c near (to_bits-of_bits 63 u (omega arith)) back small in
              rw kept
                (rw (← value) (mk_integer_i64-Represents g l r (fits_of_bits u (omega arith))))
          | inr lost ↦ rw lost (slow_left (packed p) (packed q) hx hy h)
        ],
        rw (far_shift a c small)
            (packed-Represents g l (shift_down a c) [] [] (shift_down-IsSmall a c small)),
      )
  shift_integer-Represents (packed p) (boxed m z) hx hy h =
      (slow_left (packed p) (boxed m z) hx hy h, slow_right (packed p) (boxed m z) hx hy h)
  shift_integer-Represents (boxed m z) y hx hy h =
      (slow_left (boxed m z) y hx hy h, slow_right (boxed m z) y hx hy h)
