-- ===== src/Integer/Order.antt =====
-- The comparisons of `Integer` are those of the numbers.
use idris2_rc.Prelude.{
  ℕ, ◌+◌, ◌-◌, ◌*◌, ◌%◌, ◌^◌, ◌≡◌, ◌≢◌, ◌↔◌, inl, inr, sym, ap, ◌∙◌, true, not, arith,
  if◌then◌else◌, ==_iff,
}
use idris2_rc.Prelude.Int.{ℤ, pos, negsuc, pos_part, neg_part, leb_ℤ, ltb_ℤ, ◌-ℤ◌, eq_of_parts}
use idris2_rc.Strings.{to_size}
use idris2_rc.Division.{is_negative}
use idris2_rc.Immediate.{immediate, signed}
use idris2_rc.Immediate.Laws.{immediate-sum, signed-pos, signed-negsuc}
use idris2_rc.Integer.Mpz.{Gmp, GmpLaws}
use idris2_rc.Integer.{
  Integer, packed, boxed, imm_signed, imm_int64, is_zero, cmp_slow, integer_cmp, lt_integer_raw,
  gt_integer_raw, lte_integer_raw, gte_integer_raw, eq_integer_raw,
}
use idris2_rc.Integer.Canonical.{
  IsSmall, IsLarge, int_value, IsCanonical, value-integer_view, packed-IsSmall,
  imm_signed-imm_int64,
}

-- A word as a signed number: twice the number that it carries, and one.
doubled : ℤ → ℤ
doubled (pos n) = pos (n * 2 + 1)
doubled (negsuc n) = negsuc (n * 2)

signed-imm_int64 : (x : ℤ) → IsSmall x → signed 64 (imm_int64 x) ≡ doubled x
unfolding doubled imm_int64 to_size
signed-imm_int64 (pos n) h =
    let sum : immediate (n % 2 ^ 64) ≡ n * 2 + 1 = omega (arith, immediate-sum (n % 2 ^ 64)) in
    rw sum (signed-pos (n * 2 + 1) (omega arith))
signed-imm_int64 (negsuc n) h =
    let sum : immediate (2 ^ 64 - 1 - n % 2 ^ 64) ≡ 2 ^ 64 - 1 - n * 2 =
      omega (arith, immediate-sum (2 ^ 64 - 1 - n % 2 ^ 64)) in
    rw sum (signed-negsuc (2 ^ 64 - 1 - n * 2) (omega arith) ∙ ap negsuc (omega arith))

doubled_order : (x y : ℤ) → ltb_ℤ (doubled x) (doubled y) ≡ ltb_ℤ x y
unfolding doubled
doubled_order (pos m) (pos n) = ground arith
doubled_order (pos m) (negsuc n) = ground arith
doubled_order (negsuc m) (pos n) = ground arith
doubled_order (negsuc m) (negsuc n) = ground arith

-- `(x > y) - (x < y)`.
sign_lem :
    (x y : ℤ)
    → (is_negative (pos (if ltb_ℤ y x then 1 else 0) -ℤ pos (if ltb_ℤ x y then 1 else 0))
        ≡ ltb_ℤ x y)
      × (ltb_ℤ (pos 0) (pos (if ltb_ℤ y x then 1 else 0) -ℤ pos (if ltb_ℤ x y then 1 else 0))
          ≡ ltb_ℤ y x)
unfolding ◌-ℤ◌
sign_lem x y = ground arith

not_ltb : (x y : ℤ) → not (ltb_ℤ y x) ≡ leb_ℤ x y
not_ltb x y = ground arith

not_positive :
    (c : ℤ) → (leb_ℤ c (pos 0) ≡ not (ltb_ℤ (pos 0) c)) × (leb_ℤ (pos 0) c ≡ not (is_negative c))
not_positive (pos n) = ground arith
not_positive (negsuc n) = ground arith

apart : (x y : ℤ) → IsSmall x → IsLarge y → x ≢ y
apart x y hx hy e =
    let hy' : IsLarge x = rw e hy in
    elim hy' [ inl low ↦ omega (arith, low) | inr high ↦ omega (arith, high) ]

-- A sign that agrees with the order says whether the numbers are the same.
zero_iff :
    (c x y : ℤ)
    → is_negative c ≡ ltb_ℤ x y
    → ltb_ℤ (pos 0) c ≡ ltb_ℤ y x
    → (is_zero c ≡ true) ↔ (x ≡ y)
zero_iff c x y neg more =
    (λ z. eq_of_parts x y (sides c neg more z), λ e. zero c (rw e at neg) (rw e at more))
  where
    sides :
        (c : ℤ)
        → is_negative c ≡ ltb_ℤ x y
        → ltb_ℤ (pos 0) c ≡ ltb_ℤ y x
        → is_zero c ≡ true
        → pos_part x + neg_part y ≡ pos_part y + neg_part x
    sides (pos n) neg more z = ground arith
    sides (negsuc n) neg more z = absurd (ground arith)

    zero : (c : ℤ) → is_negative c ≡ ltb_ℤ y y → ltb_ℤ (pos 0) c ≡ ltb_ℤ y y → is_zero c ≡ true
    zero (pos n) neg more = ground arith
    zero (negsuc n) neg more = absurd (ground arith)

module _ (g : Gmp) (l : GmpLaws g) where
  word_lem :
      (p : ℕ)
      → IsCanonical g l (packed p)
      → (signed 64 p ≡ doubled (imm_signed p)) × (p ≡ imm_int64 (imm_signed p))
  unfolding IsCanonical
  word_lem p h =
      let (x, small, e) = h in
      let back : imm_signed p ≡ x = ap imm_signed e ∙ imm_signed-imm_int64 x small in
      (rw back (ap (signed 64) e ∙ signed-imm_int64 x small), rw back e)

  IsSign : ℤ → (x y : Integer g.Mpz) → Type 0
  IsSign c x y =
      (is_negative c ≡ ltb_ℤ (int_value g l x) (int_value g l y))
      × (ltb_ℤ (pos 0) c ≡ ltb_ℤ (int_value g l y) (int_value g l x))

  slow-IsSign :
      (x y : Integer g.Mpz) → IsCanonical g l x → IsCanonical g l y → IsSign (cmp_slow g x y) x y
  unfolding IsSign cmp_slow
  slow-IsSign x y hx hy =
      rw (← value-integer_view g l x hx, ← value-integer_view g l y hy)
        (l.cmp-negative _ _, l.cmp-positive _ _)

  cmp-IsSign :
      (x y : Integer g.Mpz) → IsCanonical g l x → IsCanonical g l y → IsSign (integer_cmp g x y) x y
  unfolding IsSign integer_cmp int_value
  cmp-IsSign (packed p) (packed q) hx hy =
      rw
        (
          (word_lem p hx).0,
          (word_lem q hy).0,
          ← doubled_order (imm_signed p) (imm_signed q),
          ← doubled_order (imm_signed q) (imm_signed p),
        )
        (sign_lem (doubled (imm_signed p)) (doubled (imm_signed q)))
  cmp-IsSign (packed p) (boxed m z) hx hy = slow-IsSign (packed p) (boxed m z) hx hy
  cmp-IsSign (boxed m z) y hx hy = slow-IsSign (boxed m z) y hx hy

  integer_raw-order :
      (x y : Integer g.Mpz)
      → IsCanonical g l x
      → IsCanonical g l y
      → (lt_integer_raw g x y ≡ ltb_ℤ (int_value g l x) (int_value g l y))
        × (gt_integer_raw g x y ≡ ltb_ℤ (int_value g l y) (int_value g l x))
        × (lte_integer_raw g x y ≡ leb_ℤ (int_value g l x) (int_value g l y))
        × (gte_integer_raw g x y ≡ leb_ℤ (int_value g l y) (int_value g l x))
  unfolding IsSign lt_integer_raw gt_integer_raw lte_integer_raw gte_integer_raw
  integer_raw-order x y hx hy =
      let s = cmp-IsSign x y hx hy in
      let n = not_positive (integer_cmp g x y) in
      (
        s.0,
        s.1,
        n.0 ∙ (ap not s.1 ∙ not_ltb (int_value g l x) (int_value g l y)),
        n.1 ∙ (ap not s.0 ∙ not_ltb (int_value g l y) (int_value g l x)),
      )

  eq_integer_raw-value :
      (x y : Integer g.Mpz)
      → IsCanonical g l x
      → IsCanonical g l y
      → (eq_integer_raw g x y ≡ true) ↔ (int_value g l x ≡ int_value g l y)
  unfolding eq_integer_raw int_value IsCanonical IsSign
  eq_integer_raw-value (packed p) (packed q) hx hy = (
    λ same. ap imm_signed ((==_iff p q).0 same),
    λ e. (==_iff p q).1 ((word_lem p hx).1 ∙ (ap imm_int64 e ∙ sym (word_lem q hy).1)),
  )
  eq_integer_raw-value (packed p) (boxed m z) hx hy =
      (λ same. absurd (cc), λ e. absurd (apart _ _ (packed-IsSmall g l p hx) hy e))
  eq_integer_raw-value (boxed m z) (packed q) hx hy =
      (λ same. absurd (cc), λ e. absurd (apart _ _ (packed-IsSmall g l q hy) hx (sym e)))
  eq_integer_raw-value (boxed m z) (boxed n w) hx hy =
      let s = slow-IsSign (boxed m z) (boxed n w) hx hy in zero_iff _ _ _ s.0 s.1

  -- The comparisons of integers of any size are those of the numbers: the four orders, which compare
  -- two words without unpacking them, and equality, which takes a word and a box for different at
  -- once. The operands are in their one form.
  pub integer_raw-compare :
      (x y : Integer g.Mpz)
      → IsCanonical g l x
      → IsCanonical g l y
      → (lt_integer_raw g x y ≡ ltb_ℤ (int_value g l x) (int_value g l y))
        × (gt_integer_raw g x y ≡ ltb_ℤ (int_value g l y) (int_value g l x))
        × (lte_integer_raw g x y ≡ leb_ℤ (int_value g l x) (int_value g l y))
        × (gte_integer_raw g x y ≡ leb_ℤ (int_value g l y) (int_value g l x))
        × ((eq_integer_raw g x y ≡ true) ↔ (int_value g l x ≡ int_value g l y))
  integer_raw-compare x y hx hy =
      let (lt, gt, lte, gte) = integer_raw-order x y hx hy in
      (lt, gt, lte, gte, eq_integer_raw-value x y hx hy)
