-- ===== src/Integer/Words.antt =====
-- `int64_t` arithmetic on small numbers: nothing overflows.
use idris2_rc.Prelude.{
  ℕ, zero, suc, ◌+◌, ◌/◌, ◌^◌, ◌≤◌, ◌≡◌, ◌≢◌, refl, ap, ◌∙◌, Bool, true, false, ltb, arith,
  if◌then◌else◌,
}
use native.Mathlib.Nat.{div-le_self}
use idris2_rc.Prelude.Int.{
  ℤ, pos, negsuc, nat_abs, pos_part, neg_part, ltb_ℤ, ◌+ℤ◌, ◌-ℤ◌, ◌*ℤ◌, of_sign, +ℤ_parts, -ℤ_parts,
  eq_of_parts,
}
use idris2_rc.Division.{is_negative, differ, cdiv, crem}
use idris2_rc.Division.Euclid.{euclid_div, euclid_mod, euclid_div-IsEuclid}
use idris2_rc.Integer.{fits_i64, is_zero}
use idris2_rc.Integer.Canonical.{IsSmall, opposite_negsuc}

-- At most `2 ^ 62` in size.
abbrev IsNear : ℤ → Type 0
IsNear x = (pos_part x ≤ 2 ^ 62) × (neg_part x ≤ 2 ^ 62)

pub sum_fits :
    (a b : ℤ) → IsSmall a → IsSmall b → (fits_i64 (a +ℤ b) ≡ true) × (fits_i64 (a -ℤ b) ≡ true)
sum_fits a b ha hb = (ground (arith, +ℤ_parts a b), ground (arith, -ℤ_parts a b))

near_fits : (a b : ℤ) → IsNear a → pos_part b ≤ 1 → neg_part b ≤ 1 → fits_i64 (a +ℤ b) ≡ true
near_fits a b ha pb nb = ground (arith, +ℤ_parts a b)

of_sign-IsNear : (s : Bool) (n : ℕ) → n ≤ 2 ^ 62 → IsNear (of_sign s n)
of_sign-IsNear false n h = omega arith
of_sign-IsNear true zero h = omega arith
of_sign-IsNear true (suc n) h = omega arith

step_le :
    (s t : Bool)
    → (x : ℤ) → x ≡ (if s then (if t then pos 1 else negsuc 0) else pos 0)
    → (pos_part x ≤ 1) × (neg_part x ≤ 1)
step_le false t x e = grind arith
step_le true false x e = grind arith
step_le true true x e = grind arith

pub rest_out : (a b q r : ℤ) → a ≡ b *ℤ q +ℤ r → a -ℤ r ≡ b *ℤ q
rest_out a b q r h = ap (λ t. t -ℤ r) h ∙ taken (b *ℤ q) r
  where
    taken : (x r : ℤ) → (x +ℤ r) -ℤ r ≡ x
    taken x r = eq_of_parts _ _ (omega (arith, +ℤ_parts x r, -ℤ_parts (x +ℤ r) r))

module _ (a b : ℤ) (sa : IsSmall a) (sb : IsSmall b) (ne : b ≢ pos 0) where
  pub divisor_some : (b : ℤ) → b ≢ pos 0 → is_zero b ≡ false
  divisor_some (pos zero) ne = absurd (ne refl)
  divisor_some (pos (suc n)) ne = ground arith
  divisor_some (negsuc n) ne = refl

  abs_le : (b : ℤ) → IsSmall b → nat_abs b ≤ 2 ^ 62
  abs_le b h = grind arith

  -- `b < 0 ? -b : b`.
  pub magnitude : (b : ℤ) → IsSmall b → (if is_negative b then pos 0 -ℤ b else b) ≡ pos (nat_abs b)
  magnitude (pos n) h = refl
  magnitude (negsuc n) h = opposite_negsuc n

  pub magnitude_fits : fits_i64 (pos (nat_abs b)) ≡ true
  magnitude_fits = ground (arith, abs_le b sb)

  pub rest-IsSmall : IsSmall (euclid_mod a b)
  rest-IsSmall = let e = euclid_div-IsEuclid a b ne in omega (arith, e.nonneg, e.below, abs_le b sb)

  pub rest_fits : fits_i64 (euclid_mod a b) ≡ true
  rest_fits = let s = rest-IsSmall in ground arith

  quot_le : nat_abs a / nat_abs b ≤ 2 ^ 62
  quot_le = omega (arith, div-le_self (nat_abs a) (nat_abs b), abs_le a sa)

  quot-IsNear : IsNear (cdiv a b)
  unfolding cdiv
  quot-IsNear = of_sign-IsNear (differ (is_negative a) (is_negative b)) _ quot_le

  pub quot_fits : fits_i64 (cdiv a b) ≡ true
  quot_fits = ground (arith, quot-IsNear)

  step_sign :
      (b : ℤ)
      → b ≢ pos 0
      → (if ltb_ℤ (pos 0) b then negsuc 0 else pos 1) ≡ (if is_negative b then pos 1 else negsuc 0)
  step_sign (pos zero) ne = absurd (ne refl)
  step_sign (pos (suc n)) ne = let some : ltb 0 (suc n + 0) ≡ true = ground arith in rw some refl
  step_sign (negsuc n) ne = let none : ltb (0 + suc n) 0 ≡ false = ground arith in rw none refl

  pub adjusted_lem :
      (cdiv a b
        +ℤ (if is_negative (crem a b)
            then (if ltb_ℤ (pos 0) b then negsuc 0 else pos 1)
            else pos 0))
      ≡ euclid_div a b
  unfolding euclid_div
  adjusted_lem =
      ap (λ (t : ℤ). cdiv a b +ℤ (if is_negative (crem a b) then t else pos 0)) (step_sign b ne)

  pub adjusted_fits : fits_i64 (euclid_div a b) ≡ true
  unfolding euclid_div
  adjusted_fits =
      let h = step_le (is_negative (crem a b)) (is_negative b) _ refl in
      near_fits (cdiv a b) _ quot-IsNear h.0 h.1
