-- ===== src/Division/Euclid.antt =====
-- The quotient that rounds towards zero, put right where the remainder is negative, is Euclid's.
use idris2_rc.Prelude.{
  ℕ, zero, suc, ◌+◌, ◌-◌, ◌*◌, ◌/◌, ◌%◌, ◌<◌, ◌≡◌, ◌≢◌, refl, true, arith, if◌then◌else◌,
}
use native.Mathlib.Nat.{mod-add-div, mod-lt}
use idris2_rc.Prelude.Int.{
  ℤ, pos, negsuc, nat_abs, pos_part, neg_part, of_sign, ◌+ℤ◌, ◌*ℤ◌, +ℤ_parts, *ℤ_parts, eq_of_parts,
  int_laws,
}
use idris2_rc.Division.{is_negative, cdiv, crem}

-- `a = b * q + r` with `0 ≤ r < |b|`.
pub record IsEuclid (a b q r : ℤ) : Type 0 where
  pub splits : a ≡ b *ℤ q +ℤ r
  pub nonneg : neg_part r ≡ 0
  pub below : pos_part r < nat_abs b

-- The two steps of the source, on unbounded integers.
unfoldable pub euclid_div : ℤ → ℤ → ℤ
unfolding cdiv crem
euclid_div n d =
    let adjust : ℤ = if is_negative d then pos 1 else negsuc 0 in
    cdiv n d +ℤ (if is_negative (crem n d) then adjust else pos 0)

unfoldable pub euclid_mod : ℤ → ℤ → ℤ
unfolding crem
euclid_mod n d = if is_negative (crem n d) then crem n d +ℤ pos (nat_abs d) else crem n d

module _ (m d : ℕ) (some_d : 0 < d) where
  division : (m ≡ d * (m / d) + m % d) × (m % d < d)
  division = (omega (arith, mod-add-div m d), mod-lt m some_d)

splits_lem :
    (n b q r : ℤ)
    → pos_part n + (pos_part b * neg_part q + neg_part b * pos_part q) + neg_part r
      ≡ neg_part n + (pos_part b * pos_part q + neg_part b * neg_part q) + pos_part r
    → n ≡ b *ℤ q +ℤ r
splits_lem n b q r h =
    eq_of_parts n (b *ℤ q +ℤ r) (omega (arith, h, +ℤ_parts (b *ℤ q) r, *ℤ_parts b q))

-- A dividend that is not negative, by a positive and by a negative divisor.
pos_cases :
    (m k q r : ℕ)
    → m ≡ suc k * q + r
    → r < suc k
    → IsEuclid (pos m) (pos (suc k)) (pos q) (pos r)
      × IsEuclid (pos m) (negsuc k) (of_sign true q) (pos r)
pos_cases m k zero r e h = (
  record {
    splits = splits_lem (pos m) (pos (suc k)) (pos 0) (pos r) (grind arith);
    nonneg = refl;
    below = omega arith;
  },
  record {
    splits = splits_lem (pos m) (negsuc k) (pos 0) (pos r) (grind arith);
    nonneg = refl;
    below = omega arith;
  },
)
pos_cases m k (suc q) r e h = (
  record {
    splits = splits_lem (pos m) (pos (suc k)) (pos (suc q)) (pos r) (grind arith);
    nonneg = refl;
    below = omega arith;
  },
  record {
    splits = splits_lem (pos m) (negsuc k) (negsuc q) (pos r) (grind arith);
    nonneg = refl;
    below = omega arith;
  },
)

-- A negative dividend that the divisor divides.
exact_cases :
    (m k q : ℕ)
    → suc m ≡ suc k * q
    → IsEuclid (negsuc m) (pos (suc k)) (of_sign true q) (pos 0)
      × IsEuclid (negsuc m) (negsuc k) (pos q) (pos 0)
exact_cases m k zero e = absurd (grind arith)
exact_cases m k (suc q) e = (
  record {
    splits = splits_lem (negsuc m) (pos (suc k)) (negsuc q) (pos 0) (grind arith);
    nonneg = refl;
    below = omega arith;
  },
  record {
    splits = splits_lem (negsuc m) (negsuc k) (pos (suc q)) (pos 0) (grind arith);
    nonneg = refl;
    below = omega arith;
  },
)

-- A negative dividend with a remainder.
neg_cases :
    (m k q r : ℕ)
    → suc m ≡ suc k * q + suc r
    → suc r < suc k
    → IsEuclid (negsuc m) (pos (suc k)) (negsuc q) (pos (k - r))
      × IsEuclid (negsuc m) (negsuc k) (pos (suc q)) (pos (k - r))
neg_cases m k q r e h = (
  record {
    splits = splits_lem (negsuc m) (pos (suc k)) (negsuc q) (pos (k - r)) (grind arith);
    nonneg = refl;
    below = omega arith;
  },
  record {
    splits = splits_lem (negsuc m) (negsuc k) (pos (suc q)) (pos (k - r)) (grind arith);
    nonneg = refl;
    below = omega arith;
  },
)

pub add_zero : (a : ℤ) → a +ℤ pos 0 ≡ a
add_zero a = omega int_laws

sum_neg : (k r : ℕ) → r < k → negsuc r +ℤ pos (suc k) ≡ pos (k - r)
sum_neg k r h = eq_of_parts _ _ (omega (arith, +ℤ_parts (negsuc r) (pos (suc k))))

sum_one : (q : ℕ) → (of_sign true q +ℤ negsuc 0 ≡ negsuc q) × (pos q +ℤ pos 1 ≡ pos (suc q))
sum_one zero = (omega int_laws, omega int_laws)
sum_one (suc q) = (omega int_laws, omega int_laws)

-- The two steps of the source give Euclid's quotient and remainder, for every divisor but 0.
pub euclid_div-IsEuclid : (n d : ℤ) → d ≢ pos 0 → IsEuclid n d (euclid_div n d) (euclid_mod n d)
unfolding euclid_div euclid_mod
euclid_div-IsEuclid n (pos zero) ne = absurd (ne refl)
euclid_div-IsEuclid (pos m) (pos (suc k)) ne =
    let d = division m (suc k) (omega arith) in
    rw add_zero (pos_cases m k (m / suc k) (m % suc k) d.0 d.1).0
euclid_div-IsEuclid (pos m) (negsuc k) ne =
    let d = division m (suc k) (omega arith) in
    rw add_zero (pos_cases m k (m / suc k) (m % suc k) d.0 d.1).1
euclid_div-IsEuclid (negsuc m) (pos (suc k)) ne =
    let d = division (suc m) (suc k) (omega arith) in by_rest (suc m % suc k) refl d.0 d.1
  where
    by_rest :
        (r : ℕ)
        → r ≡ suc m % suc k
        → suc m ≡ suc k * (suc m / suc k) + suc m % suc k
        → suc m % suc k < suc k
        → IsEuclid
            (negsuc m)
            (pos (suc k))
            (euclid_div (negsuc m) (pos (suc k)))
            (euclid_mod (negsuc m) (pos (suc k)))
    by_rest zero e split lt = rw (← e, add_zero) (exact_cases m k (suc m / suc k) (omega arith)).0
    by_rest (suc r) e split lt =
        rw (← e, sum_neg k r (omega arith), (sum_one (suc m / suc k)).0)
          (neg_cases m k (suc m / suc k) r (omega arith) (omega arith)).0
euclid_div-IsEuclid (negsuc m) (negsuc k) ne =
    let d = division (suc m) (suc k) (omega arith) in by_rest (suc m % suc k) refl d.0 d.1
  where
    by_rest :
        (r : ℕ)
        → r ≡ suc m % suc k
        → suc m ≡ suc k * (suc m / suc k) + suc m % suc k
        → suc m % suc k < suc k
        → IsEuclid
            (negsuc m)
            (negsuc k)
            (euclid_div (negsuc m) (negsuc k))
            (euclid_mod (negsuc m) (negsuc k))
    by_rest zero e split lt = rw (← e, add_zero) (exact_cases m k (suc m / suc k) (omega arith)).1
    by_rest (suc r) e split lt =
        rw (← e, sum_neg k r (omega arith), (sum_one (suc m / suc k)).1)
          (neg_cases m k (suc m / suc k) r (omega arith) (omega arith)).1
