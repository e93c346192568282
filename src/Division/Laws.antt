-- ===== src/Division/Laws.antt =====
-- The divisions of each width against Euclid's.
use idris2_rc.Prelude.{
  ℕ, zero, suc, ◌+◌, ◌-◌, ◌*◌, ◌/◌, ◌%◌, ◌^◌, ◌≤◌, ◌<◌, ◌≡◌, ◌≢◌, refl, sym, ap, ◌∙◌, inl, inr,
  Bool, true, false, ◌&&◌, ltb, ◌==◌, arith, if◌then◌else◌, Bool-cases,
}
use native.Mathlib.Nat.{pow-suc, mod-eq_of_lt, mod-lt}
use idris2_rc.Prelude.Int.{
  ℤ, pos, negsuc, nat_abs, pos_part, neg_part, of_sign_parts, ◌+ℤ◌, ◌-ℤ◌, -ℤ_parts, +ℤ_parts,
  eq_of_parts, int_laws,
}
use idris2_rc.Division.{is_negative, crem, to_bits, of_bits, wrap, ediv_small, ediv, emod, emod_i64}
use idris2_rc.Division.Euclid.{IsEuclid, euclid_div, euclid_mod, euclid_div-IsEuclid}

pub half_width : (w : ℕ) → 2 ^ suc w ≡ 2 * 2 ^ w
half_width w = omega (arith, pow-suc 2 w)

pub wrap-pos : (w n : ℕ) → n < 2 ^ w → wrap (suc w) (pos n) ≡ pos n
unfolding wrap to_bits of_bits
wrap-pos w n h =
    let whole : n % 2 ^ suc w ≡ n = mod-eq_of_lt (omega (arith, half_width w)) in
    let width : suc w - 1 ≡ w = omega arith in
    let small : ltb n (2 ^ w) ≡ true = ground arith in rw (whole, width, small)

-- The remainder of each width is Euclid's.
pub emod-euclid :
    (w : ℕ) (n d : ℤ) → d ≢ pos 0 → nat_abs d ≤ 2 ^ w → emod (suc w) n d ≡ euclid_mod n d
unfolding emod euclid_mod
emod-euclid w n d ne h = fits (euclid_mod n d) (euclid_div-IsEuclid n d ne)
  where
    fits : (r : ℤ) → IsEuclid n d (euclid_div n d) r → wrap (suc w) r ≡ r
    fits (pos r) e = let b = e.below in wrap-pos w r (omega arith)
    fits (negsuc r) e = absurd (omega (arith, e.nonneg))

minus_one : (n : ℤ) → pos 0 -ℤ n ≡ euclid_div n (negsuc 0)
unfolding euclid_div
minus_one (pos zero) = omega int_laws
minus_one (pos (suc n)) =
    let q : suc n / 1 ≡ suc n = omega arith in
    rw q
      (eq_of_parts _ _ (omega (arith, -ℤ_parts (pos 0) (pos (suc n)), +ℤ_parts (negsuc n) (pos 0))))
minus_one (negsuc n) =
    let q : suc n / 1 ≡ suc n = omega arith in
    let r : suc n % 1 ≡ 0 = omega arith in
    rw (q, r)
      (eq_of_parts _ _ (omega (arith, -ℤ_parts (pos 0) (negsuc n), +ℤ_parts (pos (suc n)) (pos 0))))

pub ediv-euclid : (w : ℕ) (n d : ℤ) → ediv w n d ≡ wrap w (euclid_div n d)
unfolding ediv ediv_small euclid_div
ediv-euclid w n (pos d) = refl
ediv-euclid w n (negsuc zero) = ap (wrap w) (minus_one n)
ediv-euclid w n (negsuc (suc d)) = let other : (suc (suc d) == 1) ≡ false = ground arith in rw other

-- For a divisor that is not 0 and fits the width, `idris2rc2_ediv` and `idris2rc2_emod` of every
-- width give Euclid's quotient and remainder: the remainder lies in `0 ≤ r < |d|`, and only the
-- quotient of the smallest number by -1, which the width does not hold, wraps.
pub ediv-IsEuclid :
    (w : ℕ) (n d : ℤ)
    → d ≢ pos 0
    → nat_abs d ≤ 2 ^ w
    → (q : ℤ) × IsEuclid n d q (emod (suc w) n d)
      × (ediv (suc w) n d ≡ wrap (suc w) q)
      × (ediv_small (suc w) n d ≡ wrap (suc w) q)
unfolding euclid_div
ediv-IsEuclid w n d ne h = (
  euclid_div n d,
  rw (emod-euclid w n d ne h) (euclid_div-IsEuclid n d ne),
  ediv-euclid (suc w) n d,
  unfold ediv_small in refl,
)

crem-lt : (n d : ℤ) → d ≢ pos 0 → neg_part (crem n d) < nat_abs d
unfolding crem
crem-lt n (pos zero) ne = absurd (ne refl)
crem-lt n (pos (suc k)) ne = omega (
  arith,
  of_sign_parts (is_negative n) (nat_abs n % suc k),
  mod-lt (nat_abs n) {m = suc k} (omega arith),
  cond_le (is_negative n) (nat_abs n % suc k),
)
  where
    cond_le : (b : Bool) (x : ℕ) → (if b then x else 0) ≤ x
    cond_le b x = ground arith
crem-lt n (negsuc k) ne = omega (
  arith,
  of_sign_parts (is_negative n) (nat_abs n % suc k),
  mod-lt (nat_abs n) {m = suc k} (omega arith),
  cond_le (is_negative n) (nat_abs n % suc k),
)
  where
    cond_le : (b : Bool) (x : ℕ) → (if b then x else 0) ≤ x
    cond_le b x = ground arith

-- `(int64_t)((uint64_t)r + ad)` for a remainder that is negative.
far_lem :
    (r : ℤ) (k : ℕ)
    → neg_part r < k
    → k ≤ 2 ^ 63
    → (if is_negative r then of_bits 64 ((to_bits 64 r + k) % 2 ^ 64) else r)
      ≡ (if is_negative r then r +ℤ pos k else r)
unfolding to_bits of_bits
far_lem (pos r) k lt h = refl
far_lem (negsuc r) k lt h =
    let sum : (2 ^ 64 - 1 - r % 2 ^ 64 + k) % 2 ^ 64 ≡ k - 1 - r = omega arith in
    let small : ltb (k - 1 - r) (2 ^ 63) ≡ true = ground arith in
    rw (sum, small) (eq_of_parts _ _ (omega (arith, +ℤ_parts (negsuc r) (pos k))))

-- `idris2rc2_emod_i64`, which adds a divisor of up to `2 ^ 63` in unsigned arithmetic, agrees.
pub emod_i64-emod : (n d : ℤ) → d ≢ pos 0 → nat_abs d ≤ 2 ^ 63 → emod_i64 n d ≡ emod 64 n d
unfolding emod_i64
emod_i64-emod n d ne h = elim (Bool-cases (is_negative d && nat_abs d == 1)) [
  | inl one ↦ rw one (small_mod d one ∙ sym (emod-euclid 63 n d ne h))
  | inr more ↦ rw more (
      far_lem (crem n d) (nat_abs d) (crem-lt n d ne) h
      ∙ (unfold euclid_mod in sym (emod-euclid 63 n d ne h)))
]
  where
    zero_below : (r : ℤ) → neg_part r ≡ 0 → pos_part r < 1 → pos 0 ≡ r
    zero_below (pos zero) a b = refl
    zero_below (pos (suc r)) a b = absurd (omega arith)
    zero_below (negsuc r) a b = absurd (omega arith)

    small_mod : (d : ℤ) → (is_negative d && nat_abs d == 1) ≡ true → pos 0 ≡ euclid_mod n d
    small_mod (pos k) one = absurd (cc)
    small_mod (negsuc zero) one =
        let e = euclid_div-IsEuclid n (negsuc 0) (λ p. cc) in
        zero_below (euclid_mod n (negsuc 0)) e.nonneg e.below
    small_mod (negsuc (suc k)) one = absurd (ground arith)
