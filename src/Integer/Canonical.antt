-- ===== src/Integer/Canonical.antt =====
-- The number that an `Integer` stands for, and its one form: a box never holds a number that the
-- word can.
use idris2_rc.Prelude.{
  ℕ, zero, suc, ◌-◌, ◌%◌, ◌^◌, ◌≤◌, ◌<◌, ◌≡◌, ◌⊎◌, inl, inr, refl, sym, ap, ◌∙◌, true, false, ◌&&◌,
  ◌||◌, not, List, [], ◌∷◌, leb, ltb, ◌==◌, arith, if◌then◌else◌, Bool-cases,
}
use idris2_rc.Prelude.Int.{
  ℤ, pos, negsuc, nat_abs, ◌≤ℤ◌, leb_ℤ, ltb_ℤ, ◌-ℤ◌, of_sign, -ℤ_parts, eq_of_parts,
}
use idris2_rc.Prelude.Run.{Run, ok}
use idris2_rc.Strings.{to_size}
use idris2_rc.Division.{is_negative, to_bits}
use idris2_rc.Immediate.{immediate, word, mk_int64, to_i64}
use idris2_rc.Immediate.Laws.{to_i64-mk_int64}
use idris2_rc.Division.Laws.{wrap-pos}
use idris2_rc.Prelude.{◌++◌}
use idris2_rc.Integer.Mpz.{Gmp, GmpLaws, no_limb, one_limb, minus_one_limb, limbs}
use idris2_rc.Integer.{
  Integer, packed, boxed, imm_signed, imm_int64, imm_min, imm_limit, Owner, fresh, Outcome,
  fits_i64, mk_integer_i64, mk_integer_u64, integer_view, normalize, mk_integer_from_mpz,
}

abbrev pub IsSmall : ℤ → Type 0
IsSmall x = (negsuc (2 ^ 62 - 1) ≤ℤ x) × (x ≤ℤ pos (2 ^ 62 - 1))

abbrev pub IsLarge : ℤ → Type 0
IsLarge x = (x ≤ℤ negsuc (2 ^ 62)) ⊎ (pos (2 ^ 62) ≤ℤ x)

-- The word of a small number is read back.
pub imm_signed-imm_int64 : (x : ℤ) → IsSmall x → imm_signed (imm_int64 x) ≡ x
unfolding imm_signed imm_int64 to_i64 mk_int64
imm_signed-imm_int64 x h =
    let fits : (leb_ℤ (negsuc (2 ^ 62 - 1)) x && ltb_ℤ x (pos (2 ^ 62))) ≡ true = ground arith in
    let packs : mk_int64 x ≡ word (immediate (to_size x)) = rw fits refl in
    ap to_i64 (sym packs) ∙ to_i64-mk_int64 x

pub opposite_negsuc : (n : ℕ) → pos 0 -ℤ negsuc n ≡ pos (suc n)
opposite_negsuc n = eq_of_parts _ _ (omega (arith, -ℤ_parts (pos 0) (negsuc n)))

opposite_pos : (n : ℕ) → pos 0 -ℤ pos n ≡ of_sign true n
opposite_pos zero = eq_of_parts _ _ (omega (arith, -ℤ_parts (pos 0) (pos 0)))
opposite_pos (suc n) = eq_of_parts _ _ (omega (arith, -ℤ_parts (pos 0) (pos (suc n))))

of_sign-IsSmall : (n : ℕ) → n ≤ 2 ^ 62 → IsSmall (of_sign true n)
of_sign-IsSmall zero h = omega arith
of_sign-IsSmall (suc n) h = omega arith

of_sign-IsLarge : (n : ℕ) → 2 ^ 62 < n → IsLarge (of_sign true n)
of_sign-IsLarge zero h = absurd (omega arith)
of_sign-IsLarge (suc n) h = inl (omega arith)

nat_abs-IsLarge : (x : ℤ) → 2 ^ 64 ≤ nat_abs x → IsLarge x
nat_abs-IsLarge (pos n) h = inr (omega arith)
nat_abs-IsLarge (negsuc n) h = inl (omega arith)

many_lem :
    (s : ℤ)
    → 2 ≤ nat_abs s
    → (not (ltb_ℤ s (pos 0) || ltb_ℤ (pos 0) s) ≡ false) × ((nat_abs s == 1) ≡ false)
many_lem (pos n) h = ground arith
many_lem (negsuc n) h = ground arith

module _ (g : Gmp) (l : GmpLaws g) where
  unfoldable pub int_value : Integer g.Mpz → ℤ
  int_value (packed p) = imm_signed p
  int_value (boxed rc z) = l.value z

  unfoldable pub IsCanonical : Integer g.Mpz → Type 0
  IsCanonical (packed p) = (x : ℤ) × IsSmall x × (p ≡ imm_int64 x)
  IsCanonical (boxed rc z) = IsLarge (l.value z)

  -- An outcome in the one form of the number `x`.
  unfoldable pub Represents : Outcome g.Mpz → ℤ → Type 0
  unfolding int_value IsCanonical
  Represents o x = IsCanonical o.result × (int_value o.result ≡ x)

  -- A run without a fault, to such an outcome.
  unfoldable pub Computes : Run (Outcome g.Mpz) → ℤ → Type 0
  unfolding Represents
  Computes r x = (o : Outcome g.Mpz) × (r ≡ ok o) × Represents o x

  pub packed-Represents :
      (x : ℤ) (keeps drops : List Owner)
      → IsSmall x
      → Represents (record { result = packed (imm_int64 x); keeps = keeps; drops = drops }) x
  unfolding Represents IsCanonical int_value
  packed-Represents x keeps drops h = ((x, h, refl), imm_signed-imm_int64 x h)

  pub mk_integer_i64-Represents : (x : ℤ) → fits_i64 x ≡ true → Represents (mk_integer_i64 g x) x
  unfolding Represents IsCanonical int_value mk_integer_i64
  mk_integer_i64-Represents x h = elim (Bool-cases (leb_ℤ imm_min x && ltb_ℤ x imm_limit)) [
    | inl small ↦ rw small (packed-Represents x [] [] (ground arith))
    | inr large ↦
        let value : l.value (g.mpz_set_si x) ≡ x = l.value-set_si x (ground arith) (ground arith) in
        let far : IsLarge x = ground arith in rw large (rw value (far, refl))
  ]

  pub mk_integer_u64-Represents : (n : ℕ) → n < 2 ^ 64 → Represents (mk_integer_u64 g n) (pos n)
  unfolding Represents IsCanonical int_value mk_integer_u64
  mk_integer_u64-Represents n h = elim (Bool-cases (ltb n (2 ^ 62))) [
    | inl small ↦ rw small (packed-Represents (pos n) [] [] (ground arith))
    | inr large ↦
        let far : IsLarge (pos n) = ground arith in rw large (rw (l.value-set_ui n h) (far, refl))
  ]

  view_lem :
      (x : ℤ)
      → IsSmall x
      → l.value (
          g.mpz_roinit_n
            (if is_negative x then to_bits 64 (pos 0 -ℤ x) else to_bits 64 x)
            (if is_negative x then negsuc 0 else pos 1))
        ≡ x
  unfolding to_bits
  view_lem (pos n) h = l.value-roinit_n (n % 2 ^ 64) (pos 1) (omega arith) ∙ ap pos (omega arith)
  view_lem (negsuc n) h =
      let opposite : pos 0 -ℤ negsuc n ≡ pos (suc n) = opposite_negsuc n in
      let whole : suc n % 2 ^ 64 ≡ suc n = omega arith in
      rw (opposite, whole) (l.value-roinit_n (suc n) (negsuc 0) (omega arith))

  -- The number in a word is small.
  pub packed-IsSmall : (p : ℕ) → IsCanonical (packed p) → IsSmall (imm_signed p)
  unfolding IsCanonical
  packed-IsSmall p h =
      let (x, small, e) = h in rw (ap imm_signed e ∙ imm_signed-imm_int64 x small) small

  -- A view stands for the same number.
  pub value-integer_view :
      (x : Integer g.Mpz) → IsCanonical x → l.value (integer_view g x) ≡ int_value x
  unfolding integer_view int_value IsCanonical
  value-integer_view (boxed rc z) h = refl
  value-integer_view (packed p) h = view_lem (imm_signed p) (packed-IsSmall p h)

  pub normalize-Represents :
      (at : Owner) (drops : List Owner) (z : g.Mpz)
      → Represents (normalize g at drops z) (l.value z)
  unfolding Represents IsCanonical int_value normalize
  normalize-Represents at drops z = elim (l.layout z) [
    | no_limb e v ↦ rw (e, v) (packed-Represents (pos 0) [] (drops ++ (at ∷ [])) (omega arith))
    | one_limb e some low v ↦ elim (Bool-cases (leb (2 ^ 62) (g.mp_d z))) [
      | inl large ↦ rw (e, large) (rw v (inr (ground arith), refl))
      | inr small ↦
          rw (e, small, wrap-pos 63 (g.mp_d z) (ground arith), v)
            (packed-Represents (pos (g.mp_d z)) [] (drops ++ (at ∷ [])) (ground arith))
    ]
    | minus_one_limb e some low v ↦ elim (Bool-cases (ltb (2 ^ 62) (g.mp_d z))) [
      | inl large ↦ rw (e, large) (rw v (of_sign-IsLarge (g.mp_d z) (ground arith), refl))
      | inr small ↦
          rw (e, small, wrap-pos 63 (g.mp_d z) (ground arith), v, opposite_pos (g.mp_d z))
            (packed-Represents (of_sign true (g.mp_d z)) [] (drops ++ (at ∷ []))
              (of_sign-IsSmall (g.mp_d z) (ground arith)))
    ]
    | limbs many far same ↦
        let m = many_lem (g.mp_size z) many in rw (m.0, m.1) (nat_abs-IsLarge (l.value z) far, refl)
  ]

  -- What foreign code gives.
  pub mk_integer_from_mpz-Represents :
      (z : g.Mpz) → Represents (mk_integer_from_mpz g z) (l.value z)
  unfolding mk_integer_from_mpz
  mk_integer_from_mpz-Represents z =
      rw (← l.value-set z) (normalize-Represents fresh [] (g.mpz_set z))
