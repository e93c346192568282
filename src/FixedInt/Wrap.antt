-- ===== src/FixedInt/Wrap.antt =====
-- Conversions and the arithmetic of `uint64_t` against unbounded integers.
use idris2_rc.Prelude.{
  ℕ, suc, ◌+◌, ◌-◌, ◌*◌, ◌/◌, ◌%◌, ◌^◌, ◌≤◌, ◌<◌, ◌≡◌, refl, sym, ap, ◌∙◌, inl, inr, true, false,
  ltb, arith, u64, if◌then◌else◌, Bool-cases,
}
use idris2_rc.Prelude.Int.{
  ℤ, pos, negsuc, pos_part, neg_part, ◌+ℤ◌, ◌-ℤ◌, ◌*ℤ◌, ◌≤ℤ◌, +ℤ_parts, -ℤ_parts, *ℤ_parts,
}
use native.Mathlib.Nat.{mod-eq_of_lt, mod-lt, pow-le-pow_right, div-le_self}
use idris2_rc.Division.{to_bits, of_bits, wrap}
use idris2_rc.Immediate.Laws.{to_i64-mk_int64, to_u64-mk_bits64}
use idris2_rc.FixedInt.{
  IntType, int_8, int_16, int_32, int_64, bits_8, bits_16, bits_32, bits_64, width, is_signed, cast,
  mk, get, add_u64, sub_u64, mul_u64, shift_down,
}
use idris2_rc.Division.Laws.{wrap-pos, half_width}

pub to_bits-lt : (x : ℤ) → to_bits 64 x < 2 ^ 64
unfolding to_bits
to_bits-lt (pos n) = omega arith
to_bits-lt (negsuc n) = omega arith

-- A conversion through `uint64_t` changes nothing.
pub cast-to_bits : (t : IntType) (x : ℤ) → cast t (pos (to_bits 64 x)) ≡ cast t x
unfolding cast to_bits wrap
cast-to_bits int_8 (pos n) = ap (of_bits 8) (omega arith)
cast-to_bits int_8 (negsuc n) = ap (of_bits 8) (omega arith)
cast-to_bits int_16 (pos n) = ap (of_bits 16) (omega arith)
cast-to_bits int_16 (negsuc n) = ap (of_bits 16) (omega arith)
cast-to_bits int_32 (pos n) = ap (of_bits 32) (omega arith)
cast-to_bits int_32 (negsuc n) = ap (of_bits 32) (omega arith)
cast-to_bits int_64 (pos n) = ap (of_bits 64) (omega arith)
cast-to_bits int_64 (negsuc n) = ap (of_bits 64) (omega arith)
cast-to_bits bits_8 (pos n) = ap pos (omega arith)
cast-to_bits bits_8 (negsuc n) = ap pos (omega arith)
cast-to_bits bits_16 (pos n) = ap pos (omega arith)
cast-to_bits bits_16 (negsuc n) = ap pos (omega arith)
cast-to_bits bits_32 (pos n) = ap pos (omega arith)
cast-to_bits bits_32 (negsuc n) = ap pos (omega arith)
cast-to_bits bits_64 (pos n) = ap pos (omega arith)
cast-to_bits bits_64 (negsuc n) = ap pos (omega arith)

-- Of the bits of a converted number nothing is lost.
module _ (w : ℕ) (m : ℕ) (low : m < 2 ^ suc w) where
  pub to_bits-of_bits : to_bits (suc w) (of_bits (suc w) m) ≡ m
  unfolding to_bits of_bits
  to_bits-of_bits = elim (Bool-cases (ltb m (2 ^ (suc w - 1)))) [
    | inl small ↦ rw small (mod-eq_of_lt low)
    | inr large ↦
        let whole : (2 ^ suc w - 1 - m) % 2 ^ suc w ≡ 2 ^ suc w - 1 - m =
          mod-eq_of_lt (omega arith) in
        rw (large, whole) (omega arith)
  ]

narrow_back : (m : ℕ) → m < 2 ^ 32 → (u64 (m * 2 ^ 32) + 1) / 2 ^ 32 ≡ m
narrow_back m h = omega arith

pow_some : (w : ℕ) → 0 < 2 ^ w
pow_some w = pow-le-pow_right {n = 2} (omega arith) {i = 0} {j = w} (omega arith)

pub to_bits_lt : (w : ℕ) (x : ℤ) → to_bits w x < 2 ^ w
unfolding to_bits
to_bits_lt w (pos n) = mod-lt n (pow_some w)
to_bits_lt w (negsuc n) = omega (arith, pow_some w)

pub to_bits_idem : (w : ℕ) (x : ℤ) → to_bits w (pos (to_bits w x)) ≡ to_bits w x
to_bits_idem w x = unfold to_bits in mod-eq_of_lt (to_bits_lt w x)

module _ (w : ℕ) (x : ℤ) (few : suc w ≤ 32) where
  bits_le : to_bits (suc w) x < 2 ^ 32
  bits_le =
      omega (
        arith,
        to_bits_lt (suc w) x,
        pow-le-pow_right {n = 2} (omega arith) {i = suc w} {j = 32} few,
      )

  signed_back :
      wrap (suc w) (pos ((u64 (to_bits (suc w) (wrap (suc w) x) * 2 ^ 32) + 1) / 2 ^ 32))
      ≡ wrap (suc w) x
  unfolding wrap
  signed_back =
      rw (to_bits-of_bits w (to_bits (suc w) x) (to_bits_lt (suc w) x), narrow_back _ bits_le)
        (ap (of_bits (suc w)) (to_bits_idem (suc w) x))

  unsigned_back :
      to_bits
        (suc w)
        (pos ((u64 (to_bits (suc w) (pos (to_bits (suc w) x)) * 2 ^ 32) + 1) / 2 ^ 32))
      ≡ to_bits (suc w) x
  unsigned_back = rw (to_bits_idem (suc w) x, narrow_back _ bits_le) (to_bits_idem (suc w) x)

-- What is made a value is read back, for every type, whether it is packed or boxed.
pub get-mk : (t : IntType) (x : ℤ) → get t (mk t (cast t x)) ≡ cast t x
unfolding get mk cast
get-mk int_8 x = signed_back 7 x (omega arith)
get-mk int_16 x = signed_back 15 x (omega arith)
get-mk int_32 x = signed_back 31 x (omega arith)
get-mk int_64 x = to_i64-mk_int64 (wrap 64 x)
get-mk bits_8 x = ap pos (unsigned_back 7 x (omega arith))
get-mk bits_16 x = ap pos (unsigned_back 15 x (omega arith))
get-mk bits_32 x = ap pos (unsigned_back 31 x (omega arith))
get-mk bits_64 x = ap pos (to_u64-mk_bits64 _ ∙ to_bits_idem 64 x)

-- The bits of a number are the one natural number under `2 ^ 64` that is congruent to it.
bits_parts : (a : ℤ) → (to_bits 64 a + neg_part a) % 2 ^ 64 ≡ pos_part a % 2 ^ 64
unfolding to_bits
bits_parts (pos n) = omega arith
bits_parts (negsuc n) = omega arith

bits_unique :
    (a : ℤ) (u : ℕ)
    → u < 2 ^ 64
    → (u + neg_part a) % 2 ^ 64 ≡ pos_part a % 2 ^ 64
    → u ≡ to_bits 64 a
bits_unique a u low h = omega (arith, h, bits_parts a, to_bits-lt a)

pub add_u64-bits : (x y : ℤ) → add_u64 x y ≡ pos (to_bits 64 (x +ℤ y))
unfolding add_u64
add_u64-bits x y =
    ap pos (
      bits_unique (x +ℤ y) _ (omega arith)
        (omega (arith, bits_parts x, bits_parts y, +ℤ_parts x y)))

pub sub_u64-bits : (x y : ℤ) → sub_u64 x y ≡ pos (to_bits 64 (x -ℤ y))
unfolding sub_u64
sub_u64-bits x y = ap pos (
    bits_unique (x -ℤ y) _ (omega arith)
      (omega (arith, bits_parts x, bits_parts y, to_bits-lt y, -ℤ_parts x y)))

-- A congruence times a factor.
pub factor : (a d : ℕ) → a * d % 2 ^ 64 ≡ (a % 2 ^ 64) * d % 2 ^ 64
factor a d =
    let whole : a ≡ a % 2 ^ 64 + 2 ^ 64 * (a / 2 ^ 64) = omega arith in
    let split : a * d ≡ (a % 2 ^ 64) * d + 2 ^ 64 * (a / 2 ^ 64 * d) =
      ap (λ (t : ℕ). t * d) whole ∙ omega arith in
    omega (arith, split)

product : (a b d : ℕ) → a % 2 ^ 64 ≡ b % 2 ^ 64 → a * d % 2 ^ 64 ≡ b * d % 2 ^ 64
product a b d h = factor a d ∙ ap (λ (r : ℕ). r * d % 2 ^ 64) h ∙ sym (factor b d)

times : (t n p d : ℕ) → (t + n) % 2 ^ 64 ≡ p % 2 ^ 64 → (t * d + n * d) % 2 ^ 64 ≡ p * d % 2 ^ 64
times t n p d h = omega (arith, product (t + n) p d h)

pub mul_u64-bits : (x y : ℤ) → mul_u64 x y ≡ pos (to_bits 64 (x *ℤ y))
unfolding mul_u64
mul_u64-bits x y =
    let v = to_bits 64 y in
    ap pos (
      bits_unique (x *ℤ y) _ (omega arith) (
        omega (
          arith,
          *ℤ_parts x y,
          times (to_bits 64 x) (neg_part x) (pos_part x) v (bits_parts x),
          times v (neg_part y) (pos_part y) (pos_part x) (bits_parts y),
          times v (neg_part y) (pos_part y) (neg_part x) (bits_parts y),
        )))

-- A type's range.
abbrev pub lowest : IntType → ℤ
lowest t = if is_signed t then negsuc (2 ^ (width t - 1) - 1) else pos 0

abbrev pub highest : IntType → ℤ
highest t = if is_signed t then pos (2 ^ (width t - 1) - 1) else pos (2 ^ width t - 1)

abbrev pub Fits : IntType → ℤ → Type 0
Fits t x = (lowest t ≤ℤ x) × (x ≤ℤ highest t)

signed_fits : (w : ℕ) (x : ℤ) → negsuc (2 ^ w - 1) ≤ℤ x → x ≤ℤ pos (2 ^ w - 1) → wrap (suc w) x ≡ x
unfolding wrap to_bits of_bits
signed_fits w (pos n) low high = wrap-pos w n (omega (arith, pow_some w))
signed_fits w (negsuc n) low high =
    let whole : n % 2 ^ suc w ≡ n = mod-eq_of_lt (omega (arith, half_width w, pow_some w)) in
    let width : suc w - 1 ≡ w = omega arith in
    let large : ltb (2 ^ suc w - 1 - n) (2 ^ w) ≡ false =
      ground (arith, half_width w, pow_some w) in
    rw (whole, width, large) (ap negsuc (omega (arith, half_width w, pow_some w)))

unsigned_fits : (w : ℕ) (x : ℤ) → pos 0 ≤ℤ x → x ≤ℤ pos (2 ^ w - 1) → pos (to_bits w x) ≡ x
unfolding to_bits
unsigned_fits w (pos n) low high = ap pos (mod-eq_of_lt (omega (arith, pow_some w)))
unsigned_fits w (negsuc n) low high = absurd (omega arith)

-- A number in the range of a type is converted to itself.
pub cast-Fits : (t : IntType) (x : ℤ) → Fits t x → cast t x ≡ x
unfolding cast
cast-Fits int_8 x h = signed_fits 7 x h.0 h.1
cast-Fits int_16 x h = signed_fits 15 x h.0 h.1
cast-Fits int_32 x h = signed_fits 31 x h.0 h.1
cast-Fits int_64 x h = signed_fits 63 x h.0 h.1
cast-Fits bits_8 x h = unsigned_fits 8 x h.0 h.1
cast-Fits bits_16 x h = unsigned_fits 16 x h.0 h.1
cast-Fits bits_32 x h = unsigned_fits 32 x h.0 h.1
cast-Fits bits_64 x h = unsigned_fits 64 x h.0 h.1

pub Fits-less :
    (t : IntType) (n m : ℕ)
    → m ≤ n
    → (Fits t (pos n) → Fits t (pos m)) × (Fits t (negsuc n) → Fits t (negsuc m))
Fits-less int_8 n m le = (λ h. omega arith, λ h. omega arith)
Fits-less int_16 n m le = (λ h. omega arith, λ h. omega arith)
Fits-less int_32 n m le = (λ h. omega arith, λ h. omega arith)
Fits-less int_64 n m le = (λ h. omega arith, λ h. omega arith)
Fits-less bits_8 n m le = (λ h. omega arith, λ h. omega arith)
Fits-less bits_16 n m le = (λ h. omega arith, λ h. omega arith)
Fits-less bits_32 n m le = (λ h. omega arith, λ h. omega arith)
Fits-less bits_64 n m le = (λ h. omega arith, λ h. omega arith)

pub shift_down-Fits : (t : IntType) (x : ℤ) (c : ℕ) → Fits t x → Fits t (shift_down x c)
shift_down-Fits t (pos n) c h = (Fits-less t n (n / 2 ^ c) (div-le_self n (2 ^ c))).0 h
shift_down-Fits t (negsuc n) c h = (Fits-less t n (n / 2 ^ c) (div-le_self n (2 ^ c))).1 h

pub Fits-pos-lt : (t : IntType) (n : ℕ) → Fits t (pos n) → n < 2 ^ width t
Fits-pos-lt int_8 n h = omega arith
Fits-pos-lt int_16 n h = omega arith
Fits-pos-lt int_32 n h = omega arith
Fits-pos-lt int_64 n h = omega arith
Fits-pos-lt bits_8 n h = omega arith
Fits-pos-lt bits_16 n h = omega arith
Fits-pos-lt bits_32 n h = omega arith
Fits-pos-lt bits_64 n h = omega arith

pub Fits-negsuc :
    (t : IntType) (n : ℕ) → Fits t (negsuc n) → (is_signed t ≡ true) × (n < 2 ^ width t)
Fits-negsuc int_8 n h = (refl, omega arith)
Fits-negsuc int_16 n h = (refl, omega arith)
Fits-negsuc int_32 n h = (refl, omega arith)
Fits-negsuc int_64 n h = (refl, omega arith)
Fits-negsuc bits_8 n h = absurd (omega arith)
Fits-negsuc bits_16 n h = absurd (omega arith)
Fits-negsuc bits_32 n h = absurd (omega arith)
Fits-negsuc bits_64 n h = absurd (omega arith)
