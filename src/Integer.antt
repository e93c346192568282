-- ===== src/Integer.antt =====
-- Idris's `Integer` of rc2/support/rc2/idris2rc2_memory.h, idris2rc2_memory.c (its constructors)
-- and idris2rc2_numeric.h, idris2rc2_numeric.c (its operations): a number from -(2 ^ 62) to
-- 2 ^ 62 - 1 is packed into the word of a value, any other is a box around a number of GMP. GMP is
-- a parameter: its operations, and what its manual says of them. An `int64_t` operation that
-- overflows is undefined behaviour. The names of the operands stand for their storage, so that a
-- result says what it keeps and what is dropped; dropping a word does nothing.
pub mod Mpz
pub mod Canonical
pub mod Words
pub mod Laws
pub mod Shift
pub mod Cast
pub mod Order
pub mod Owners
mod Model
mod Examples
use idris2_rc.Prelude.{
  ℕ, ◌+◌, ◌-◌, ◌*◌, ◌%◌, ◌^◌, Bool, true, false, ◌&&◌, ◌||◌, not, List, [], ◌∷◌, ◌++◌, leb, ltb,
  ◌==◌, if◌then◌else◌,
}
use idris2_rc.Prelude.Run.{Run, ok, fault, ◌>>=◌}
use idris2_rc.Prelude.Int.{ℤ, pos, negsuc, nat_abs, leb_ℤ, ltb_ℤ, ◌+ℤ◌, ◌-ℤ◌, ◌*ℤ◌}
use idris2_rc.Strings.{to_size}
use idris2_rc.Division.{is_negative, cdiv, crem, to_bits, wrap}
use idris2_rc.Immediate.{immediate, signed, half}
use Mpz.{Gmp}

-- A value of this type: a word, or a box with its count of references.
pub data Integer (M : Type 0) : Type 0 where
  packed : ℕ → Integer M
  boxed : (rc : ℕ) → M → Integer M

-- `idris2rc2_imm_signed` and `IDRIS2RC2_IMM_INT64`.
unfoldable pub imm_signed : ℕ → ℤ
imm_signed p = half (signed 64 p)

unfoldable pub imm_int64 : ℤ → ℕ
imm_int64 x = immediate (to_size x)

abbrev pub imm_min : ℤ
imm_min = negsuc (2 ^ 62 - 1)

abbrev pub imm_limit : ℤ
imm_limit = pos (2 ^ 62)

-- Whose storage a box lies in.
pub data Owner : Type 0 where
  left : Owner
  right : Owner
  fresh : Owner

-- What a function returns, the storage that the result keeps, and what it drops.
pub record Outcome (M : Type 0) : Type 0 where
  pub result : Integer M
  pub keeps : List Owner
  pub drops : List Owner

abbrev pub is_unique : {M : Type 0} → Integer M → Bool
is_unique (packed p) = false
is_unique (boxed rc z) = rc == 1

abbrev pub is_zero : ℤ → Bool
is_zero (pos n) = n == 0
is_zero (negsuc n) = false

-- The result of an `int64_t` operation.
abbrev pub fits_i64 : ℤ → Bool
fits_i64 x = leb_ℤ (negsuc (2 ^ 63 - 1)) x && ltb_ℤ x (pos (2 ^ 63))

abbrev pub int64 : ℤ → Run ℤ
int64 x = if fits_i64 x then ok x else fault

abbrev pub packed_result : {M : Type 0} → ℤ → Outcome M
packed_result x = record { result = packed (imm_int64 x); keeps = []; drops = [] }

module _ (g : Gmp) where
  unfoldable pub mk_integer_boxed_i64 : ℤ → Outcome g.Mpz
  mk_integer_boxed_i64 n = record {
    result = boxed 1 (g.mpz_set_si n);
    keeps = fresh ∷ [];
    drops = [];
  }

  unfoldable pub mk_integer_boxed_u64 : ℕ → Outcome g.Mpz
  mk_integer_boxed_u64 n = record {
    result = boxed 1 (g.mpz_set_ui n);
    keeps = fresh ∷ [];
    drops = [];
  }

  unfoldable pub mk_integer_i64 : ℤ → Outcome g.Mpz
  unfolding mk_integer_boxed_i64
  mk_integer_i64 n =
      if leb_ℤ imm_min n && ltb_ℤ n imm_limit then packed_result n else mk_integer_boxed_i64 n

  unfoldable pub mk_integer_u64 : ℕ → Outcome g.Mpz
  unfolding mk_integer_boxed_u64
  mk_integer_u64 n = if ltb n (2 ^ 62) then packed_result (pos n) else mk_integer_boxed_u64 n

  unfoldable pub integer_view : Integer g.Mpz → g.Mpz
  integer_view (boxed rc z) = z
  integer_view (packed p) =
      let n = imm_signed p in
      let limb = if is_negative n then to_bits 64 (pos 0 -ℤ n) else to_bits 64 n in
      g.mpz_roinit_n limb (if is_negative n then negsuc 0 else pos 1)

  -- `idris2rc2_integerNormalize` of a box in the storage `at`, after `drops`.
  unfoldable pub normalize : (at : Owner) (drops : List Owner) → g.Mpz → Outcome g.Mpz
  normalize at drops r =
      let size = g.mp_size r in
      let mag = g.mp_d r in
      let positive = ltb_ℤ (pos 0) size in
      let stays : Outcome g.Mpz = record { result = boxed 1 r; keeps = at ∷ []; drops = drops } in
      let leaves : ℤ → Outcome g.Mpz =
        λ x. record { result = packed (imm_int64 x); keeps = []; drops = drops ++ (at ∷ []) } in
      if not (ltb_ℤ size (pos 0) || positive)
      then leaves (pos 0)
      else if not (nat_abs size == 1)
      then stays
      else if (if positive then leb (2 ^ 62) mag else ltb (2 ^ 62) mag)
      then stays
      else leaves (if positive then wrap 64 (pos mag) else pos 0 -ℤ wrap 64 (pos mag))

  -- A number that comes from foreign code.
  unfoldable pub mk_integer_from_mpz : g.Mpz → Outcome g.Mpz
  mk_integer_from_mpz src = normalize fresh [] (g.mpz_set src)

  -- Where `idris2rc2_integerBinopSlow` puts its result, and which operands it drops.
  unfoldable pub place : (x y : Integer g.Mpz) → Owner
  place x y = if is_unique x then left else if is_unique y then right else fresh

  abbrev pub drop_others : Owner → List Owner
  drop_others left = right ∷ []
  drop_others right = left ∷ []
  drop_others fresh = left ∷ right ∷ []

  unfoldable pub binop_slow : (fn : g.Mpz → g.Mpz → g.Mpz) (x y : Integer g.Mpz) → Outcome g.Mpz
  unfolding place normalize integer_view
  binop_slow fn x y =
      let dst = place x y in normalize dst (drop_others dst) (fn (integer_view x) (integer_view y))

  unfoldable pub negate_slow : Integer g.Mpz → Outcome g.Mpz
  negate_slow x =
      let dst = if is_unique x then left else fresh in
      normalize dst (if is_unique x then [] else left ∷ []) (g.mpz_neg (integer_view x))

  unfoldable pub add_integer : (x y : Integer g.Mpz) → Run (Outcome g.Mpz)
  add_integer (packed p) (packed q) = do
    sum ← int64 (imm_signed p +ℤ imm_signed q)
    ok (mk_integer_i64 sum)
  add_integer x y = ok (binop_slow g.mpz_add x y)

  unfoldable pub sub_integer : (x y : Integer g.Mpz) → Run (Outcome g.Mpz)
  sub_integer (packed p) (packed q) = do
    difference ← int64 (imm_signed p -ℤ imm_signed q)
    ok (mk_integer_i64 difference)
  sub_integer x y = ok (binop_slow g.mpz_sub x y)

  -- `__builtin_mul_overflow` sends an overflow to the slow path.
  unfoldable pub mul_integer : (x y : Integer g.Mpz) → Run (Outcome g.Mpz)
  mul_integer (packed p) (packed q) =
      let r = imm_signed p *ℤ imm_signed q in
      if fits_i64 r then ok (mk_integer_i64 r) else ok (binop_slow g.mpz_mul (packed p) (packed q))
  mul_integer x y = ok (binop_slow g.mpz_mul x y)

  unfoldable pub mod_integer : (x y : Integer g.Mpz) → Run (Outcome g.Mpz)
  mod_integer (packed p) (packed q) =
      let b = imm_signed q in
      let r = crem (imm_signed p) b in
      if is_zero b then ok (binop_slow g.mpz_mod (packed p) (packed q)) else (do
        magnitude ← int64 (if is_negative b then pos 0 -ℤ b else b)
        rest ← int64 (if is_negative r then r +ℤ magnitude else r)
        ok (packed_result rest))
  mod_integer x y = ok (binop_slow g.mpz_mod x y)

  unfoldable pub negate_integer : Integer g.Mpz → Run (Outcome g.Mpz)
  negate_integer (packed p) = do
    opposite ← int64 (pos 0 -ℤ imm_signed p)
    ok (mk_integer_i64 opposite)
  negate_integer (boxed rc z) = ok (negate_slow (boxed rc z))

  -- It borrows its operands.
  unfoldable pub div_slow : (x y : Integer g.Mpz) → Outcome g.Mpz
  div_slow x y =
      let xv = integer_view x in
      let yv = integer_view y in
      let rem = g.mpz_mod xv yv in normalize fresh [] (g.mpz_divexact (g.mpz_sub xv rem) yv)

  unfoldable pub div_integer : (x y : Integer g.Mpz) → Run (Outcome g.Mpz)
  div_integer (packed p) (packed q) =
      let a = imm_signed p in
      let b = imm_signed q in
      if is_zero b then ok (div_slow (packed p) (packed q)) else (do
        quot ← int64 (cdiv a b)
        adjusted ← int64 (
            quot
            +ℤ (if is_negative (crem a b)
                then (if ltb_ℤ (pos 0) b then negsuc 0 else pos 1)
                else pos 0))
        ok (mk_integer_i64 adjusted))
  div_integer x y = ok (div_slow x y)

  unfoldable pub cmp_slow : (x y : Integer g.Mpz) → ℤ
  cmp_slow x y = g.mpz_cmp (integer_view x) (integer_view y)

  -- The order of two words as `intptr_t`.
  unfoldable pub integer_cmp : (x y : Integer g.Mpz) → ℤ
  integer_cmp (packed p) (packed q) =
      let x = signed 64 p in
      let y = signed 64 q in pos (if ltb_ℤ y x then 1 else 0) -ℤ pos (if ltb_ℤ x y then 1 else 0)
  integer_cmp x y = cmp_slow x y

  unfoldable pub lt_integer_raw : (x y : Integer g.Mpz) → Bool
  lt_integer_raw x y = is_negative (integer_cmp x y)

  unfoldable pub gt_integer_raw : (x y : Integer g.Mpz) → Bool
  gt_integer_raw x y = ltb_ℤ (pos 0) (integer_cmp x y)

  unfoldable pub lte_integer_raw : (x y : Integer g.Mpz) → Bool
  lte_integer_raw x y = leb_ℤ (integer_cmp x y) (pos 0)

  unfoldable pub gte_integer_raw : (x y : Integer g.Mpz) → Bool
  gte_integer_raw x y = leb_ℤ (pos 0) (integer_cmp x y)

  -- A word is the same value as itself alone.
  unfoldable pub eq_integer_raw : (x y : Integer g.Mpz) → Bool
  eq_integer_raw (packed p) (packed q) = p == q
  eq_integer_raw (packed p) (boxed rc z) = false
  eq_integer_raw (boxed rc z) (packed q) = false
  eq_integer_raw x y = is_zero (cmp_slow x y)
