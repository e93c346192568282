-- ===== src/FixedInt/Laws.antt =====
-- The operations compute in the integers modulo the width of their type.
use idris2_rc.Prelude.{
  ℕ, zero, suc, ◌+◌, ◌-◌, ◌*◌, ◌/◌, ◌^◌, ◌≤◌, ◌≡◌, refl, sym, ap, ◌∙◌, inl, inr, ◌⊎◌, Bool, true,
  false, arith, if◌then◌else◌, Bool-cases, [], ◌∷◌,
}
use native.Mathlib.Nat.{pow-suc}
use idris2_rc.Prelude.Int.{ℤ, pos, negsuc, ◌+ℤ◌, ◌-ℤ◌, ◌*ℤ◌}
use idris2_rc.Division.{to_bits, of_bits}
use idris2_rc.Immediate.{Boxed, to_u64, to_i64}
use idris2_rc.Prelude.{bit_and, bit_or, bit_xor}
use idris2_rc.FixedInt.{Cmp, compares, mk_bool, cmp_op, bits_and, bits_or, bits_xor, bits_op}
use idris2_rc.FixedInt.{
  IntType, is_tagged, int_8, int_64, bits_64, cast, mk, get, sub_u64, Op, add, sub, mul, shift_left,
  shift_right, shift_down, compute, def_op, def_op_reuse, reuse_result, Operand, Reused, first,
  second, fresh, box, is_unique, negate, negate_reuse, cast_num,
}
use idris2_rc.FixedInt.Bitwise.{and_ℤ, or_ℤ, xor_ℤ, to_bits-and, to_bits-or, to_bits-xor}
use idris2_rc.FixedInt.Shift.{shl_lem, shr_lem}
use idris2_rc.FixedInt.Wrap.{
  to_bits_idem, to_bits-lt, to_bits-of_bits, get-mk, cast-to_bits, add_u64-bits, sub_u64-bits,
  mul_u64-bits, Fits, cast-Fits, shift_down-Fits,
}

pow_add : (a b : ℕ) → 2 ^ (a + b) ≡ 2 ^ a * 2 ^ b
pow_add zero b = ap (λ (n : ℕ). 2 ^ n) {y = b} (omega arith) ∙ omega arith
pow_add (suc a) b =
    ap (λ (n : ℕ). 2 ^ n) {y = suc (a + b)} (omega arith)
    ∙ omega (arith, pow-suc 2 (a + b), pow_add a b, ap (λ (n : ℕ). n * 2 ^ b) (pow-suc 2 a))

le_split : (a b : ℕ) → a ≤ b → b ≡ a + (b - a)
le_split a b h = omega arith

-- A quotient that is rounded down.
abbrev pub floor_quotient : ℤ → ℕ → ℤ
floor_quotient (pos n) d = pos (n / d)
floor_quotient (negsuc n) d = negsuc (n / d)

-- What each operation means on unbounded integers; a right shift rounds down.
unfoldable pub arith_op : Op → ℤ → ℤ → ℤ
arith_op add x y = x +ℤ y
arith_op sub x y = x -ℤ y
arith_op mul x y = x *ℤ y
arith_op shift_left x y = x *ℤ pos (2 ^ to_bits 64 y)
arith_op shift_right x y = floor_quotient x (2 ^ to_bits 64 y)
arith_op bits_and x y = and_ℤ x y
arith_op bits_or x y = or_ℤ x y
arith_op bits_xor x y = xor_ℤ x y

shift_down-floor : (x : ℤ) (y : ℕ) → shift_down x y ≡ floor_quotient x (2 ^ y)
shift_down-floor (pos n) y = refl
shift_down-floor (negsuc n) y = refl

bits_op-cast :
    (t : IntType) (op : ℕ → ℕ → ℕ) (op_ℤ : ℤ → ℤ → ℤ) (x y : ℤ)
    → to_bits 64 (op_ℤ x y) ≡ op (to_bits 64 x) (to_bits 64 y)
    → cast t (bits_op op x y) ≡ cast t (op_ℤ x y)
unfolding bits_op
bits_op-cast t op op_ℤ x y same =
    let z = op_ℤ x y in
    rw (← same) (
      sym (cast-to_bits t (of_bits 64 (to_bits 64 z)))
      ∙ rw (to_bits-of_bits 63 (to_bits 64 z) (to_bits-lt z)) (cast-to_bits t z))

compute_lem :
    (op : Op) (t : IntType) (x y : ℤ) → Fits t x → compute op t x y ≡ cast t (arith_op op x y)
unfolding compute arith_op
compute_lem add t x y h = ap (cast t) (add_u64-bits x y) ∙ cast-to_bits t (x +ℤ y)
compute_lem sub t x y h = ap (cast t) (sub_u64-bits x y) ∙ cast-to_bits t (x -ℤ y)
compute_lem mul t x y h = ap (cast t) (mul_u64-bits x y) ∙ cast-to_bits t (x *ℤ y)
compute_lem shift_left t x y h = shl_lem t x (to_bits 64 y)
compute_lem shift_right t x y h =
    shr_lem t x (to_bits 64 y) h
    ∙ (sym (cast-Fits t (shift_down x (to_bits 64 y)) (shift_down-Fits t x (to_bits 64 y) h))
        ∙ ap (cast t) (shift_down-floor x (to_bits 64 y)))
compute_lem bits_and t x y h = bits_op-cast t bit_and and_ℤ x y (to_bits-and 64 x y)
compute_lem bits_or t x y h = bits_op-cast t bit_or or_ℤ x y (to_bits-or 64 x y)
compute_lem bits_xor t x y h = bits_op-cast t bit_xor xor_ℤ x y (to_bits-xor 64 x y)

-- Addition, subtraction, multiplication, both shifts and the bit operations of the types of 8, 16 and
-- 32 bits give the result on unbounded integers, which have endless digits in two's complement, modulo
-- the width of the type, in the type's range, where the first operand is a value of the type. This holds
-- for a shift count of the width or more, too.
pub def_op-arith :
    (op : Op) (t : IntType) (a b : Boxed)
    → is_tagged t ≡ true
    → Fits t (get t a)
    → get t (def_op op t a b) ≡ cast t (arith_op op (get t a) (get t b))
unfolding def_op
def_op-arith op t a b tagged h =
    let value = compute_lem op t (get t a) (get t b) h in
    rw value (get-mk t (arith_op op (get t a) (get t b)))

-- What a 64-bit operation does with its operands: it takes the storage of one that nothing else
-- refers to and drops the other, or it drops both.
pub TakesOwn : Reused → Operand → Operand → Type 0
TakesOwn r a b =
    ((r.storage ≡ first) × (is_unique a ≡ true) × (r.drops ≡ second ∷ []))
    ⊎ ((r.storage ≡ second) × (is_unique b ≡ true) × (r.drops ≡ first ∷ []))
    ⊎ ((r.storage ≡ fresh) × (r.drops ≡ first ∷ second ∷ []))

reuse_owns : (t : IntType) (x : ℤ) (a b : Operand) → TakesOwn (reuse_result t x a b) a b
unfolding TakesOwn reuse_result
reuse_owns t x a b = elim (Bool-cases (is_unique a)) [
  | inl own ↦ rw own (inl (refl, refl, refl))
  | inr shared ↦ elim (Bool-cases (is_unique b)) [
    | inl own ↦ rw (shared, own) (inr (inl (refl, refl, refl)))
    | inr both ↦ rw (shared, both) (inr (inr (refl, refl)))
  ]
]

-- The two types with boxes.
unfoldable pub IsWide : IntType → Type 0
IsWide t = (t ≡ int_64) ⊎ (t ≡ bits_64)

get-box : (t : IntType) (x : ℤ) → IsWide t → get t (box t (cast t x)) ≡ cast t x
unfolding IsWide get cast
get-box t x w = elim w [
  | inl e ↦ rw e (unfold to_i64 in refl)
  | inr e ↦ rw e (unfold to_u64 in ap pos (to_bits_idem 64 x))
]

get-reuse_result :
    (t : IntType) (x : ℤ) (a b : Operand)
    → IsWide t
    → get t (reuse_result t (cast t x) a b).dst ≡ cast t x
unfolding reuse_result
get-reuse_result t x a b w = elim (Bool-cases (is_unique a)) [
  | inl own ↦ rw own (get-box t x w)
  | inr shared ↦ elim (Bool-cases (is_unique b)) [
    | inl own ↦ rw (shared, own) (get-box t x w)
    | inr both ↦ rw (shared, both) (get-mk t x)
  ]
]

-- An operation of `Int64` or `Bits64` that reuses storage gives the same result, whichever storage
-- it takes; that is only ever the storage of an operand that nothing else refers to, and every
-- other operand is dropped once. The first operand is a value of the type.
pub def_op_reuse-arith :
    (op : Op) (t : IntType) (a b : Operand)
    → IsWide t
    → Fits t (get t a.value)
    → (get t (def_op_reuse op t a b).dst ≡ cast t (arith_op op (get t a.value) (get t b.value)))
      × TakesOwn (def_op_reuse op t a b) a b
unfolding def_op_reuse
def_op_reuse-arith op t a b w h =
    let value = compute_lem op t (get t a.value) (get t b.value) h in
    (
      rw value (get-reuse_result t (arith_op op (get t a.value) (get t b.value)) a b w),
      reuse_owns t _ a b,
    )

opposite : (t : IntType) (y : ℤ) → cast t (sub_u64 (pos 0) y) ≡ cast t (pos 0 -ℤ y)
opposite t y = ap (cast t) (sub_u64-bits (pos 0) y) ∙ cast-to_bits t (pos 0 -ℤ y)

-- Negation gives the opposite modulo the width, and of `Int64` also in the operand's storage.
pub negate-opposite :
    (t : IntType) (a : Boxed) (x : Operand)
    → (get t (negate t a) ≡ cast t (pos 0 -ℤ get t a))
      × (get int_64 (negate_reuse x).dst ≡ cast int_64 (pos 0 -ℤ get int_64 x.value))
unfolding negate negate_reuse IsWide
negate-opposite t a x =
    let value = opposite int_64 (get int_64 x.value) in
    (
      rw (opposite t (get t a)) (get-mk t (pos 0 -ℤ get t a)),
      elim (Bool-cases (is_unique x)) [
        | inl own ↦ rw (own, value) (get-box int_64 (pos 0 -ℤ get int_64 x.value) (inl refl))
        | inr shared ↦ rw (shared, value) (get-mk int_64 (pos 0 -ℤ get int_64 x.value))
      ],
    )

get-mk-Fits : (t : IntType) (x : ℤ) → Fits t x → get t (mk t x) ≡ x
get-mk-Fits t x h =
    let same = cast-Fits t x h in ap (λ i. get t (mk t i)) (sym same) ∙ (get-mk t x ∙ same)

-- A conversion between two of the eight types keeps a value that the target type has.
pub cast_num-value :
    (from to : IntType) (x : Boxed)
    → Fits to (get from x)
    → get to (cast_num from to x) ≡ get from x
unfolding cast_num
cast_num-value from to x h = get-mk to (get from x) ∙ cast-Fits to (get from x) h

-- A comparison of two numbers of a type, once they are made values, says by 1 or 0 how the numbers
-- themselves compare.
pub cmp_op-mk :
    (c : Cmp) (t : IntType) (x y : ℤ)
    → Fits t x
    → Fits t y
    → get int_8 (cmp_op c t (mk t x) (mk t y)) ≡ pos (if compares c x y then 1 else 0)
unfolding cmp_op mk_bool
cmp_op-mk c t x y hx hy = rw (get-mk-Fits t x hx, get-mk-Fits t y hy) (bool_back (compares c x y))
  where
    bool_back :
        (b : Bool) → get int_8 (mk int_8 (if b then pos 1 else pos 0)) ≡ pos (if b then 1 else 0)
    bool_back true = get-mk-Fits int_8 (pos 1) (omega arith)
    bool_back false = get-mk-Fits int_8 (pos 0) (omega arith)
