-- ===== src/FixedInt.antt =====
-- rc2/support/rc2/idris2rc2_numeric.h, the operations of the integers of 8, 16, 32 and 64 bits:
-- its tables of types, and the functions that its macros declare for each of them. A narrow type is
-- packed into the word of a value; `Int64` and `Bits64` may be boxed, and their operations take the
-- storage of an operand that nothing else refers to. A C integer is an integer in the range of its
-- type, a conversion to a C type wraps, and `>>` of a negative number rounds down.
pub mod Wrap
pub mod Bitwise
pub mod Shift
pub mod Laws
pub mod Divide
mod Examples
use idris2_rc.Prelude.{
  ℕ, ◌+◌, ◌-◌, ◌*◌, ◌/◌, ◌%◌, ◌^◌, Bool, true, false, ◌&&◌, ◌||◌, List, [], ◌∷◌, leb, ltb, ◌==◌,
  if◌then◌else◌, u64, bit_and, bit_or, bit_xor,
}
use idris2_rc.Prelude.Run.{Run, ok, fault}
use idris2_rc.Prelude.Int.{ℤ, pos, negsuc, leb_ℤ, ltb_ℤ}
use idris2_rc.Division.{is_negative, to_bits, of_bits, wrap, ediv, ediv_small, emod, emod_i64}
use idris2_rc.Immediate.{Boxed, word, bits64, int64, mk_bits64, to_u64, mk_int64, to_i64}

-- `IDRIS2RC2_INTTYPES`: the `TAGGED` ones and the `REUSABLE` ones.
pub data IntType : Type 0 where
  int_8 : IntType
  int_16 : IntType
  int_32 : IntType
  int_64 : IntType
  bits_8 : IntType
  bits_16 : IntType
  bits_32 : IntType
  bits_64 : IntType

-- `IDRIS2RC2_INTTYPES_TAGGED`: the types whose values are always packed.
abbrev pub is_tagged : IntType → Bool
is_tagged int_64 = false
is_tagged bits_64 = false
is_tagged t = true

abbrev pub width : IntType → ℕ
width int_8 = 8
width int_16 = 16
width int_32 = 32
width int_64 = 64
width bits_8 = 8
width bits_16 = 16
width bits_32 = 32
width bits_64 = 64

abbrev pub is_signed : IntType → Bool
is_signed int_8 = true
is_signed int_16 = true
is_signed int_32 = true
is_signed int_64 = true
is_signed bits_8 = false
is_signed bits_16 = false
is_signed bits_32 = false
is_signed bits_64 = false

-- The C type's conversion `(CTY)(x)`.
unfoldable pub cast : IntType → ℤ → ℤ
cast t x = if is_signed t then wrap (width t) x else pos (to_bits (width t) x)

-- `MK`: a narrow type lies in the upper half of the word.
unfoldable pub mk : IntType → ℤ → Boxed
mk int_64 x = mk_int64 x
mk bits_64 x = mk_bits64 (to_bits 64 x)
mk t x = word (u64 (to_bits (width t) x * 2 ^ 32) + 1)

abbrev pub upper : Boxed → ℕ
upper (word p) = p / 2 ^ 32
upper (bits64 v) = 0
upper (int64 v) = 0

-- `GET`. A narrow type never has a box.
unfoldable pub get : IntType → Boxed → ℤ
get int_64 v = to_i64 v
get bits_64 v = pos (to_u64 v)
get t v = cast t (pos (upper v))

-- The arithmetic runs in `uint64_t`.
unfoldable pub add_u64 : ℤ → ℤ → ℤ
add_u64 x y = pos ((to_bits 64 x + to_bits 64 y) % 2 ^ 64)

unfoldable pub sub_u64 : ℤ → ℤ → ℤ
sub_u64 x y = pos ((to_bits 64 x + (2 ^ 64 - to_bits 64 y)) % 2 ^ 64)

unfoldable pub mul_u64 : ℤ → ℤ → ℤ
mul_u64 x y = pos (to_bits 64 x * to_bits 64 y % 2 ^ 64)

-- `idris2rc2_shl_<TY>` and `idris2rc2_shr_<TY>`.
unfoldable pub shl : IntType → ℤ → (count : ℕ) → ℤ
shl t x y = if leb (width t) y then pos 0 else cast t (pos (to_bits 64 x * 2 ^ y % 2 ^ 64))

abbrev pub shift_down : ℤ → (count : ℕ) → ℤ
shift_down (pos n) y = pos (n / 2 ^ y)
shift_down (negsuc n) y = negsuc (n / 2 ^ y)

unfoldable pub shr : IntType → ℤ → (count : ℕ) → ℤ
shr t x y =
    if leb (width t) y
    then (if is_signed t && is_negative x then negsuc 0 else pos 0)
    else cast t (shift_down x y)

-- `&`, `|` and `^` on the two's complement of the promoted operands, here of 64 bits.
unfoldable pub bits_op : (ℕ → ℕ → ℕ) → ℤ → ℤ → ℤ
bits_op op x y = of_bits 64 (op (to_bits 64 x) (to_bits 64 y))

-- What a function of two operands computes, before it makes a value of it.
pub data Op : Type 0 where
  add : Op
  sub : Op
  mul : Op
  shift_left : Op
  shift_right : Op
  bits_and : Op
  bits_or : Op
  bits_xor : Op

unfoldable pub compute : Op → IntType → ℤ → ℤ → ℤ
compute add t x y = cast t (add_u64 x y)
compute sub t x y = cast t (sub_u64 x y)
compute mul t x y = cast t (mul_u64 x y)
compute shift_left t x y = shl t x (to_bits 64 y)
compute shift_right t x y = shr t x (to_bits 64 y)
compute bits_and t x y = cast t (bits_op bit_and x y)
compute bits_or t x y = cast t (bits_op bit_or x y)
compute bits_xor t x y = cast t (bits_op bit_xor x y)

-- `idris2rc2_<OPNAME>_<TY>` of a type that is tagged; those of the other two are `def_op_reuse`.
unfoldable pub def_op : Op → IntType → Boxed → Boxed → Boxed
def_op op t a b = mk t (compute op t (get t a) (get t b))

-- An operand of a 64-bit operation, with the count of its references where it has a box.
pub record Operand : Type 0 where
  pub value : Boxed
  pub refs : ℕ

abbrev pub has_box : Boxed → Bool
has_box (word p) = false
has_box (bits64 v) = true
has_box (int64 v) = true

abbrev pub is_unique : Operand → Bool
is_unique x = has_box x.value && x.refs == 1

abbrev pub box : IntType → ℤ → Boxed
box bits_64 x = bits64 (to_bits 64 x)
box t x = int64 x

-- Whose storage the result takes, and which operands are dropped.
pub data Storage : Type 0 where
  first : Storage
  second : Storage
  fresh : Storage

pub record Reused : Type 0 where
  pub dst : Boxed
  pub storage : Storage
  pub drops : List Storage

-- `IDRIS2RC2_DEFOP_REUSE_RESULT`.
unfoldable pub reuse_result : IntType → (result : ℤ) → Operand → Operand → Reused
reuse_result t result a b =
    if is_unique a
    then record { dst = box t result; storage = first; drops = second ∷ [] }
    else if is_unique b
    then record { dst = box t result; storage = second; drops = first ∷ [] }
    else record { dst = mk t result; storage = fresh; drops = first ∷ second ∷ [] }

unfoldable pub def_op_reuse : Op → IntType → Operand → Operand → Reused
def_op_reuse op t a b = reuse_result t (compute op t (get t a.value) (get t b.value)) a b

-- `idris2rc2_negate_<TY>`; that of `Int64` takes the storage of its operand.
unfoldable pub negate : IntType → Boxed → Boxed
negate t x = mk t (cast t (sub_u64 (pos 0) (get t x)))

unfoldable pub negate_reuse : Operand → Reused
negate_reuse x =
    let result = cast int_64 (sub_u64 (pos 0) (get int_64 x.value)) in
    if is_unique x
    then record { dst = int64 result; storage = first; drops = [] }
    else record { dst = mk int_64 result; storage = fresh; drops = first ∷ [] }

-- `idris2rc2_<OPNAME>_<TY>` of a comparison, whose `mkBool` makes an `Int8`. A `Char` is compared as
-- a `Bits32`.
pub data Cmp : Type 0 where
  lt : Cmp
  gt : Cmp
  eq : Cmp
  lte : Cmp
  gte : Cmp

unfoldable pub compares : Cmp → ℤ → ℤ → Bool
compares lt x y = ltb_ℤ x y
compares gt x y = ltb_ℤ y x
compares eq x y = leb_ℤ x y && leb_ℤ y x
compares lte x y = leb_ℤ x y
compares gte x y = leb_ℤ y x

unfoldable pub mk_bool : Bool → Boxed
mk_bool b = mk int_8 (if b then pos 1 else pos 0)

unfoldable pub cmp_op : Cmp → IntType → Boxed → Boxed → Boxed
cmp_op c t a b = mk_bool (compares c (get t a) (get t b))

-- The division of each type: Euclid's for the signed ones. By 0 it is undefined behaviour.
unfoldable pub divide : IntType → ℤ → ℤ → ℤ
divide int_8 x y = ediv_small 8 x y
divide int_16 x y = ediv_small 16 x y
divide int_32 x y = ediv 32 x y
divide int_64 x y = ediv 64 x y
divide t x y = pos (to_bits 64 x / to_bits 64 y)

unfoldable pub modulo : IntType → ℤ → ℤ → ℤ
modulo int_8 x y = emod 8 x y
modulo int_16 x y = emod 16 x y
modulo int_32 x y = emod 32 x y
modulo int_64 x y = emod_i64 x y
modulo t x y = pos (to_bits 64 x % to_bits 64 y)

abbrev pub is_zero : ℤ → Bool
is_zero (pos n) = n == 0
is_zero (negsuc n) = false

unfoldable pub div_op : IntType → Boxed → Boxed → Run Boxed
div_op t a b = if is_zero (get t b) then fault else ok (mk t (divide t (get t a) (get t b)))

unfoldable pub mod_op : IntType → Boxed → Boxed → Run Boxed
mod_op t a b = if is_zero (get t b) then fault else ok (mk t (modulo t (get t a) (get t b)))

unfoldable pub div_reuse : IntType → Operand → Operand → Run Reused
div_reuse t a b =
    if is_zero (get t b.value)
    then fault
    else ok (reuse_result t (divide t (get t a.value) (get t b.value)) a b)

unfoldable pub mod_reuse : IntType → Operand → Operand → Run Reused
mod_reuse t a b =
    if is_zero (get t b.value)
    then fault
    else ok (reuse_result t (modulo t (get t a.value) (get t b.value)) a b)

-- `idris2rc2_cast_<FROM>_to_<TO>`.
unfoldable pub cast_num : (from to : IntType) → Boxed → Boxed
cast_num from to x = mk to (cast to (get from x))

unfoldable pub char_from_codepoint : ℤ → ℕ
char_from_codepoint (pos v) =
    if leb v 0xD7FF || (leb 0xE000 v && leb v 0x10FFFF) then v % 2 ^ 32 else 0
char_from_codepoint (negsuc v) = 0

-- `idris2rc2_cast_<FROM>_to_Char` and `idris2rc2_cast_Char_to_<TO>`: a `Char` has the layout of a
-- `Bits32`.
unfoldable pub cast_to_char : IntType → Boxed → Boxed
cast_to_char from x = mk bits_32 (pos (char_from_codepoint (cast int_64 (get from x))))

unfoldable pub cast_char_to : IntType → Boxed → Boxed
cast_char_to to x = mk to (cast to (get bits_32 x))
