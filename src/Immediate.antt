-- ===== src/Immediate.antt =====
-- rc2/support/rc2/idris2rc2_datatypes.h and idris2rc2_memory.h: integers packed into the word of a
-- value, and the boxes of 64 bits of idris2rc2_memory.c for those that do not fit. Words and
-- unsigned integers are natural numbers under `2 ^ 64`.
pub mod Laws
mod Examples
use idris2_rc.Prelude.{
  ℕ, ◌+◌, ◌-◌, ◌*◌, ◌/◌, ◌%◌, ◌^◌, Bool, ◌&&◌, bit_and, bit_or, u32, u64, ltb, ◌==◌, if◌then◌else◌,
}
use idris2_rc.Prelude.Int.{ℤ, pos, negsuc, leb_ℤ, ltb_ℤ}
use idris2_rc.Strings.{to_size}

-- A value: an immediate word, or a heap object, here a box of 64 bits.
pub data Boxed : Type 0 where
  word : ℕ → Boxed
  bits64 : ℕ → Boxed
  int64 : ℤ → Boxed

unfoldable pub is_unboxed : ℕ → Bool
is_unboxed p = bit_and p 1 == 1

-- `IDRIS2RC2_IMM`.
unfoldable pub immediate : (bits : ℕ) → ℕ
immediate bits = bit_or (u64 (bits * 2 ^ 1)) 1

-- The cast of an unsigned integer of `w` bits to the signed one.
unfoldable pub signed : (w n : ℕ) → ℤ
signed w n = if ltb n (2 ^ (w - 1)) then pos n else negsuc (2 ^ w - 1 - n)

-- A right shift by one of a signed integer rounds down.
unfoldable pub half : ℤ → ℤ
half (pos n) = pos (n / 2)
half (negsuc n) = negsuc (n / 2)

unfoldable pub mk_bits64 : ℕ → Boxed
mk_bits64 i = if ltb i (2 ^ 63) then word (immediate i) else bits64 i

unfoldable pub to_u64 : Boxed → ℕ
to_u64 (word p) = p / 2
to_u64 (bits64 v) = v
to_u64 (int64 v) = to_size v

unfoldable pub mk_int64 : ℤ → Boxed
mk_int64 i =
    if leb_ℤ (negsuc (2 ^ 62 - 1)) i && ltb_ℤ i (pos (2 ^ 62))
    then word (immediate (to_size i))
    else int64 i

unfoldable pub to_i64 : Boxed → ℤ
to_i64 (word p) = half (signed 64 p)
to_i64 (bits64 v) = signed 64 v
to_i64 (int64 v) = v

-- The types of at most 32 bits sit in the upper half.
unfoldable pub mk_bits32 : ℕ → ℕ
mk_bits32 x = u64 (u32 x * 2 ^ 32) + 1

unfoldable pub to_u32 : ℕ → ℕ
to_u32 p = u32 (p / 2 ^ 32)

unfoldable pub mk_int32 : ℤ → ℕ
mk_int32 x = u64 (u32 (to_size x) * 2 ^ 32) + 1

unfoldable pub to_i32 : ℕ → ℤ
to_i32 p = signed 32 (u32 (p / 2 ^ 32))
