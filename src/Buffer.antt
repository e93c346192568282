-- ===== src/Buffer.antt =====
-- rc2/support/rc2/idris2rc2_buffer.c: byte buffers. A buffer is the list of its `size` bytes;
-- `size` is a C `int`. Allocation succeeds, and two buffers that a copy names are distinct.
pub mod Splice
pub mod Laws
pub mod Text
mod Examples
use idris2_rc.Prelude.{
  ℕ, zero, suc, ◌+◌, ◌-◌, ◌*◌, ◌/◌, ◌%◌, ◌^◌, ◌&&◌, List, u8, u64, ltb, leb, if◌then◌else◌, length,
  get_or, set, replicate, drop,
}
use idris2_rc.Prelude.Run.{Run, ok, abort, fault, ◌>>=◌}
use idris2_rc.Prelude.Int.{ℤ, pos, negsuc, pos_part}
use idris2_rc.Strings.{Str, memcpy, mk_string_len}

abbrev pub RawBuffer : Type 0
RawBuffer = List ℕ

pub new_buffer : (bytes : ℕ) → RawBuffer
new_buffer bytes = replicate bytes 0

pub assert_valid_range : RawBuffer → (offset len : ℤ) → Run {0} Unit
assert_valid_range buf (negsuc o) len = abort
assert_valid_range buf (pos o) (negsuc n) = abort
assert_valid_range buf (pos o) (pos n) =
    if leb o (length buf) && leb n (length buf - o) then ok tt else abort

pub copy_buffer :
    (bfrom : RawBuffer) (from_offset len : ℤ) (bto : RawBuffer) (to_offset : ℤ) → Run RawBuffer
copy_buffer bfrom from_offset len bto to_offset = do
  valid ← assert_valid_range bfrom from_offset len
  valid ← assert_valid_range bto to_offset len
  memcpy bto (pos_part to_offset) (drop (pos_part from_offset) bfrom) (pos_part len)

-- The cast of a `size_t` to `int64_t`.
pub from_size : ℕ → ℤ
from_size n = if ltb n (2 ^ 63) then pos n else negsuc (2 ^ 64 - n - 1)

-- `data[loc] = b` and `data[loc]`.
pub poke : RawBuffer → (loc b : ℕ) → Run RawBuffer
poke buf loc b = if ltb loc (length buf) then ok (set buf loc b) else fault

pub peek : RawBuffer → (loc : ℕ) → Run ℕ
peek buf loc = if ltb loc (length buf) then ok (get_or buf loc 0) else fault

-- The loop of `setBufferUIntLE`.
pub set_loop : (len : ℕ) → RawBuffer → (loc val : ℕ) → Run RawBuffer
set_loop zero buf loc val = ok buf
set_loop (suc len) buf loc val =
    poke buf loc (u8 val) >>= λ buf'. set_loop len buf' (loc + 1) (val / 2 ^ 8)

pub set_buffer_uint_le : RawBuffer → (loc : ℤ) (val len : ℕ) → Run RawBuffer
set_buffer_uint_le buf loc val len =
    assert_valid_range buf loc (from_size len) >>= λ valid. set_loop len buf (pos_part loc) val

-- The loop of `getBufferUIntLE`; `loc` stands behind the byte that is read next.
pub get_loop : (len : ℕ) → RawBuffer → (loc r : ℕ) → Run ℕ
get_loop zero buf loc r = ok r
get_loop (suc len) buf loc r =
    peek buf (loc - 1) >>= λ b. get_loop len buf (loc - 1) (u64 (u64 (r * 2 ^ 8) + b))

pub get_buffer_uint_le : RawBuffer → (loc : ℤ) (len : ℕ) → Run ℕ
get_buffer_uint_le buf loc len =
    assert_valid_range buf loc (from_size len) >>= λ valid. get_loop len buf (pos_part loc + len) 0

pub set_buffer_string_fixed : RawBuffer → (at : ℤ) → Str → Run RawBuffer
set_buffer_string_fixed buf at s = do
  valid ← assert_valid_range buf at (pos s.len)
  memcpy buf (pos_part at) s.str s.len

pub get_buffer_string_fixed : RawBuffer → (at n : ℤ) → Run Str
get_buffer_string_fixed buf at n = do
  valid ← assert_valid_range buf at n
  mk_string_len (drop (pos_part at) buf) (pos_part n)
