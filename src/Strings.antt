-- ===== src/Strings.antt =====
-- rc2/support/rc2/idris2rc2_strings.c, and the string constructors of idris2rc2_memory.c. Each
-- function is given by the string that it returns; that it also drops its operands is not part of
-- this model. An Idris list of characters is the list of its `args[0]`, as `uint32_t`. Allocation
-- succeeds.
pub mod Copy
pub mod Ops
pub mod Cast
pub mod Compare
pub mod Pack
pub mod Reverse
mod Examples
use Prim.Native.Nat.{min}
use idris2_rc.Prelude.{
  ℕ, zero, suc, ◌+◌, ◌-◌, ◌*◌, ◌%◌, ◌^◌, Bool, ◌&&◌, ◌||◌, true, false, List, [], ◌∷◌, ◌++◌, leb,
  ltb, ◌==◌, if◌then◌else◌, take, drop, length, replicate,
}
use idris2_rc.Prelude.Run.{Run, ok, abort, fault, ◌>>=◌, reading}
use idris2_rc.Prelude.Int.{ℤ, pos, negsuc}
use idris2_rc.Utf8.{
  decode_at, byte_offset_of_char, offset_loop, utf8_length, encode_len, encode_into,
}

-- `str` is the memory behind the pointer, the terminator included.
pub record Str : Type 0 where
  pub len : ℕ
  pub str : List ℕ

-- The cast of an `int64_t` to `size_t`.
unfoldable pub to_size : ℤ → ℕ
to_size (pos n) = n % 2 ^ 64
to_size (negsuc n) = 2 ^ 64 - 1 - n % 2 ^ 64

abbrev pub uint32_max : ℕ
uint32_max = 2 ^ 32 - 1

-- `memcpy(dst + at, src, n)`.
unfoldable pub memcpy : (dst : List ℕ) (at : ℕ) (src : List ℕ) (n : ℕ) → Run (List ℕ)
memcpy dst at src n =
    if leb (at + n) (length dst) && leb n (length src)
    then ok (take at dst ++ (take n src ++ drop (at + n) dst))
    else fault

pub checked_str_len : ℕ → Run ℕ
checked_str_len n = if leb n uint32_max then ok n else abort

-- `idris2rc2_emptyStringValue`.
abbrev pub empty_string : Str
empty_string = record { len = 0; str = 0 ∷ [] }

pub mk_empty_string : (buf_len : ℕ) → Run Str
mk_empty_string buf_len = if buf_len == 1 then ok empty_string else (do
  len ← checked_str_len ((buf_len + 2 ^ 64 - 1) % 2 ^ 64)
  ok (record { len = len; str = replicate buf_len 0 }))

pub mk_string_len : (s : List ℕ) (len : ℕ) → Run Str
mk_string_len s len = if len == 0 then ok empty_string else (do
  n ← checked_str_len len
  copied ← memcpy (replicate (len + 1) 0) 0 s len
  ok (record { len = n; str = copied }))

pub str_tail : Str → Run Str
str_tail s = do
  offset ← reading (byte_offset_of_char s.str s.len 1)
  if leb s.len offset then ok empty_string else (do
    r ← mk_empty_string (s.len - offset + 1)
    copied ← memcpy r.str 0 (drop offset s.str) (s.len - offset)
    ok (record r { str = copied }))

pub str_index : Str → ℤ → Run ℕ
str_index s i = do
  offset ← reading (byte_offset_of_char s.str s.len (to_size i))
  d ← reading (decode_at s.str s.len offset)
  ok d.cp

pub str_cons : ℕ → Str → Run Str
str_cons cp s = do
  r ← mk_empty_string (encode_len cp + s.len + 1)
  head ← memcpy r.str 0 (encode_into cp) (length (encode_into cp))
  copied ← memcpy head (encode_len cp) s.str s.len
  ok (record r { str = copied })

pub str_append : Str → Str → Run Str
str_append a b = do
  total ← checked_str_len (a.len + b.len)
  r ← mk_empty_string (total + 1)
  front ← memcpy r.str 0 a.str a.len
  copied ← memcpy front a.len b.str b.len
  ok (record r { str = copied })

abbrev pub is_negative : ℤ → Bool
is_negative (pos n) = false
is_negative (negsuc n) = true

-- The second loop counts up to the `int64_t` length, which is not negative there.
pub str_substr : (start len : ℤ) → Str → Run Str
str_substr start len s = if is_negative start || is_negative len then mk_empty_string 1 else (do
  start_byte ← reading (byte_offset_of_char s.str s.len (to_size start))
  offset ← reading (offset_loop (to_size len) s.str s.len start_byte)
  r ← mk_empty_string (offset - start_byte + 1)
  copied ← memcpy r.str 0 (drop start_byte s.str) (offset - start_byte)
  ok (record r { str = copied }))
