-- ===== src/Strings/Reverse.antt =====
-- `idris2rc2_strReverse` of rc2/support/rc2/idris2rc2_strings.c: the offsets of the characters, and the
-- characters copied from the last to the first.
pub mod Laws
use idris2_rc.Prelude.{
  ℕ, zero, suc, ◌+◌, ◌-◌, ◌*◌, ◌^◌, ◌≤◌, ◌<◌, ◌≡◌, refl, sym, ap, ◌∙◌, some, List, [], ◌∷◌, ◌++◌,
  arith, u64, drop, take, length, replicate, length-append, take-length_append, drop-length_append,
  get_elem?, add_assoc, zero-add, add-zero, All, All-append,
}
use mathlib.Core.List.{append-nil, append_assoc, reverse, reverse-cons, reverse-reverse}
use idris2_rc.Prelude.Run.{Run, ok, ◌>>=◌, reading}
use idris2_rc.Utf8.{decode_at, utf8_length, encode_len, encode_into}
use idris2_rc.Utf8.Decode.{IsBytes, IsScalar, decode_at-decode}
use idris2_rc.Utf8.Encode.{decode-encode_into, length-encode_into, encode_len_bounds}
use idris2_rc.Utf8.Chars.{chars, chars_nil, encode_all, chars-encode_all}
use idris2_rc.Utf8.Walk.{utf8_length-chars}
use idris2_rc.Strings.{Str, memcpy, mk_empty_string}
use idris2_rc.Strings.Copy.{of_bytes, mk_empty_string-ok}
use idris2_rc.Strings.Ops.{IsContent, memory-IsBytes, memory-covers}

-- The loop that fills `offsets`, for `left` characters from `offset` on.
unfoldable pub offsets_loop : (left : ℕ) (s : List ℕ) (byte_len offset : ℕ) → Run (List ℕ)
offsets_loop zero s byte_len offset = ok []
offsets_loop (suc left) s byte_len offset = do
  d ← reading (decode_at s byte_len offset)
  more ← offsets_loop left s byte_len (offset + d.consumed)
  ok (offset ∷ more)

-- The loop that copies the characters before the index `i`.
unfoldable pub reverse_loop : (i : ℕ) (offsets src out : List ℕ) (out_pos : ℕ) → Run (List ℕ)
reverse_loop zero offsets src out out_pos = ok out
reverse_loop (suc i) offsets src out out_pos = do
  start ← reading (get_elem? offsets i)
  stop ← reading (get_elem? offsets (suc i))
  let width = u64 (stop + 2 ^ 64 - start)
  copied ← memcpy out out_pos (drop start src) width
  reverse_loop i offsets src copied (out_pos + width)

unfoldable pub str_reverse : Str → Run Str
unfolding offsets_loop reverse_loop
str_reverse s = do
  n ← reading (utf8_length s.str s.len)
  offsets ← offsets_loop n s.str s.len 0
  r ← mk_empty_string (s.len + 1)
  out ← reverse_loop n (offsets ++ s.len ∷ []) s.str r.str 0
  ok (record r { str = out })
