-- ===== src/TextBuffer.antt =====
-- libs/rc2base/support/c/idris2rc2_rc2base_text_util.c: text as an array of code points. A buffer
-- is the list of the `len` items behind its header; each is allocated with its final length.
pub mod Laws
mod Examples
use idris2_rc.Prelude.{
  ℕ, zero, suc, ◌+◌, ◌-◌, ◌^◌, List, [], ◌∷◌, leb, ◌==◌, if◌then◌else◌, length, replicate,
}
use idris2_rc.Prelude.Run.{Run, ok, abort, ◌>>=◌, reading}
use idris2_rc.Prelude.Int.{ℤ}
use idris2_rc.Utf8.{decode_at, utf8_length, encode_into}
use idris2_rc.Strings.{Str, is_negative, to_size, memcpy, mk_empty_string}
use idris2_rc.Strings.Pack.{pack_len}

abbrev pub TextBuffer : Type 0
TextBuffer = List ℕ

abbrev pub int32_max : ℕ
int32_max = 2 ^ 31 - 1

-- A `size_t` length past `INT64_MAX` is negative as `int64_t`; the check refuses it too.
pub mk_empty : (len : ℕ) → Run TextBuffer
mk_empty len = if leb len int32_max then ok (replicate len 0) else abort

-- The `for` loop of `idris2rc2_String_to_TextBuffer`.
pub fill_loop : (left : ℕ) (utf8_str : List ℕ) (byte_len offset : ℕ) → Run (List ℕ)
fill_loop zero utf8_str byte_len offset = ok []
fill_loop (suc left) utf8_str byte_len offset = do
  d ← reading (decode_at utf8_str byte_len offset)
  cs ← fill_loop left utf8_str byte_len (offset + d.consumed)
  ok (d.cp ∷ cs)

pub string_to_text_buffer : (utf8_str : List ℕ) (byte_len_i : ℤ) → Run TextBuffer
string_to_text_buffer utf8_str byte_len_i =
    let byte_len = if is_negative byte_len_i then 0 else to_size byte_len_i in
    (do
      len ← reading (utf8_length utf8_str byte_len)
      buffer ← mk_empty len
      fill_loop (length buffer) utf8_str byte_len 0)

pub append : TextBuffer → TextBuffer → Run TextBuffer
append a b = do
  r ← mk_empty (length a + length b)
  front ← memcpy r 0 a (length a)
  memcpy front (length a) b (length b)

-- The second loop of `idris2rc2_TextBuffer_to_string`, and the terminator behind it.
pub write_loop : List ℕ → (out : List ℕ) (p : ℕ) → Run (List ℕ)
write_loop [] out p = memcpy out p (0 ∷ []) 1
write_loop (c ∷ cs) out p = do
  out' ← memcpy out p (encode_into c) (length (encode_into c))
  write_loop cs out' (p + length (encode_into c))

pub to_string : TextBuffer → Run Str
to_string buf =
    let out_len = pack_len 0 buf in
    if out_len == 0 then mk_empty_string 1 else (do
      r ← mk_empty_string (out_len + 1)
      out ← write_loop buf r.str 0
      ok (record r { str = out }))
