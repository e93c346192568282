-- ===== src/Strings/Cast.antt =====
-- The casts between a character and a string of rc2/support/rc2/idris2rc2_numeric.c.
use idris2_rc.Prelude.{
  ℕ, ◌+◌, ◌≡◌, ◌∙◌, false, [], ◌∷◌, ◌++◌, arith, ◌==◌, if◌then◌else◌, length, take-length,
  take-length_append, length-append, All-append,
}
use mathlib.Core.List.{append-nil}
use idris2_rc.Prelude.Run.{Run, ok, ◌>>=◌, reading}
use idris2_rc.Utf8.{decode_at, encode_into, encode_len}
use idris2_rc.Utf8.Decode.{IsScalar, decode_at-decode}
use idris2_rc.Utf8.Encode.{
  decode-encode_into, length-encode_into, encode_into-IsBytes, encode_len_bounds,
}
use idris2_rc.Strings.{Str, memcpy, mk_empty_string}
use idris2_rc.Strings.Copy.{of_bytes, fresh_copy}

-- The code points of the characters stand for them.
pub cast_char_to_string : ℕ → Run Str
cast_char_to_string c = do
  r ← mk_empty_string (encode_len c + 1)
  copied ← memcpy r.str 0 (encode_into c) (encode_len c)
  ok (record r { str = copied })

pub cast_string_to_char : Str → Run ℕ
cast_string_to_char s =
    if s.len == 0 then ok 0 else (do d ← reading (decode_at s.str s.len 0); ok d.cp)

-- The string of a scalar value is its encoding alone, and is cast back to the value.
pub cast_char_to_string-back :
    (c : ℕ)
    → IsScalar c
    → (cast_char_to_string c ≡ ok (of_bytes (encode_into c)))
      × ((cast_char_to_string c >>= cast_string_to_char) ≡ ok c)
unfolding cast_char_to_string cast_string_to_char
cast_char_to_string-back c scalar =
    let bounds = encode_len_bounds c in
    let len = length-encode_into c in
    let made : (cast_char_to_string c ≡ ok (of_bytes (encode_into c))) =
      fresh_copy (encode_into c) (encode_len c) (omega (arith, len)) (omega (arith, bounds))
      ∙ rw (← len, take-length) in
    let some_byte : (length (encode_into c) == 0) ≡ false = ground arith in
    let back =
      decode_at-decode (encode_into c ++ 0 ∷ []) (length (encode_into c)) 0
        (All-append _ (encode_into c) (0 ∷ []) (encode_into-IsBytes c) (omega arith, tt))
        (omega (arith, length-append (encode_into c) (0 ∷ []))) in
    let alone = decode-encode_into c [] scalar in
    let one = (rw append-nil at alone) in
    (made, rw (made, some_byte, back, take-length_append, one))
