-- ===== src/Utf8/Examples.antt =====
-- Runs of the codec and of the string operations, and their theorems at small inputs.
use idris2_rc.Prelude.{ℕ, ◌≤◌, ◌≡◌, ◌≢◌, ◌+◌, refl, some, List, [], ◌∷◌, ◌++◌, arith, take, drop}
use idris2_rc.Utf8.{
  Decoded, replacement, is_continuation, lead_byte_len, is_scalar_of_len, lead_bits, finish,
  tail_loop, decode_at, decode_bounded, utf8_length, byte_offset_of_char, encode_len, encode_into,
}
use idris2_rc.Utf8.Decode.{decode, tail, decode_at-decode, IsScalar, decode_at-consumed}
use idris2_rc.Utf8.Encode.{decode-encode_into}
use idris2_rc.Utf8.Strict.{encode_into-decode}
use idris2_rc.Utf8.Chars.{chars}
use idris2_rc.Utf8.Walk.{byte_offset_of_char-splits}

-- "aé", a stray continuation byte, and a sequence of three bytes that is cut short.
abbrev broken : List ℕ
broken = 0x61 ∷ 0xC3 ∷ 0xA9 ∷ 0x80 ∷ 0xE4 ∷ 0xB8 ∷ []

broken_length : utf8_length broken 6 ≡ some 4
unfolding utf8_length decode_bounded lead_byte_len tail_loop is_continuation lead_bits finish
    is_scalar_of_len
broken_length = refl

overlong : decode_at (0xC0 ∷ 0x80 ∷ []) 2 0 ≡ some (record { cp = replacement; consumed = 2 })
unfolding decode_at lead_byte_len tail_loop is_continuation lead_bits finish is_scalar_of_len
overlong = refl

decode_at-decode_example : decode_at broken 6 1 ≡ some (decode (drop 1 (take 6 broken)))
decode_at-decode_example = decode_at-decode broken 6 1 (omega arith) (omega arith)

decode-encode_into_example :
    decode (encode_into 0x4E2D ++ broken) ≡ record { cp = 0x4E2D; consumed = encode_len 0x4E2D }
decode-encode_into_example = decode-encode_into 0x4E2D broken (omega arith)

encode_into-decode_example :
    take (decode (drop 1 broken)).consumed (drop 1 broken) ≡ encode_into (decode (drop 1 broken)).cp
encode_into-decode_example = encode_into-decode (drop 1 broken) (omega arith) decoded
  where
    decoded : (decode (drop 1 broken)).cp ≢ replacement
    decoded =
        unfold decode lead_byte_len tail is_continuation lead_bits finish is_scalar_of_len in
        omega arith

byte_offset_of_char-splits_example :
    (stop : ℕ) × (byte_offset_of_char broken 6 3 ≡ some stop)
    × (stop ≤ 6)
    × (chars (take stop (take 6 broken)) ≡ take 3 (chars (take 6 broken)))
    × (chars (drop stop (take 6 broken)) ≡ drop 3 (chars (take 6 broken)))
byte_offset_of_char-splits_example =
    byte_offset_of_char-splits broken 6 (omega arith) (omega arith) 3

-- The bound cuts the last sequence after its first byte.
decode_at-consumed_example :
    (d : Decoded) × (decode_at broken 5 4 ≡ some d)
    × IsScalar d.cp
    × (1 ≤ d.consumed)
    × (4 + d.consumed ≤ 5)
    × (d.consumed ≤ 4)
decode_at-consumed_example = decode_at-consumed broken 5 4 (omega arith) (omega arith) (omega arith)
