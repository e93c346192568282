-- ===== src/Strings/Ops.antt =====
-- What each string operation does to the characters.
use idris2_rc.Prelude.{
  ℕ, ◌+◌, ◌-◌, ◌^◌, ◌≤◌, ◌<◌, ◌≡◌, ap, ◌∙◌, true, false, some, List, [], ◌∷◌, ◌++◌, inl, inr, arith,
  leb, if◌then◌else◌, ◌||◌, Bool-cases, take, drop, length, get_or, get_or-drop, length-append,
  length-take, length-drop, take-length, take-length_append, All-append, All-take, All-drop,
  take-drop, drop-take_nil,
}
use mathlib.Core.List.{append-nil}
use idris2_rc.Prelude.Run.{ok, abort}
use idris2_rc.Prelude.Int.{ℤ}
use idris2_rc.Utf8.{replacement, byte_offset_of_char, encode_len, encode_into}
use idris2_rc.Utf8.Decode.{IsBytes, IsScalar, decode_at-decode}
use idris2_rc.Utf8.Encode.{length-encode_into, encode_len_bounds, encode_into-IsBytes}
use idris2_rc.Utf8.Chars.{chars, chars-encode_into, decode-get_or, chars_nil}
use idris2_rc.Utf8.Walk.{byte_offset_of_char-splits, offset_loop-splits}
use idris2_rc.Strings.{
  to_size, is_negative, mk_empty_string, checked_str_len, uint32_max, str_tail, str_index, str_cons,
  str_append, str_substr,
}
use idris2_rc.Strings.Copy.{of_bytes, mk_empty_string-abort, fresh_slice, two_copies}

-- The content of a string of the runtime: bytes, of a length that fits `uint32_t`.
pub record IsContent (bs : List ℕ) : Type 0 where
  pub bytes : IsBytes bs
  pub short : length bs < 2 ^ 32

module _ (bs : List ℕ) (c : IsContent bs) where
  pub memory-IsBytes : IsBytes (bs ++ 0 ∷ [])
  memory-IsBytes = All-append _ bs (0 ∷ []) c.bytes (omega arith, tt)

  pub memory-covers : length bs ≤ length (bs ++ 0 ∷ [])
  memory-covers = omega (arith, length-append bs (0 ∷ []))

  -- The offset of a character, in terms of the content alone.
  offset_of_char :
      (i : ℕ)
      → (stop : ℕ) × (byte_offset_of_char (bs ++ 0 ∷ []) (length bs) i ≡ some stop)
        × (stop ≤ length bs)
        × (chars (take stop bs) ≡ take i (chars bs))
        × (chars (drop stop bs) ≡ drop i (chars bs))
  offset_of_char i =
      rw (take-length_append bs (0 ∷ [])) at
        (byte_offset_of_char-splits (bs ++ 0 ∷ []) (length bs) memory-IsBytes memory-covers i)

  drop-IsContent : (n : ℕ) → IsContent (drop n bs)
  drop-IsContent n = record {
    bytes = All-drop _ n bs c.bytes;
    short = omega (arith, c.short, length-drop n bs);
  }

  take-IsContent : (n : ℕ) → IsContent (take n bs)
  take-IsContent n = record {
    bytes = All-take _ n bs c.bytes;
    short = omega (arith, c.short, length-take n bs);
  }

  drop_end : (stop : ℕ) → take (length bs - stop) (drop stop bs) ≡ drop stop bs
  drop_end stop = rw (take-drop, take-length)

  -- `idris2rc2_strTail` drops the first character, whatever the bytes are; on the empty string it
  -- gives the empty string.
  pub str_tail-chars :
      (rs : List ℕ) × (str_tail (of_bytes bs) ≡ ok (of_bytes rs))
      × IsContent rs
      × (chars rs ≡ drop 1 (chars bs))
  unfolding str_tail
  str_tail-chars =
      let (stop, found, within, front, behind) = offset_of_char 1 in
      let short = c.short in
      let none_left : (length bs ≤ stop) → drop stop bs ≡ [] =
        λ h. rw (← take-length bs) (drop-take_nil bs (length bs) stop h) in
      (
        drop stop bs,
        rw found (elim (Bool-cases (leb (length bs) stop)) [
          | inl past ↦ rw (past, none_left (ground arith))
          | inr inside ↦ rw inside (
              fresh_slice bs stop (length bs - stop) (omega arith) (omega arith)
              ∙ ap (λ t. ok (of_bytes t)) (drop_end stop))
        ]),
        drop-IsContent stop,
        behind,
      )

  -- `idris2rc2_strIndex` gives the character at the index, and U+FFFD at an index that is
  -- negative or past the end.
  pub str_index-chars :
      (i : ℤ) → str_index (of_bytes bs) i ≡ ok (get_or (chars bs) (to_size i) replacement)
  unfolding str_index
  str_index-chars i =
      let (stop, found, within, front, behind) = offset_of_char (to_size i) in
      rw
        (
          found,
          decode_at-decode (bs ++ 0 ∷ []) (length bs) stop memory-IsBytes memory-covers,
          take-length_append bs (0 ∷ []),
        )
        (ap ok (
          decode-get_or (drop stop bs)
          ∙ rw behind (get_or-drop (to_size i) (chars bs) replacement)))

  -- `idris2rc2_strCons` puts the character in front, where the result has less than `2 ^ 32` bytes.
  pub str_cons-chars :
      (cp : ℕ)
      → IsScalar cp
      → encode_len cp + length bs < 2 ^ 32
      → (rs : List ℕ) × (str_cons cp (of_bytes bs) ≡ ok (of_bytes rs))
        × IsContent rs
        × (chars rs ≡ cp ∷ chars bs)
  unfolding str_cons
  str_cons-chars cp scalar small = (
    encode_into cp ++ bs,
    rw (← length-encode_into cp) (
        rw append-nil at
          (two_copies (encode_into cp) bs [] (0 ∷ []) (omega (arith, length-encode_into cp)))),
    record {
      bytes = All-append _ (encode_into cp) bs (encode_into-IsBytes cp) c.bytes;
      short = omega (arith, length-append (encode_into cp) bs, length-encode_into cp);
    },
    chars-encode_into cp bs scalar,
  )

  -- `idris2rc2_strCons` ends the program where the result would have `2 ^ 32` bytes or more.
  pub str_cons-abort :
      (cp : ℕ) → 2 ^ 32 ≤ encode_len cp + length bs → str_cons cp (of_bytes bs) ≡ abort
  unfolding str_cons
  str_cons-abort cp large = rw (
      mk_empty_string-abort (encode_len cp + length bs) large
        (omega (arith, c.short, encode_len_bounds cp)))

leb-true : (n : ℕ) → leb n uint32_max ≡ true → n < 2 ^ 32
leb-true n h = ground arith

module _ (xs bs : List ℕ) where
  -- `idris2rc2_strAppend` joins the bytes, and ends the program where there are `2 ^ 32` or more.
  pub str_append-bytes :
      str_append (of_bytes xs) (of_bytes bs)
      ≡ (if leb (length xs + length bs) uint32_max then ok (of_bytes (xs ++ bs)) else abort)
  unfolding str_append checked_str_len
  str_append-bytes = elim (Bool-cases (leb (length xs + length bs) uint32_max)) [
    | inl small ↦
        rw small (two_copies xs bs (0 ∷ []) (0 ∷ []) (leb-true (length xs + length bs) small))
    | inr large ↦ rw large
  ]

module _ (bs : List ℕ) (c : IsContent bs) where
  substr_slice :
      (start len : ℤ)
      → (is_negative start || is_negative len) ≡ false
      → (rs : List ℕ) × (str_substr start len (of_bytes bs) ≡ ok (of_bytes rs))
        × IsContent rs
        × (chars rs ≡ take (to_size len) (drop (to_size start) (chars bs)))
  unfolding str_substr
  substr_slice start len neg =
      let (from, found, from_le, front, behind) = offset_of_char bs c (to_size start) in
      let (stop, stops, after, stop_le, text) =
        offset_loop-splits (bs ++ 0 ∷ []) (length bs) (memory-IsBytes bs c) (memory-covers bs c)
          (to_size len) from from_le in
      let short = c.short in
      (
        take (stop - from) (drop from bs),
        rw (neg, found, stops) (fresh_slice bs from (stop - from) (omega arith) (omega arith)),
        take-IsContent (drop from bs) (drop-IsContent bs c from) (stop - from),
        (rw (take-length_append bs (0 ∷ []), behind) at text),
      )

  -- `idris2rc2_strSubstr` gives the characters from the start on, at most as many as the length,
  -- whatever the bytes are; a negative start or length gives the empty string.
  pub str_substr-chars :
      (start len : ℤ)
      → (rs : List ℕ) × (str_substr start len (of_bytes bs) ≡ ok (of_bytes rs))
        × IsContent rs
        × (chars rs ≡ (
            if is_negative start || is_negative len
            then []
            else take (to_size len) (drop (to_size start) (chars bs))))
  str_substr-chars start len = elim (Bool-cases (is_negative start || is_negative len)) [
    | inl neg ↦ (
      [],
      unfold str_substr mk_empty_string in rw neg,
      record { bytes = tt; short = omega arith },
      rw neg chars_nil,
    )
    | inr neg ↦ rw neg (substr_slice start len neg)
  ]
