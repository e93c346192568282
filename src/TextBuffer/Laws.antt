-- ===== src/TextBuffer/Laws.antt =====
-- Text buffers against the characters of a string.
use idris2_rc.Prelude.{
  ℕ, zero, suc, ◌+◌, ◌^◌, ◌%◌, ◌≤◌, ◌<◌, ◌≡◌, refl, ap, ◌∙◌, inl, inr, true, List, [], ◌∷◌, ◌++◌,
  arith, leb, ◌==◌, if◌then◌else◌, Bool-cases, drop, length, replicate, length-append,
  length-replicate, take-length_append, add_assoc, zero-add, All,
}
use mathlib.Core.List.{append-nil, append_assoc}
use idris2_rc.Prelude.Run.{ok, abort, ◌>>=◌}
use idris2_rc.Prelude.Int.{pos}
use idris2_rc.Utf8.{encode_into}
use idris2_rc.Utf8.Decode.{decode, IsScalar}
use idris2_rc.Utf8.Chars.{chars, chars_nil, chars-encode_all, encode_all}
use idris2_rc.Utf8.Walk.{utf8_length-chars}
use idris2_rc.Strings.{to_size}
use idris2_rc.Strings.Copy.{of_bytes, mk_empty_string-ok}
use idris2_rc.Strings.Ops.{IsContent, memory-IsBytes, memory-covers}
use idris2_rc.Strings.Pack.Laws.{
  pack_len_lem, memcpy-piece, encode_all-IsBytes, decode_inside, chars-drop, drop_past,
}
use idris2_rc.TextBuffer.{
  int32_max, mk_empty, fill_loop, string_to_text_buffer, write_loop, to_string,
}

empty_lem : (cs : List ℕ) → 0 ≡ length cs → cs ≡ []
empty_lem [] h = refl
empty_lem (c ∷ cs) h = absurd (omega arith)

module _ (bs : List ℕ) (c : IsContent bs) where
  fill_loop-chars :
      (left offset : ℕ)
      → left ≡ length (chars (drop offset bs))
      → fill_loop left (bs ++ 0 ∷ []) (length bs) offset ≡ ok (chars (drop offset bs))
  unfolding fill_loop
  fill_loop-chars zero offset h = rw (empty_lem (chars (drop offset bs)) h) refl
  fill_loop-chars (suc left) offset h = elim (Bool-cases (leb (length bs) offset)) [
    | inl past ↦
        let none_left : chars (drop offset bs) ≡ [] =
          rw (drop_past bs c offset (ground arith)) chars_nil in
        absurd (omega (arith, h, ap (λ t. length t) none_left))
    | inr inside ↦
        let (e, least, most) = chars-drop bs c offset (ground arith) in
        let more : suc left
            ≡ suc (length (chars (drop (offset + (decode (drop offset bs)).consumed) bs))) =
          h ∙ ap (λ t. length t) e in
        rw
          (
            decode_inside bs c offset,
            fill_loop-chars left (offset + (decode (drop offset bs)).consumed) (omega arith),
            e,
          )
          refl
  ]

  -- `idris2rc2_String_to_TextBuffer` holds the characters of the string, whatever bytes it has; it
  -- ends the program where their number does not fit `int`.
  pub string_to_text_buffer-chars :
      string_to_text_buffer (bs ++ 0 ∷ []) (pos (length bs))
      ≡ (if leb (length (chars bs)) int32_max then ok (chars bs) else abort)
  unfolding string_to_text_buffer mk_empty to_size
  string_to_text_buffer-chars =
      let short = c.short in
      let size : length bs % 2 ^ 64 ≡ length bs = omega arith in
      rw
        (
          size,
          utf8_length-chars (bs ++ 0 ∷ []) (length bs) (memory-IsBytes bs c) (memory-covers bs c),
          take-length_append bs (0 ∷ []),
        )
        (elim (Bool-cases (leb (length (chars bs)) int32_max)) [
          | inl fits ↦ rw (fits, length-replicate, fill_loop-chars (length (chars bs)) 0 refl)
          | inr large ↦ rw large
        ])

-- The terminator goes where `fastPackFixed` would leave the zeros.
write_loop_lem :
    (cs front : List ℕ)
    → write_loop cs (front ++ replicate (length (encode_all cs) + 1) 0) (length front)
      ≡ ok (front ++ encode_all cs ++ 0 ∷ [])
unfolding write_loop encode_all
write_loop_lem [] front =
    rw (append-nil front) (memcpy-piece front (0 ∷ []) [] 0 ∙ ap ok (append-nil (front ++ 0 ∷ [])))
write_loop_lem (c ∷ cs) front =
    rw
      (
        length-append (encode_into c) (encode_all cs),
        add_assoc (length (encode_into c)) (length (encode_all cs)) 1,
        (rw append-nil at (memcpy-piece front (encode_into c) [] (length (encode_all cs) + 1))),
        ← length-append front (encode_into c),
      )
      (write_loop_lem cs (front ++ encode_into c)
        ∙ ap (λ t. ok (t ++ 0 ∷ [])) (append_assoc front (encode_into c) (encode_all cs)))

-- `idris2rc2_TextBuffer_to_string` returns the encoding of the buffer, where that has less than
-- `2 ^ 32` bytes.
pub to_string-encode_all :
    (cs : List ℕ) → length (encode_all cs) < 2 ^ 32 → to_string cs ≡ ok (of_bytes (encode_all cs))
unfolding to_string
to_string-encode_all cs h =
    rw (pack_len_lem 0 cs (omega arith), zero-add (length (encode_all cs)))
      (elim (Bool-cases (length (encode_all cs) == 0)) [
        | inl empty ↦
            let nothing : encode_all cs ≡ [] = empty_lem (encode_all cs) (ground arith) in
            rw (empty, nothing) (mk_empty_string-ok 0 (omega arith))
        | inr some_bytes ↦
            rw (some_bytes, mk_empty_string-ok (length (encode_all cs)) h, write_loop_lem cs [])
              refl
      ])

-- A buffer of scalar values that a string can hold comes back from its string.
pub to_string-string_to_text_buffer :
    (cs : List ℕ)
    → All IsScalar cs
    → length (encode_all cs) < 2 ^ 32
    → length cs ≤ int32_max
    → (to_string cs >>= λ s. string_to_text_buffer s.str (pos s.len)) ≡ ok cs
to_string-string_to_text_buffer cs scalars h fits =
    let back : chars (encode_all cs) ≡ cs =
      rw (append-nil, chars_nil, append-nil) at (chars-encode_all cs [] scalars) in
    rw (to_string-encode_all cs h) (
      string_to_text_buffer-chars (encode_all cs)
        (record { bytes = encode_all-IsBytes cs; short = h })
      ∙ rw (back, leb_fits (length cs) fits))
  where
    leb_fits : (n : ℕ) → n ≤ int32_max → leb n int32_max ≡ true
    leb_fits n h = ground arith
