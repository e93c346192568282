-- ===== src/Utf8/Walk.antt =====
-- The two loops that walk over the characters of a byte string.
use idris2_rc.Prelude.{
  ℕ, zero, suc, ◌+◌, ◌-◌, ◌≤◌, ◌<◌, ◌≡◌, refl, ap, ◌∙◌, some, List, [], ◌∷◌, inl, inr, arith, ltb,
  tests, Bool-cases, drop, take, length, length-drop, length-take, drop-drop, drop-take_nil, lt→ltb,
}
use idris2_rc.Utf8.{Decoded, decode_at, length_loop, utf8_length, offset_loop, byte_offset_of_char}
use idris2_rc.Utf8.Decode.{decode, IsBytes, decode_at-decode, decode-consumed}
use native.Mathlib.Nat.{add-zero, zero-add, sub-zero}
use native.Mathlib.Decide.{dec_lt}
use idris2_rc.Utf8.Chars.{chars, chars-cons, chars-take}

-- The text of the bytes behind `offset`, up to the bound.
abbrev rest_at : List ℕ → ℕ → ℕ → List ℕ
rest_at s byte_len offset = drop offset (take byte_len s)

length-rest_at :
    (s : List ℕ) (byte_len offset : ℕ)
    → byte_len ≤ length s
    → length (rest_at s byte_len offset) ≡ byte_len - offset
length-rest_at s byte_len offset fits =
    omega (arith, length-drop offset (take byte_len s), length-take byte_len s)

-- What the step at an offset inside the bound gives, and where it leads.
record Step (s : List ℕ) (byte_len offset : ℕ) : Type 0 where
  d : Decoded
  decodes : decode_at s byte_len offset ≡ some d
  text : chars (rest_at s byte_len offset) ≡ d.cp ∷ chars (rest_at s byte_len (offset + d.consumed))
  cut :
      (k : ℕ)
      → d.consumed ≤ k
      → chars (take k (rest_at s byte_len offset))
        ≡ d.cp ∷ chars (take (k - d.consumed) (rest_at s byte_len (offset + d.consumed)))
  forward : 1 ≤ d.consumed
  within : offset + d.consumed ≤ byte_len

step_of :
    (s u : List ℕ) (byte_len offset : ℕ)
    → decode_at s byte_len offset ≡ some (decode u)
    → rest_at s byte_len offset ≡ u
    → offset < byte_len
    → length u ≡ byte_len - offset
    → Step s byte_len offset
step_of s [] byte_len offset e t h l = absurd (omega arith)
step_of s (b ∷ r) byte_len offset e t h l = record {
  d = decode (b ∷ r);
  decodes = e;
  text = rw (t, chars-cons b r, ← t, drop-drop);
  cut = λ k le. rw (t, chars-take b r k le, ← t, drop-drop);
  forward = (decode-consumed b r).0;
  within = omega (arith, decode-consumed b r);
}

module _ (s : List ℕ) (byte_len : ℕ) (bytes : IsBytes s) (fits : byte_len ≤ length s) where
  step : (offset : ℕ) → offset < byte_len → Step s byte_len offset
  step offset h =
      step_of s (rest_at s byte_len offset) byte_len offset
        (decode_at-decode s byte_len offset bytes fits) refl h
        (length-rest_at s byte_len offset fits)

  rest_at_end : (offset : ℕ) → byte_len ≤ offset → chars (rest_at s byte_len offset) ≡ []
  rest_at_end offset h = rw (drop-take_nil s byte_len offset h) (unfold chars in refl)

  length_loop-chars :
      (fuel offset n : ℕ)
      → offset ≤ byte_len
      → byte_len < fuel + offset
      → length_loop fuel s byte_len offset n ≡ some (n + length (chars (rest_at s byte_len offset)))
  unfolding length_loop
  length_loop-chars zero offset n le h = absurd (omega arith)
  length_loop-chars (suc fuel) offset n le h = elim (Bool-cases (ltb offset byte_len)) [
    | inl more ↦
        let st = step offset (omega tests) in
        rw (more, st.decodes, st.text)
          (length_loop-chars fuel (offset + st.d.consumed) (n + 1) st.within
              (omega (arith, st.forward))
            ∙ ap some (omega arith))
    | inr done ↦ rw (done, rest_at_end offset (omega tests), add-zero)
  ]

  -- Where the loop of offsets stops: past `left` characters, or at the bound.
  record Stops (left offset stop : ℕ) : Type 0 where
    reaches : offset_loop left s byte_len offset ≡ some stop
    behind : chars (rest_at s byte_len stop) ≡ drop left (chars (rest_at s byte_len offset))
    before :
        chars (take (stop - offset) (rest_at s byte_len offset))
        ≡ take left (chars (rest_at s byte_len offset))
    forward : offset ≤ stop
    within : stop ≤ byte_len

  Stops-next :
      (left offset stop : ℕ)
      → (lt : offset < byte_len) → Stops left (offset + (step offset lt).d.consumed) stop
      → Stops (suc left) offset stop
  unfolding offset_loop
  Stops-next left offset stop lt later =
      let st = step offset lt in
      let far : stop - offset - st.d.consumed ≡ stop - (offset + st.d.consumed) = omega arith in
      record {
        reaches = rw (lt→ltb offset byte_len lt, st.decodes) later.reaches;
        behind = rw st.text later.behind;
        before =
            st.cut (stop - offset) (omega (arith, later.forward)) ∙ rw (far, st.text, later.before);
        forward = omega (arith, later.forward);
        within = later.within;
      }

  offset_loop-Stops : (left offset : ℕ) → offset ≤ byte_len → (stop : ℕ) × Stops left offset stop
  unfolding offset_loop
  offset_loop-Stops zero offset le =
      let none_left : offset - offset ≡ 0 = omega arith in
      (
        offset,
        record {
          reaches = refl;
          behind = refl;
          before = rw none_left (unfold chars in refl);
          forward = omega arith;
          within = le;
        },
      )
  offset_loop-Stops (suc left) offset le = elim (dec_lt offset byte_len) [
    | yes lt ↦
        let st = step offset lt in
        let (stop, later) = offset_loop-Stops left (offset + st.d.consumed) st.within in
        (stop, Stops-next left offset stop lt later)
    | no ge ↦
        let none_left : offset - offset ≡ 0 = omega arith in
        let end = rest_at_end offset (omega arith) in
        (
          offset,
          record {
            reaches = ground arith;
            behind = rw end;
            before = rw (none_left, end) (unfold chars in refl);
            forward = omega arith;
            within = le;
          },
        )
  ]

  -- `idris2rc2_utf8Length` returns, and counts the characters.
  pub utf8_length-chars : utf8_length s byte_len ≡ some (length (chars (take byte_len s)))
  unfolding utf8_length
  utf8_length-chars = length_loop-chars (byte_len + 1) 0 0 (omega arith) (omega arith) ∙ rw zero-add

  -- The offset that `idris2rc2_utf8ByteOffsetOfChar` returns lies within the bound and splits the
  -- string behind its first `char_idx` characters: those are the characters before it, and the
  -- others stand behind it. For an index past the last character this is the bound itself.
  pub byte_offset_of_char-splits :
      (char_idx : ℕ)
      → (stop : ℕ) × (byte_offset_of_char s byte_len char_idx ≡ some stop)
        × (stop ≤ byte_len)
        × (chars (take stop (take byte_len s)) ≡ take char_idx (chars (take byte_len s)))
        × (chars (drop stop (take byte_len s)) ≡ drop char_idx (chars (take byte_len s)))
  unfolding byte_offset_of_char
  byte_offset_of_char-splits char_idx =
      let (stop, st) = offset_loop-Stops char_idx 0 (omega arith) in
      (stop, st.reaches, st.within, rw sub-zero at st.before, st.behind)

  -- The same loop from an offset inside the bound, as `idris2rc2_strSubstr` walks on.
  pub offset_loop-splits :
      (left offset : ℕ)
      → offset ≤ byte_len
      → (stop : ℕ) × (offset_loop left s byte_len offset ≡ some stop)
        × (offset ≤ stop)
        × (stop ≤ byte_len)
        × (chars (take (stop - offset) (drop offset (take byte_len s)))
            ≡ take left (chars (drop offset (take byte_len s))))
  offset_loop-splits left offset le =
      let (stop, st) = offset_loop-Stops left offset le in
      (stop, st.reaches, st.forward, st.within, st.before)
