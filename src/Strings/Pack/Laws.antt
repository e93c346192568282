-- ===== src/Strings/Pack/Laws.antt =====
-- What the loops between strings and lists compute.
use idris2_rc.Prelude.{
  ℕ, zero, suc, ◌+◌, ◌-◌, ◌*◌, ◌^◌, ◌≤◌, ◌<◌, ◌≡◌, refl, ap, ◌∙◌, inl, inr, ◌⊎◌, none, some, List,
  [], ◌∷◌, ◌++◌, arith, ltb, leb, ◌==◌, Bool-cases, u64, u32, drop, length, replicate,
  length-append, length-drop, drop-drop, drop-take_nil, take-length, take-length_append, add_assoc,
  zero-add, All, All-append, map,
}
use mathlib.Core.List.{append-nil, append_assoc}
use idris2_rc.Prelude.Run.{ok, ◌>>=◌}
use idris2_rc.Utf8.{encode_len, encode_into, decode_at}
use idris2_rc.Utf8.Decode.{decode, IsBytes, IsScalar, decode_at-decode, decode-consumed}
use idris2_rc.Utf8.Encode.{length-encode_into, encode_len_bounds, encode_into-IsBytes}
use idris2_rc.Utf8.Chars.{chars, chars-cons, chars_nil, chars-encode_all, encode_all}
use idris2_rc.Strings.{memcpy, checked_str_len}
use idris2_rc.Strings.Copy.{of_bytes, mk_empty_string-ok, memcpy-append}
use idris2_rc.Strings.Ops.{IsContent, memory-IsBytes, memory-covers}
use idris2_rc.Strings.Pack.{
  pack_len, pack_loop, fast_pack_fixed, unpack_loop, unpack_bytes, fast_unpack_fixed, concat_len,
  concat_loop, fast_concat_fixed, Step, string_iterator_next_fixed,
}

pub pack_len_lem :
    (byte_len : ℕ) (cs : List ℕ)
    → byte_len + length (encode_all cs) < 2 ^ 64
    → pack_len byte_len cs ≡ byte_len + length (encode_all cs)
unfolding pack_len encode_all
pack_len_lem byte_len [] h = omega arith
pack_len_lem byte_len (c ∷ cs) h =
    let l = length-append (encode_into c) (encode_all cs) in
    let e = length-encode_into c in
    let wraps : u64 (byte_len + encode_len c) ≡ byte_len + encode_len c = omega arith in
    rw wraps (pack_len_lem (byte_len + encode_len c) cs (omega arith) ∙ omega arith)

checked_str_len-ok : (n : ℕ) → n < 2 ^ 32 → checked_str_len n ≡ ok n
unfolding checked_str_len
checked_str_len-ok n h = ground arith

-- One whole piece behind what has been written.
pub memcpy-piece :
    (front src over : List ℕ) (k : ℕ)
    → memcpy (front ++ replicate (length src + k) 0) (length front) (src ++ over) (length src)
      ≡ ok ((front ++ src) ++ replicate k 0)
memcpy-piece front src over k =
    memcpy-append front (src ++ over) (length src) k (omega (arith, length-append src over))
    ∙ rw (take-length_append src over)

pack_loop_lem :
    (cs front : List ℕ) (k : ℕ)
    → pack_loop cs (front ++ replicate (length (encode_all cs) + k) 0) (length front)
      ≡ ok ((front ++ encode_all cs) ++ replicate k 0)
unfolding pack_loop encode_all
pack_loop_lem [] front k = rw (append-nil, zero-add)
pack_loop_lem (c ∷ cs) front k =
    rw
      (
        length-append (encode_into c) (encode_all cs),
        add_assoc (length (encode_into c)) (length (encode_all cs)) k,
        (rw append-nil at (memcpy-piece front (encode_into c) [] (length (encode_all cs) + k))),
        ← length-append front (encode_into c),
      )
      (pack_loop_lem cs (front ++ encode_into c) k
        ∙ ap (λ t. ok (t ++ replicate k 0)) (append_assoc front (encode_into c) (encode_all cs)))

-- `idris2rc2_fastPackFixed` returns the encoding of the characters, where that has less than
-- `2 ^ 32` bytes.
pub fast_pack_fixed-encode_all :
    (cs : List ℕ)
    → length (encode_all cs) < 2 ^ 32
    → fast_pack_fixed cs ≡ ok (of_bytes (encode_all cs))
unfolding fast_pack_fixed
fast_pack_fixed-encode_all cs h =
    rw
      (
        pack_len_lem 0 cs (omega arith),
        zero-add (length (encode_all cs)),
        checked_str_len-ok (length (encode_all cs)) h,
        mk_empty_string-ok (length (encode_all cs)) h,
        pack_loop_lem cs [] 1,
      )
      refl

-- At most four bytes for each character.
pub length-encode_all : (cs : List ℕ) → length (encode_all cs) ≤ 4 * length cs
unfolding encode_all
length-encode_all [] = omega arith
length-encode_all (c ∷ cs) = omega (
  arith,
  length-append (encode_into c) (encode_all cs),
  length-encode_into c,
  encode_len_bounds c,
  length-encode_all cs,
)

pub chars-encoded : (cs : List ℕ) → All IsScalar cs → chars (encode_all cs) ≡ cs
chars-encoded cs scalars =
    let whole = chars-encode_all cs [] scalars in rw (append-nil, chars_nil, append-nil) at whole

pub encode_all-IsBytes : (cs : List ℕ) → IsBytes (encode_all cs)
unfolding encode_all
encode_all-IsBytes [] = tt
encode_all-IsBytes (c ∷ cs) =
    All-append _ (encode_into c) (encode_all cs) (encode_into-IsBytes c) (encode_all-IsBytes cs)

module _ (bs : List ℕ) (c : IsContent bs) where
  pub decode_inside :
      (offset : ℕ) → decode_at (bs ++ 0 ∷ []) (length bs) offset ≡ some (decode (drop offset bs))
  decode_inside offset =
      decode_at-decode (bs ++ 0 ∷ []) (length bs) offset (memory-IsBytes bs c) (memory-covers bs c)
      ∙ rw (take-length_append bs (0 ∷ []))

  pub chars-drop :
      (offset : ℕ)
      → offset < length bs
      → (chars (drop offset bs)
          ≡ (decode (drop offset bs)).cp
            ∷ chars (drop (offset + (decode (drop offset bs)).consumed) bs))
        × (1 ≤ (decode (drop offset bs)).consumed)
        × (offset + (decode (drop offset bs)).consumed ≤ length bs)
  chars-drop offset h = by_cons (drop offset bs) refl
    where
      by_cons :
          (u : List ℕ)
          → u ≡ drop offset bs
          → (chars (drop offset bs)
              ≡ (decode (drop offset bs)).cp
                ∷ chars (drop (offset + (decode (drop offset bs)).consumed) bs))
            × (1 ≤ (decode (drop offset bs)).consumed)
            × (offset + (decode (drop offset bs)).consumed ≤ length bs)
      by_cons [] e = absurd (omega (arith, length-drop offset bs, ap (λ t. length t) e))
      by_cons (b ∷ r) e =
          let l : suc (length r) ≡ length bs - offset =
            ap (λ t. length t) e ∙ length-drop offset bs in
          let d = decode-consumed b r in
          rw (← drop-drop (decode (drop offset bs)).consumed offset bs, ← e)
            (chars-cons b r, d.0, omega arith)

  pub drop_past : (offset : ℕ) → length bs ≤ offset → drop offset bs ≡ []
  drop_past offset h = rw take-length at (drop-take_nil bs (length bs) offset h)

  unpack_loop-chars :
      (fuel offset : ℕ)
      → 1 ≤ fuel
      → length bs < fuel + offset
      → unpack_loop fuel (bs ++ 0 ∷ []) (length bs) offset ≡ ok (chars (drop offset bs))
  unfolding unpack_loop
  unpack_loop-chars zero offset some_fuel h = absurd (omega arith)
  unpack_loop-chars (suc fuel) offset some_fuel h = elim (Bool-cases (ltb offset (length bs))) [
    | inl inside ↦
        let (e, least, most) = chars-drop offset (ground arith) in
        rw
          (
            inside,
            decode_inside offset,
            unpack_loop-chars fuel (offset + (decode (drop offset bs)).consumed) (ground arith)
                (omega arith),
            e,
          )
          refl
    | inr past ↦ rw (past, drop_past offset (ground arith), chars_nil)
  ]

  -- `idris2rc2_fastUnpackFixed` returns, with the characters of the string, whatever bytes it has.
  pub fast_unpack_fixed-chars : fast_unpack_fixed (of_bytes bs) ≡ ok (chars bs)
  unfolding fast_unpack_fixed unpack_bytes
  fast_unpack_fixed-chars = elim (Bool-cases (length bs == 0)) [
    | inl empty ↦ rw (empty, drop_past 0 (ground arith), chars_nil)
    | inr some_left ↦
        let (e, least, most) = chars-drop 0 (ground arith) in
        rw
          (
            some_left,
            decode_inside 0,
            unpack_loop-chars (length bs) (decode bs).consumed (ground arith) (omega arith),
            e,
            zero-add (decode bs).consumed,
          )
          refl
  ]

  -- `idris2rc2_stringIteratorNextFixed` gives the first character from the position on, and the
  -- position behind it, which lies further on and still in the string; it gives NULL where no
  -- character is left.
  pub string_iterator_next_fixed-chars :
      (pos : ℕ)
      → (string_iterator_next_fixed (of_bytes bs) pos ≡ ok none) × (chars (drop pos bs) ≡ [])
        ⊎ ((s : Step) × (string_iterator_next_fixed (of_bytes bs) pos ≡ ok (some s))
            × (chars (drop pos bs) ≡ s.char ∷ chars (drop s.rest bs))
            × (pos < s.rest)
            × (s.rest ≤ length bs))
  unfolding string_iterator_next_fixed
  string_iterator_next_fixed-chars pos = elim (Bool-cases (leb (length bs) pos)) [
    | inl past ↦ inl (rw past, rw (drop_past pos (ground arith), chars_nil))
    | inr inside ↦
        let (e, least, most) = chars-drop pos (ground arith) in
        let short = c.short in
        let behind : u32 (pos + u32 (decode (drop pos bs)).consumed)
            ≡ pos + (decode (drop pos bs)).consumed =
          omega arith in
        inr (
          record { char = (decode (drop pos bs)).cp; rest = pos + (decode (drop pos bs)).consumed },
          rw (inside, decode_inside pos, behind),
          e,
          omega arith,
          most,
        )
  ]

-- Unpacking what was packed from scalar values gives the list back.
pub fast_unpack-pack :
    (cs : List ℕ)
    → All IsScalar cs
    → length (encode_all cs) < 2 ^ 32
    → (fast_pack_fixed cs >>= λ s. fast_unpack_fixed s) ≡ ok cs
fast_unpack-pack cs scalars h = rw (fast_pack_fixed-encode_all cs h) (
    fast_unpack_fixed-chars (encode_all cs) (record { bytes = encode_all-IsBytes cs; short = h })
    ∙ ap ok (chars-encoded cs scalars))

-- The bytes of a list of strings.
unfoldable pub concat_bytes : List (List ℕ) → List ℕ
concat_bytes [] = []
concat_bytes (bs ∷ bss) = bs ++ concat_bytes bss

concat_len_lem :
    (total : ℕ) (bss : List (List ℕ))
    → total + length (concat_bytes bss) < 2 ^ 64
    → concat_len total (map of_bytes bss) ≡ total + length (concat_bytes bss)
unfolding concat_len concat_bytes
concat_len_lem total [] h = omega arith
concat_len_lem total (bs ∷ bss) h =
    let l = length-append bs (concat_bytes bss) in
    let wraps : u64 (total + length bs) ≡ total + length bs = omega arith in
    rw (concat_len, wraps) (concat_len_lem (total + length bs) bss (omega arith) ∙ omega arith)

concat_loop_lem :
    (bss : List (List ℕ)) (front : List ℕ) (k : ℕ)
    → concat_loop
        (map of_bytes bss)
        (front ++ replicate (length (concat_bytes bss) + k) 0)
        (length front)
      ≡ ok ((front ++ concat_bytes bss) ++ replicate k 0)
unfolding concat_loop concat_bytes
concat_loop_lem [] front k = rw (append-nil, zero-add)
concat_loop_lem (bs ∷ bss) front k =
    rw
      (
        length-append bs (concat_bytes bss),
        add_assoc (length bs) (length (concat_bytes bss)) k,
        memcpy-piece front bs (0 ∷ []) (length (concat_bytes bss) + k),
        ← length-append front bs,
      )
      (concat_loop_lem bss (front ++ bs) k
        ∙ ap (λ t. ok (t ++ replicate k 0)) (append_assoc front bs (concat_bytes bss)))

-- `idris2rc2_fastConcatFixed` joins the bytes of the strings in order, where there are less than
-- `2 ^ 32` in all.
pub fast_concat_fixed-bytes :
    (bss : List (List ℕ))
    → length (concat_bytes bss) < 2 ^ 32
    → fast_concat_fixed (map of_bytes bss) ≡ ok (of_bytes (concat_bytes bss))
unfolding fast_concat_fixed
fast_concat_fixed-bytes bss h =
    rw
      (
        concat_len_lem 0 bss (omega arith),
        zero-add (length (concat_bytes bss)),
        checked_str_len-ok (length (concat_bytes bss)) h,
        mk_empty_string-ok (length (concat_bytes bss)) h,
        concat_loop_lem bss [] 1,
      )
      refl
