-- ===== src/Buffer/Text.antt =====
-- Copies between buffers, and between a buffer and a string.
use idris2_rc.Prelude.{
  ℕ, ◌+◌, ◌^◌, ◌≤◌, ◌<◌, ◌≡◌, refl, ◌∙◌, inl, inr, true, List, [], ◌∷◌, ◌++◌, arith, leb, ◌&&◌,
  if◌then◌else◌, Bool-cases, length, take, drop, length-append, length-drop, take-length_append,
}
use idris2_rc.Prelude.Run.{ok, abort, ◌>>=◌}
use idris2_rc.Prelude.Int.{pos}
use idris2_rc.Strings.{memcpy}
use idris2_rc.Strings.Copy.{of_bytes, mk_string_len-take}
use idris2_rc.Buffer.{
  RawBuffer, assert_valid_range, copy_buffer, set_buffer_string_fixed, get_buffer_string_fixed,
}
use idris2_rc.Buffer.Splice.{in_range}
use idris2_rc.Buffer.Laws.{drop-splice, length-splice}

memcpy-splice :
    (buf src : List ℕ) (at n : ℕ)
    → at + n ≤ length buf
    → n ≤ length src
    → memcpy buf at src n ≡ ok (take at buf ++ (take n src ++ drop (at + n) buf))
unfolding memcpy
memcpy-splice buf src at n h k =
    let fits : (leb (at + n) (length buf) && leb n (length src)) ≡ true = ground arith in rw fits

-- `copyBuffer` puts the bytes of the range in place and changes no other byte of the target; a
-- range that does not fit one of the buffers ends the program.
pub copy_buffer-splice :
    (bfrom bto : RawBuffer) (from_offset len to_offset : ℕ)
    → copy_buffer bfrom (pos from_offset) (pos len) bto (pos to_offset) ≡ (
        if in_range bfrom from_offset len && in_range bto to_offset len
        then ok (
            take to_offset bto ++ (take len (drop from_offset bfrom) ++ drop (to_offset + len) bto))
        else abort)
unfolding copy_buffer assert_valid_range
copy_buffer-splice bfrom bto from_offset len to_offset =
    elim (Bool-cases (in_range bfrom from_offset len)) [
      | inl source ↦ elim (Bool-cases (in_range bto to_offset len)) [
        | inl target ↦
            rw
              (
                source,
                target,
                memcpy-splice bto (drop from_offset bfrom) to_offset len (ground arith)
                    (ground (arith, length-drop from_offset bfrom)),
              )
              refl
        | inr wide ↦ rw (source, wide) refl
      ]
      | inr wide ↦ rw wide refl
    ]

-- A string that is written into a buffer is read back from its place.
pub set_buffer_string_fixed-get :
    (buf : RawBuffer) (bs : List ℕ) (loc : ℕ)
    → loc + length bs ≤ length buf
    → length bs < 2 ^ 32
    → (set_buffer_string_fixed buf (pos loc) (of_bytes bs) >>= λ b.
        get_buffer_string_fixed b (pos loc) (pos (length bs)))
      ≡ ok (of_bytes bs)
unfolding set_buffer_string_fixed get_buffer_string_fixed assert_valid_range
set_buffer_string_fixed-get buf bs loc h small =
    let new : List ℕ = take loc buf ++ (bs ++ drop (loc + length bs) buf) in
    let size : length new ≡ length buf = length-splice buf bs loc h in
    let was : in_range buf loc (length bs) ≡ true = ground arith in
    let is : in_range new loc (length bs) ≡ true = rw size was in
    rw
      (
        was,
        memcpy-splice buf (bs ++ 0 ∷ []) loc (length bs) h
            (omega (arith, length-append bs (0 ∷ []))),
        take-length_append bs (0 ∷ []),
        is,
        drop-splice buf bs (drop (loc + length bs) buf) loc (omega arith),
      )
      (mk_string_len-take (bs ++ drop (loc + length bs) buf) (length bs)
          (omega (arith, length-append bs (drop (loc + length bs) buf))) small
        ∙ rw (take-length_append bs (drop (loc + length bs) buf)))
