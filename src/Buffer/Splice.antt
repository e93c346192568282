-- ===== src/Buffer/Splice.antt =====
-- A write into a buffer as a splice: what stands before, the new bytes, what stands behind.
use idris2_rc.Prelude.{
  Bool, ℕ, zero, suc, ◌+◌, ◌-◌, ◌/◌, ◌^◌, ◌<◌, ◌≡◌, refl, sym, ap, ◌∙◌, inl, inr, true, false, List,
  [], ◌∷◌, ◌++◌, arith, u8, ltb, leb, ◌&&◌, if◌then◌else◌, Bool-cases, set, length, take, drop,
  length-append, length-take, length-drop, take-append-drop, drop-drop,
}
use mathlib.Core.List.{append_assoc}
use idris2_rc.Prelude.Run.{ok, abort}
use idris2_rc.Prelude.Int.{ℤ, pos, negsuc, pos_part}
use idris2_rc.Buffer.{RawBuffer, assert_valid_range, poke, set_loop, from_size, set_buffer_uint_le}

-- The range fits the buffer.
abbrev pub in_range : RawBuffer → (loc len : ℕ) → Bool
in_range buf loc len = leb loc (length buf) && leb len (length buf - loc)

-- The `n` low bytes of a number, the lowest first.
unfoldable pub le_bytes : (n val : ℕ) → List ℕ
le_bytes zero val = []
le_bytes (suc n) val = u8 val ∷ le_bytes n (val / 2 ^ 8)

pub length-le_bytes : (n val : ℕ) → length (le_bytes n val) ≡ n
unfolding le_bytes
length-le_bytes zero val = refl
length-le_bytes (suc n) val = ap suc (length-le_bytes n (val / 2 ^ 8))

set-splice :
    (front rest : List ℕ) (o v : ℕ)
    → set (front ++ o ∷ rest) (length front) v ≡ (front ++ v ∷ []) ++ rest
set-splice [] rest o v = refl
set-splice (x ∷ front) rest o v = ap (λ t. x ∷ t) (set-splice front rest o v)

poke-splice :
    (front rest : List ℕ) (o v : ℕ)
    → poke (front ++ o ∷ rest) (length front) v ≡ ok ((front ++ v ∷ []) ++ rest)
unfolding poke
poke-splice front rest o v =
    let inside : ltb (length front) (length (front ++ o ∷ rest)) ≡ true =
      ground (arith, length-append front (o ∷ rest)) in
    rw inside (ap ok (set-splice front rest o v))

set_loop-splice :
    (n : ℕ) (front old back : List ℕ) (val : ℕ)
    → length old ≡ n
    → set_loop n (front ++ (old ++ back)) (length front) val
      ≡ ok (front ++ (le_bytes n val ++ back))
unfolding set_loop le_bytes
set_loop-splice zero front [] back val h = refl
set_loop-splice zero front (o ∷ old) back val h = absurd (omega arith)
set_loop-splice (suc n) front [] back val h = absurd (omega arith)
set_loop-splice (suc n) front (o ∷ old) back val h =
    let behind : length front + 1 ≡ length (front ++ u8 val ∷ []) =
      omega (arith, length-append front (u8 val ∷ [])) in
    rw (poke-splice front (old ++ back) o (u8 val), behind)
      (set_loop-splice n (front ++ u8 val ∷ []) old back (val / 2 ^ 8) (omega arith)
        ∙ ap ok (append_assoc front (u8 val ∷ []) (le_bytes n (val / 2 ^ 8) ++ back)))

-- A buffer in three parts.
pub three_parts :
    (buf : List ℕ) (loc len : ℕ)
    → buf ≡ take loc buf ++ (take len (drop loc buf) ++ drop (loc + len) buf)
three_parts buf loc len =
    sym (take-append-drop loc buf)
    ∙ ap (λ t. take loc buf ++ t)
        (sym (take-append-drop len (drop loc buf))
          ∙ ap (λ t. take len (drop loc buf) ++ t) (drop-drop len loc buf))

set_loop_lem :
    (buf : List ℕ) (loc val len : ℕ)
    → in_range buf loc len ≡ true
    → set_loop len buf loc val ≡ ok (take loc buf ++ (le_bytes len val ++ drop (loc + len) buf))
set_loop_lem buf loc val len h =
    let front : length (take loc buf) ≡ loc = ground (arith, length-take loc buf) in
    rw front at (
      rw (← three_parts buf loc len) at (
        set_loop-splice len (take loc buf) (take len (drop loc buf)) (drop (loc + len) buf) val
          (ground (arith, length-take len (drop loc buf), length-drop loc buf))))

-- From an offset that is not negative, where the cast of the length is not, either.
pub set_buffer_uint_le_lem :
    (buf : RawBuffer) (loc val len : ℕ)
    → len < 2 ^ 63
    → set_buffer_uint_le buf (pos loc) val len ≡ (
        if in_range buf loc len
        then ok (take loc buf ++ (le_bytes len val ++ drop (loc + len) buf))
        else abort)
unfolding set_buffer_uint_le assert_valid_range from_size
set_buffer_uint_le_lem buf loc val len h =
    let size : ltb len (2 ^ 63) ≡ true = ground arith in
    rw size (elim (Bool-cases (in_range buf loc len)) [
      | inl fits ↦ rw (fits, set_loop_lem buf loc val len fits)
      | inr wide ↦ rw wide
    ])

-- The same for any offset: a negative one does not fit.
abbrev pub range_fits : RawBuffer → (loc : ℤ) (len : ℕ) → Bool
range_fits buf (negsuc l) len = false
range_fits buf (pos loc) len = in_range buf loc len

-- `setBufferUIntLE` puts the low bytes of the value in place and changes no other byte of a buffer,
-- whose size is an `int`; a range that does not fit the buffer, because it starts before it or ends
-- behind it, ends the program, also where the cast of its length to `int64_t` is negative.
pub set_buffer_uint_le-splice :
    (buf : RawBuffer) (loc : ℤ) (val len : ℕ)
    → length buf < 2 ^ 31
    → len < 2 ^ 64
    → set_buffer_uint_le buf loc val len ≡ (
        if range_fits buf loc len
        then ok (take (pos_part loc) buf ++ (le_bytes len val ++ drop (pos_part loc + len) buf))
        else abort)
unfolding set_buffer_uint_le assert_valid_range from_size
set_buffer_uint_le-splice buf (negsuc l) val len small fits = refl
set_buffer_uint_le-splice buf (pos loc) val len small fits = elim (Bool-cases (ltb len (2 ^ 63))) [
  | inl size ↦ set_buffer_uint_le_lem buf loc val len (ground arith)
  | inr huge ↦ let wide : in_range buf loc len ≡ false = ground arith in rw (huge, wide)
]
