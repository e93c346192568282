-- ===== src/Buffer/Laws.antt =====
-- Little-endian reads, and reads against writes.
use idris2_rc.Prelude.{
  ℕ, zero, suc, ◌+◌, ◌-◌, ◌*◌, ◌/◌, ◌^◌, ◌≤◌, ◌<◌, ◌≡◌, refl, ◌∙◌, inl, inr, true, List, [], ◌∷◌,
  ◌++◌, arith, u64, ltb, if◌then◌else◌, Bool-cases, length, take, drop, get_or, length-append,
  length-take, length-drop, drop-drop, get_or-drop, add-zero, zero-add, drop-length_append,
  All-drop, All-take, All-append,
}
use native.Mathlib.Nat.{pow-suc, pow-le-pow_right}
use idris2_rc.Prelude.Run.{ok, abort, ◌>>=◌}
use idris2_rc.Prelude.Int.{pos}
use idris2_rc.Utf8.Decode.{IsBytes}
use idris2_rc.Buffer.{
  RawBuffer, assert_valid_range, peek, get_loop, from_size, get_buffer_uint_le, set_buffer_uint_le,
}
use idris2_rc.Buffer.Splice.{in_range, le_bytes, length-le_bytes, set_buffer_uint_le_lem}

-- The number that `n` bytes stand for, the lowest first.
unfoldable pub le_value : ℕ → List ℕ → ℕ
le_value zero xs = 0
le_value (suc n) xs = get_or xs 0 0 + 256 * le_value n (drop 1 xs)

head_lt : (xs : List ℕ) → IsBytes xs → get_or xs 0 0 < 256
head_lt [] h = omega arith
head_lt (x ∷ xs) h = h.0

le_value-lt : (n : ℕ) (xs : List ℕ) → IsBytes xs → le_value n xs < 256 ^ n
unfolding le_value
le_value-lt zero xs h = omega arith
le_value-lt (suc n) xs h =
    omega (arith, le_value-lt n (drop 1 xs) (All-drop _ 1 xs h), head_lt xs h, pow-suc 256 n)

module _ (buf : List ℕ) (bytes : IsBytes buf) where
  -- One more byte in front, without a wrap.
  push_byte :
      (m at : ℕ)
      → m < 8
      → u64 (u64 (le_value m (drop (at + 1) buf) * 2 ^ 8) + get_or buf at 0)
        ≡ le_value (suc m) (drop at buf)
  unfolding le_value
  push_byte m at h =
      let small = le_value-lt m (drop (at + 1) buf) (All-drop _ (at + 1) buf bytes) in
      let cap = pow-le-pow_right {n = 256} (omega arith) {i = m} {j = 7} (omega arith) in
      rw (drop-drop 1 at buf, get_or-drop at buf 0)
        (omega (
          arith,
          small,
          cap,
          (rw (get_or-drop at buf 0) at (head_lt (drop at buf) (All-drop _ at buf bytes))),
        ))

  get_loop-le_value :
      (n m loc : ℕ)
      → n + m ≤ 8
      → loc + n ≤ length buf
      → get_loop n buf (loc + n) (le_value m (drop (loc + n) buf))
        ≡ ok (le_value (n + m) (drop loc buf))
  unfolding get_loop peek
  get_loop-le_value zero m loc h inside = rw (zero-add m, add-zero loc)
  get_loop-le_value (suc n) m loc h inside =
      let before : loc + suc n - 1 ≡ loc + n = omega arith in
      let after : loc + suc n ≡ loc + n + 1 = omega arith in
      let reads : ltb (loc + n) (length buf) ≡ true = ground arith in
      let count : suc n + m ≡ n + suc m = omega arith in
      rw (before, after, reads, push_byte m (loc + n) (omega arith), count)
        (get_loop-le_value n (suc m) loc (omega arith) (omega arith))

  get_loop-whole :
      (loc len : ℕ)
      → len ≤ 8
      → loc + len ≤ length buf
      → get_loop len buf (loc + len) 0 ≡ ok (le_value len (drop loc buf))
  unfolding le_value
  get_loop-whole loc len h inside =
      rw add-zero at (get_loop-le_value len 0 loc (omega arith) inside)

  -- `getBufferUIntLE` of at most eight bytes reads the number that the bytes in place stand for,
  -- without a wrap; a range that does not fit the buffer ends the program.
  pub get_buffer_uint_le-value :
      (loc len : ℕ)
      → len ≤ 8
      → get_buffer_uint_le buf (pos loc) len
        ≡ (if in_range buf loc len then ok (le_value len (drop loc buf)) else abort)
  unfolding get_buffer_uint_le assert_valid_range from_size
  get_buffer_uint_le-value loc len h =
      let size : ltb len (2 ^ 63) ≡ true = ground arith in
      rw size (elim (Bool-cases (in_range buf loc len)) [
        | inl fits ↦ rw (fits, get_loop-whole loc len h (ground arith))
        | inr wide ↦ rw wide
      ])

le_value-le_bytes :
    (n val : ℕ) (back : List ℕ) → val < 256 ^ n → le_value n (le_bytes n val ++ back) ≡ val
unfolding le_value le_bytes
le_value-le_bytes zero val back h = omega arith
le_value-le_bytes (suc n) val back h =
    omega (arith, le_value-le_bytes n (val / 2 ^ 8) back (omega (arith, pow-suc 256 n)))

le_bytes-IsBytes : (n val : ℕ) → IsBytes (le_bytes n val)
unfolding le_bytes
le_bytes-IsBytes zero val = tt
le_bytes-IsBytes (suc n) val = (omega arith, le_bytes-IsBytes n (val / 2 ^ 8))

-- What was written behind the first `loc` bytes stands there.
pub drop-splice :
    (buf mid back : List ℕ) (loc : ℕ)
    → loc ≤ length buf
    → drop loc (take loc buf ++ (mid ++ back)) ≡ mid ++ back
drop-splice buf mid back loc h =
    let front : length (take loc buf) ≡ loc = omega (arith, length-take loc buf) in
    rw front at (drop-length_append (take loc buf) (mid ++ back))

pub length-splice :
    (buf mid : List ℕ) (loc : ℕ)
    → loc + length mid ≤ length buf
    → length (take loc buf ++ (mid ++ drop (loc + length mid) buf)) ≡ length buf
length-splice buf mid loc h = omega (
  arith,
  length-append (take loc buf) (mid ++ drop (loc + length mid) buf),
  length-append mid (drop (loc + length mid) buf),
  length-take loc buf,
  length-drop (loc + length mid) buf,
)

-- A value of at most eight bytes that is written into a buffer is read back.
pub set_buffer_uint_le-get :
    (buf : RawBuffer) (loc val len : ℕ)
    → IsBytes buf
    → len ≤ 8
    → val < 256 ^ len
    → loc + len ≤ length buf
    → (set_buffer_uint_le buf (pos loc) val len >>= λ b. get_buffer_uint_le b (pos loc) len)
      ≡ ok val
set_buffer_uint_le-get buf loc val len bytes h fits inside =
    let new : List ℕ = take loc buf ++ (le_bytes len val ++ drop (loc + len) buf) in
    let new_bytes : IsBytes new =
      All-append _ (take loc buf) (le_bytes len val ++ drop (loc + len) buf)
        (All-take _ loc buf bytes)
        (All-append _ (le_bytes len val) (drop (loc + len) buf) (le_bytes-IsBytes len val)
          (All-drop _ (loc + len) buf bytes)) in
    let size : length new ≡ length buf =
      rw length-le_bytes at
        (length-splice buf (le_bytes len val) loc (rw length-le_bytes inside)) in
    let was : in_range buf loc len ≡ true = ground arith in
    let is : in_range new loc len ≡ true = rw size was in
    rw (set_buffer_uint_le_lem buf loc val len (omega arith), was)
      (get_buffer_uint_le-value new new_bytes loc len h
        ∙ rw
            (
              is,
              drop-splice buf (le_bytes len val) (drop (loc + len) buf) loc (omega arith),
              le_value-le_bytes len val (drop (loc + len) buf) fits,
            )
            refl)
