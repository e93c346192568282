-- ===== src/Utf8/Decode.antt =====
-- The decoder as a recursion on a list of bytes, and `idris2rc2_utf8DecodeAt` as this function.
use idris2_rc.Prelude.{
  ℕ, zero, suc, ◌+◌, ◌-◌, ◌*◌, ◌/◌, ◌%◌, ◌^◌, ◌≤◌, ◌<◌, ◌≡◌, refl, true, some, List, [], ◌∷◌, ◌⊎◌,
  inl, inr, arith, bit_and, bit_or, u32, ltb, leb, ◌==◌, if◌then◌else◌, get_elem?, drop, take,
  length, length-drop, length-take, holds_under, holds_at, Bool-cases, tests, All, All-drop,
  take-drop, drop-take_nil, ltb→lt,
}
use native.Mathlib.Numerals.{add-one}
use idris2_rc.Prelude.Bits.{and_63, or_shifted}
use idris2_rc.Utf8.{
  replacement, is_continuation, lead_byte_len, is_scalar_of_len, lead_bits, Decoded, tail_loop,
  finish, decode_bounded, decode_at,
}

-- Continuation bytes from the list while there are some, at most `left` of them.
unfoldable pub tail : (left : ℕ) → List ℕ → (k cp : ℕ) → Decoded
tail zero r k cp = record { cp = cp; consumed = k }
tail (suc left) [] k cp = record { cp = cp; consumed = k }
tail (suc left) (b ∷ r) k cp =
    let more = tail left r (k + 1) (cp * 64 + b % 64) in
    if is_continuation b then more else record { cp = cp; consumed = k }

-- What the first bytes of a list stand for; a list with no byte is one U+FFFD.
unfoldable pub decode : List ℕ → Decoded
unfolding tail
decode [] = record { cp = replacement; consumed = 1 }
decode (b ∷ r) =
    let n = lead_byte_len b in
    if n == 0
    then record { cp = replacement; consumed = 1 }
    else finish n (tail (n - 1) r 1 (lead_bits n b))

-- A code point that `left` more rounds keep below `2 ^ 32`.
abbrev cap : ℕ → ℕ
cap zero = 2 ^ 32
cap (suc left) = cap left / 64

cap_le : (left : ℕ) → cap left ≤ 2 ^ 32
cap_le zero = omega arith
cap_le (suc left) = omega (arith, cap_le left)

-- One round of the loop on the code point: no bit is lost.
push_bits :
    (left cp b : ℕ)
    → cp < cap (suc left)
    → (u32 (bit_or (u32 (cp * 2 ^ 6)) (bit_and b 0x3F)) ≡ cp * 64 + b % 64)
      × (cp * 64 + b % 64 < cap left)
push_bits left cp b h =
    let small : cp * 64 < 2 ^ 32 = omega (arith, cap_le left) in
    let joined : bit_or (u32 (cp * 2 ^ 6)) (bit_and b 0x3F) ≡ cp * 64 + b % 64 =
      rw (and_63, mod_small (cp * 2 ^ 6) small) (or_shifted 6 cp (b % 64) (omega arith)) in
    (rw joined (omega (arith, cap_le left)), omega arith)
  where
    mod_small : (x : ℕ) → x < 2 ^ 32 → x % 2 ^ 32 ≡ x
    mod_small x h = omega arith

module _ {ℓ} {A : Type ℓ} where
  -- A read inside the bound finds the head of what is left.
  get_elem?-drop :
      (xs : List A) (avail k : ℕ)
      → k < avail
      → avail ≤ length xs
      → (a : A) × (get_elem? xs k ≡ some a)
        × (drop k (take avail xs) ≡ a ∷ drop (suc k) (take avail xs))
  get_elem?-drop [] avail k h f = absurd (omega arith)
  get_elem?-drop (x ∷ xs) zero k h f = absurd (omega arith)
  get_elem?-drop (x ∷ xs) (suc avail) zero h f = (x, refl, refl)
  get_elem?-drop (x ∷ xs) (suc avail) (suc k) h f =
      get_elem?-drop xs avail k (omega arith) (omega arith)

tail_loop-tail :
    (u : List ℕ) (avail left k cp : ℕ)
    → avail ≤ length u
    → cp < cap left
    → tail_loop u avail left k cp ≡ some (tail left (drop k (take avail u)) k cp)
unfolding tail_loop tail
tail_loop-tail u avail zero k cp f c = refl
tail_loop-tail u avail (suc left) k cp f c = elim (Bool-cases (ltb k avail)) [
  | inl inside ↦
      let (b, read, rest) = get_elem?-drop u avail k (omega tests) f in
      let (bits, small) = push_bits left cp b c in
      rw (inside, read, rest, bits)
        (elim (Bool-cases (is_continuation b)) [
          | inl more ↦
              rw (more, add-one) (tail_loop-tail u avail left (suc k) (cp * 64 + b % 64) f small)
          | inr done ↦ rw done
        ])
  | inr out ↦ rw (out, drop-take_nil u avail k (omega tests))
]

abbrev pub IsBytes : List ℕ → Type 0
IsBytes s = All (λ b. b < 256) s

lead_fits_table :
    holds_under (λ b. ltb (lead_bits (lead_byte_len b) b) (cap (lead_byte_len b - 1))) 256 ≡ true
unfolding holds_under lead_bits lead_byte_len
lead_fits_table = refl

lead_fits : (b : ℕ) → b < 256 → lead_bits (lead_byte_len b) b < cap (lead_byte_len b - 1)
lead_fits b h = ltb→lt _ _ (holds_at _ 256 b h lead_fits_table)

decode_bounded-decode :
    (u : List ℕ) (avail : ℕ)
    → IsBytes u
    → 1 ≤ avail
    → avail ≤ length u
    → decode_bounded u avail ≡ some (decode (take avail u))
unfolding decode_bounded decode
decode_bounded-decode [] avail bytes p f = absurd (omega arith)
decode_bounded-decode (b ∷ u) zero bytes p f = absurd (omega arith)
decode_bounded-decode (b ∷ u) (suc avail) bytes p f =
    rw
      (tail_loop-tail (b ∷ u) (suc avail) (lead_byte_len b - 1) 1 (lead_bits (lead_byte_len b) b) f
        (lead_fits b bytes.0))
      (elim (Bool-cases (lead_byte_len b == 0)) [ inl e ↦ rw e | inr e ↦ rw e ])

-- Given a bound that the bytes cover, `idris2rc2_utf8DecodeAt` reads nothing past the bound, loses
-- no bit of the code point to the 32-bit arithmetic, and gives what `decode` gives on the bytes
-- from the offset up to the bound, one U+FFFD where there are none.
pub decode_at-decode :
    (s : List ℕ) (byte_len offset : ℕ)
    → IsBytes s
    → byte_len ≤ length s
    → decode_at s byte_len offset ≡ some (decode (drop offset (take byte_len s)))
unfolding decode_at decode
decode_at-decode s byte_len offset bytes fits = elim (Bool-cases (leb byte_len offset)) [
  | inl past ↦ rw (past, drop-take_nil s byte_len offset (ground arith))
  | inr inside ↦ rw (
    inside,
    decode_bounded-decode (drop offset s) (byte_len - offset) (All-drop _ offset s bytes)
        (ground arith) (omega (arith, length-drop offset s)),
    take-drop byte_len offset s,
  )
]

abbrev pub IsScalar : ℕ → Type 0
IsScalar cp = (cp ≤ 0x10FFFF) × ((cp < 0xD800) ⊎ (0xDFFF < cp))

pub tail-consumed :
    (left : ℕ) (r : List ℕ) (k cp : ℕ)
    → (k ≤ (tail left r k cp).consumed)
      × ((tail left r k cp).consumed ≤ k + length r)
      × ((tail left r k cp).consumed ≤ k + left)
unfolding tail
tail-consumed zero r k cp = omega arith
tail-consumed (suc left) [] k cp = omega arith
tail-consumed (suc left) (b ∷ r) k cp =
    ground (arith, tail-consumed left r (k + 1) (cp * 64 + b % 64))

pub lead_byte_len-le : (b : ℕ) → lead_byte_len b ≤ 4
unfolding lead_byte_len
lead_byte_len-le b = ground arith

pub decode-consumed :
    (b : ℕ) (r : List ℕ)
    → (1 ≤ (decode (b ∷ r)).consumed)
      × ((decode (b ∷ r)).consumed ≤ suc (length r))
      × ((decode (b ∷ r)).consumed ≤ 4)
unfolding decode finish
decode-consumed b r = ground (
  arith,
  tail-consumed (lead_byte_len b - 1) r 1 (lead_bits (lead_byte_len b) b),
  lead_byte_len-le b,
)

-- Whatever the bytes are, a step gives a Unicode scalar value.
pub decode-IsScalar : (u : List ℕ) → IsScalar (decode u).cp
unfolding decode finish is_scalar_of_len
decode-IsScalar [] = omega arith
decode-IsScalar (b ∷ r) = ground arith

-- `idris2rc2_utf8DecodeAt` at an offset before a bound that the bytes cover gives a Unicode scalar
-- value, whatever the bytes are, and consumes at least one byte, none past the bound, and at most four.
pub decode_at-consumed :
    (s : List ℕ) (byte_len offset : ℕ)
    → IsBytes s
    → byte_len ≤ length s
    → offset < byte_len
    → (d : Decoded) × (decode_at s byte_len offset ≡ some d)
      × IsScalar d.cp
      × (1 ≤ d.consumed)
      × (offset + d.consumed ≤ byte_len)
      × (d.consumed ≤ 4)
decode_at-consumed s byte_len offset bytes fits inside =
    let u = drop offset (take byte_len s) in
    let size : length u ≡ byte_len - offset =
      omega (arith, length-drop offset (take byte_len s), length-take byte_len s) in
    let (least, within, most) = consumed u (omega arith) in
    (
      decode u,
      decode_at-decode s byte_len offset bytes fits,
      decode-IsScalar u,
      least,
      omega arith,
      most,
    )
  where
    consumed :
        (u : List ℕ)
        → 0 < length u
        → (1 ≤ (decode u).consumed) × ((decode u).consumed ≤ length u) × ((decode u).consumed ≤ 4)
    consumed [] h = absurd (omega arith)
    consumed (b ∷ r) h = decode-consumed b r
