-- ===== src/Utf8/Encode.antt =====
-- The encoder against the decoder: each undoes the other on scalar values.
use idris2_rc.Prelude.{
  ℕ, zero, suc, ◌+◌, ◌*◌, ◌/◌, ◌%◌, ◌^◌, ◌≤◌, ◌<◌, ◌≡◌, refl, Bool, ◌&&◌, true, List, [], ◌∷◌, ◌++◌,
  inl, inr, arith, bit_and, bit_or, u8, ltb, ◌==◌, ==_iff, if◌then◌else◌, length, holds_under,
  holds_at, Bool-cases, tests,
}
use idris2_rc.Prelude.Bits.{and_63, or_shifted}
use idris2_rc.Utf8.{
  is_continuation, lead_byte_len, smallest, is_scalar_of_len, lead_bits, finish, encode_len,
  encode_into,
}
use idris2_rc.Utf8.Decode.{tail, decode, IsBytes, IsScalar}

-- The lead byte of a sequence of `n` bytes, from its own bits of the code point.
abbrev pub lead : ℕ → ℕ → ℕ
lead (suc zero) q = q
lead (suc (suc zero)) q = 192 + q
lead (suc (suc (suc zero))) q = 224 + q
lead n q = 240 + q

-- Without the bit operations and the casts.
unfoldable pub encode_sum : ℕ → List ℕ
encode_sum cp =
    if ltb cp 0x80
    then cp ∷ []
    else if ltb cp 0x800
    then lead 2 (cp / 64) ∷ (128 + cp % 64) ∷ []
    else if ltb cp 0x10000
    then lead 3 (cp / 4096) ∷ (128 + cp / 64 % 64) ∷ (128 + cp % 64) ∷ []
    else lead 4 (cp / 262144) ∷ (128 + cp / 4096 % 64) ∷ (128 + cp / 64 % 64) ∷ (128 + cp % 64) ∷ []

or_128 : (x : ℕ) → u8 (bit_or 0x80 (bit_and x 0x3F)) ≡ 128 + x % 64
or_128 x = rw (and_63, or_shifted 6 2 (x % 64) (omega arith)) (omega arith)

or_lead2 : (q : ℕ) → q < 32 → u8 (bit_or 0xC0 q) ≡ 192 + q
or_lead2 q h = rw (or_shifted 6 3 q (omega arith)) (omega arith)

or_lead3 : (q : ℕ) → q < 16 → u8 (bit_or 0xE0 q) ≡ 224 + q
or_lead3 q h = rw (or_shifted 4 14 q (omega arith)) (omega arith)

or_lead4 : (q : ℕ) → q < 8 → u8 (bit_or 0xF0 q) ≡ 240 + q
or_lead4 q h = rw (or_shifted 3 30 q (omega arith)) (omega arith)

pub encode_into-sum : (cp : ℕ) → cp ≤ 0x10FFFF → encode_into cp ≡ encode_sum cp
unfolding encode_into encode_sum
encode_into-sum cp h = elim (Bool-cases (ltb cp 0x80)) [
  | inl e ↦ rw e (ground arith)
  | inr e ↦ rw e (elim (Bool-cases (ltb cp 0x800)) [
    | inl f ↦ rw (f, or_lead2 (cp / 2 ^ 6) (omega tests), or_128)
    | inr f ↦ rw f (elim (Bool-cases (ltb cp 0x10000)) [
      | inl g ↦ rw (g, or_lead3 (cp / 2 ^ 12) (omega tests), or_128 (cp / 2 ^ 6), or_128 cp)
      | inr g ↦ rw (
        g,
        or_lead4 (cp / 2 ^ 18) (omega tests),
        or_128 (cp / 2 ^ 12),
        or_128 (cp / 2 ^ 6),
        or_128 cp,
      )
    ])
  ])
]

-- Tables over the lead bytes and the continuation bytes.
abbrev lead_entry : ℕ → ℕ → Bool
lead_entry n q = lead_byte_len (lead n q) == n && lead_bits n (lead n q) == q

lead_tables :
    (holds_under (lead_entry 1) 128 ≡ true)
    × (holds_under (lead_entry 2) 32 ≡ true)
    × (holds_under (lead_entry 3) 16 ≡ true)
    × (holds_under (lead_entry 4) 5 ≡ true)
unfolding holds_under lead_byte_len lead_bits
lead_tables = (refl, refl, refl, refl)

lead_lem :
    (n count q : ℕ)
    → holds_under (lead_entry n) count ≡ true
    → q < count
    → (lead_byte_len (lead n q) ≡ n) × (lead_bits n (lead n q) ≡ q)
lead_lem n count q table h =
    let found = holds_at (lead_entry n) count q h table in
    ground (arith, ==_iff (lead_byte_len (lead n q)) n, ==_iff (lead_bits n (lead n q)) q)

continuation_table : holds_under (λ x. is_continuation (128 + x)) 64 ≡ true
unfolding holds_under is_continuation
continuation_table = refl

continuation_lem :
    (x : ℕ) → (is_continuation (128 + x % 64) ≡ true) × ((128 + x % 64) % 64 ≡ x % 64)
continuation_lem x = (holds_at _ 64 (x % 64) (omega arith) continuation_table, omega arith)

-- A complete sequence of `n` bytes that holds a scalar value of that length is not replaced.
finish-scalar :
    (n cp : ℕ)
    → IsScalar cp
    → smallest n ≤ cp
    → finish n (record { cp = cp; consumed = n }) ≡ record { cp = cp; consumed = n }
unfolding finish is_scalar_of_len
finish-scalar n cp h s = ground arith

module _ (cp : ℕ) (rest : List ℕ) (scalar : IsScalar cp) where
  decode_one : cp < 0x80 → decode (cp ∷ rest) ≡ record { cp = cp; consumed = 1 }
  unfolding decode tail
  decode_one h =
      let l = lead_lem 1 128 cp lead_tables.0 h in
      rw (l.0, l.1) (finish-scalar 1 cp scalar (omega arith))

  decode_two :
      cp < 0x800
      → 0x80 ≤ cp
      → decode (lead 2 (cp / 64) ∷ (128 + cp % 64) ∷ rest) ≡ record { cp = cp; consumed = 2 }
  unfolding decode tail
  decode_two h low =
      let l = lead_lem 2 32 (cp / 64) lead_tables.1 (omega arith) in
      let whole : cp / 64 * 64 + cp % 64 ≡ cp = omega arith in
      let c = continuation_lem cp in rw (l.0, l.1, c.0, c.1, whole) (finish-scalar 2 cp scalar low)

  decode_three :
      cp < 0x10000
      → 0x800 ≤ cp
      → decode (lead 3 (cp / 4096) ∷ (128 + cp / 64 % 64) ∷ (128 + cp % 64) ∷ rest)
        ≡ record { cp = cp; consumed = 3 }
  unfolding decode tail
  decode_three h low =
      let l = lead_lem 3 16 (cp / 4096) lead_tables.2 (omega arith) in
      let whole : (cp / 4096 * 64 + cp / 64 % 64) * 64 + cp % 64 ≡ cp = omega arith in
      let c = continuation_lem cp in
      let c' = continuation_lem (cp / 64) in
      rw (l.0, l.1, c'.0, c.0, c'.1, c.1, whole) (finish-scalar 3 cp scalar low)

  decode_four :
      0x10000 ≤ cp
      → decode (
          lead 4 (cp / 262144)
          ∷ (128 + cp / 4096 % 64)
          ∷ (128 + cp / 64 % 64)
          ∷ (128 + cp % 64)
          ∷ rest)
        ≡ record { cp = cp; consumed = 4 }
  unfolding decode tail
  decode_four low =
      let l = lead_lem 4 5 (cp / 262144) lead_tables.3 (omega arith) in
      let whole : ((cp / 262144 * 64 + cp / 4096 % 64) * 64 + cp / 64 % 64) * 64 + cp % 64 ≡ cp =
        omega arith in
      let c = continuation_lem cp in
      let c' = continuation_lem (cp / 64) in
      let c'' = continuation_lem (cp / 4096) in
      rw (l.0, l.1, c''.0, c'.0, c.0, c''.1, c'.1, c.1, whole) (finish-scalar 4 cp scalar low)

  -- Decoding what the encoder wrote for a scalar value, whatever bytes follow, gives the value
  -- back and consumes exactly the bytes of `idris2rc2_utf8EncodeLen`.
  pub decode-encode_into :
      decode (encode_into cp ++ rest) ≡ record { cp = cp; consumed = encode_len cp }
  unfolding encode_len encode_sum
  decode-encode_into = rw (encode_into-sum cp scalar.0) (elim (Bool-cases (ltb cp 0x80)) [
    | inl e ↦ rw e (decode_one (omega tests))
    | inr e ↦ rw e (elim (Bool-cases (ltb cp 0x800)) [
      | inl f ↦ rw f (decode_two (omega tests) (omega tests))
      | inr f ↦ rw f (elim (Bool-cases (ltb cp 0x10000)) [
        | inl g ↦ rw g (decode_three (omega tests) (omega tests))
        | inr g ↦ rw g (decode_four (omega tests))
      ])
    ])
  ])

pub length-encode_into : (cp : ℕ) → length (encode_into cp) ≡ encode_len cp
unfolding encode_into encode_len
length-encode_into cp = ground arith

pub encode_into-IsBytes : (cp : ℕ) → IsBytes (encode_into cp)
unfolding encode_into
encode_into-IsBytes cp = ground arith

pub encode_len_bounds : (cp : ℕ) → (1 ≤ encode_len cp) × (encode_len cp ≤ 4)
unfolding encode_len
encode_len_bounds cp = ground arith
