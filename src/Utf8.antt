-- ===== src/Utf8.antt =====
-- rc2/support/rc2/idris2rc2_utf8.c: the UTF-8 codec that every String primitive goes through.
-- A `char const *` is the list of the bytes that may be read from it, and a read past them has
-- no result (`none`). Code points are `uint32_t`, lengths and offsets are `size_t`.
pub mod Decode
pub mod Encode
pub mod Strict
pub mod Chars
pub mod Walk
mod Examples
use idris2_rc.Prelude.{
  ℕ, zero, suc, ◌+◌, ◌-◌, ◌*◌, ◌/◌, ◌^◌, Bool, ◌&&◌, ◌||◌, not, Option, none, some, List, [], ◌∷◌,
  bit_and, bit_or, u8, u32, ltb, leb, ◌==◌, if◌then◌else◌, ◌>>=◌, get_elem?, drop, length,
}

abbrev pub replacement : ℕ
replacement = 0xFFFD

pub is_continuation : ℕ → Bool
is_continuation b = bit_and b 0xC0 == 0x80

pub lead_byte_len : ℕ → ℕ
lead_byte_len b =
    if bit_and b 0x80 == 0x00
    then 1
    else if bit_and b 0xE0 == 0xC0
    then 2
    else if bit_and b 0xF0 == 0xE0
    then 3
    else if leb 0xF0 b && leb b 0xF4
    then 4
    else 0

-- The table `smallest[n]`.
abbrev pub smallest : ℕ → ℕ
smallest zero = 0
smallest (suc zero) = 0
smallest (suc (suc zero)) = 0x80
smallest (suc (suc (suc zero))) = 0x800
smallest (suc (suc (suc (suc n)))) = 0x10000

pub is_scalar_of_len : ℕ → ℕ → Bool
is_scalar_of_len cp n = leb (smallest n) cp && leb cp 0x10FFFF && (ltb cp 0xD800 || ltb 0xDFFF cp)

-- The bits of the lead byte that belong to the code point.
pub lead_bits : ℕ → ℕ → ℕ
lead_bits (suc zero) b = b
lead_bits (suc (suc zero)) b = bit_and b 0x1F
lead_bits (suc (suc (suc zero))) b = bit_and b 0x0F
lead_bits n b = bit_and b 0x07

-- What a decoder gives back: the code point, and `*consumed`.
pub record Decoded : Type 0 where
  pub cp : ℕ
  pub consumed : ℕ

-- The `while` loop of `decodeBounded`, with `n - k` rounds left.
pub tail_loop : List ℕ → (avail left k cp : ℕ) → Option Decoded
tail_loop u avail zero k cp = some (record { cp = cp; consumed = k })
tail_loop u avail (suc left) k cp =
    let next =
      (get_elem? u k >>= λ b.
      if is_continuation b
      then tail_loop u avail left (k + 1) (u32 (bit_or (u32 (cp * 2 ^ 6)) (bit_and b 0x3F)))
      else some (record { cp = cp; consumed = k })) in
    if ltb k avail then next else some (record { cp = cp; consumed = k })

-- The test after the loop.
pub finish : ℕ → Decoded → Decoded
finish n d =
    if ltb d.consumed n || not (is_scalar_of_len d.cp n) then record d { cp = replacement } else d

pub decode_bounded : List ℕ → (avail : ℕ) → Option Decoded
decode_bounded u avail = get_elem? u 0 >>= λ b.
    let n = lead_byte_len b in
    if n == 0
    then some (record { cp = replacement; consumed = 1 })
    else tail_loop u avail (n - 1) 1 (lead_bits n b) >>= λ d. some (finish n d)

pub decode_at : (s : List ℕ) (byte_len offset : ℕ) → Option Decoded
unfolding decode_bounded
decode_at s byte_len offset =
    if leb byte_len offset
    then some (record { cp = replacement; consumed = 1 })
    else decode_bounded (drop offset s) (byte_len - offset)

-- The `while` loop of `idris2rc2_utf8DecodeAtNul`, with `4 - avail` rounds left.
pub avail_loop : List ℕ → (left avail : ℕ) → Option ℕ
avail_loop u zero avail = some avail
avail_loop u (suc left) avail =
    let rest = avail_loop u left (avail + 1) in
    get_elem? u (avail - 1) >>= λ before.
    if before == 0
    then some avail
    else get_elem? u avail >>= λ here. if here == 0 then some avail else rest

pub decode_at_nul : (s : List ℕ) (offset : ℕ) → Option Decoded
unfolding decode_bounded avail_loop
decode_at_nul s offset =
    let u = drop offset s in avail_loop u 3 1 >>= λ avail. decode_bounded u avail

-- The loop of `idris2rc2_utf8Length`; `none` also stands for a fuel that ran out.
pub length_loop : (fuel : ℕ) (s : List ℕ) (byte_len offset n : ℕ) → Option ℕ
length_loop zero s byte_len offset n = none
length_loop (suc fuel) s byte_len offset n =
    let rest =
      (decode_at s byte_len offset >>= λ d.
      length_loop fuel s byte_len (offset + d.consumed) (n + 1)) in
    if ltb offset byte_len then rest else some n

-- Each round consumes at least one byte, so `byte_len + 1` rounds are enough.
pub utf8_length : (s : List ℕ) (byte_len : ℕ) → Option ℕ
unfolding length_loop decode_at
utf8_length s byte_len = length_loop (byte_len + 1) s byte_len 0 0

-- The loop of `idris2rc2_utf8ByteOffsetOfChar`, with `charIdx - i` rounds left. `strSubstr` walks
-- on by the same loop.
pub offset_loop : (left : ℕ) (s : List ℕ) (byte_len offset : ℕ) → Option ℕ
offset_loop zero s byte_len offset = some offset
offset_loop (suc left) s byte_len offset =
    let rest =
      (decode_at s byte_len offset >>= λ d. offset_loop left s byte_len (offset + d.consumed)) in
    if ltb offset byte_len then rest else some offset

pub byte_offset_of_char : (s : List ℕ) (byte_len char_idx : ℕ) → Option ℕ
unfolding offset_loop decode_at
byte_offset_of_char s byte_len char_idx = offset_loop char_idx s byte_len 0

pub encode_len : ℕ → ℕ
encode_len cp =
    if ltb cp 0x80 then 1 else if ltb cp 0x800 then 2 else if ltb cp 0x10000 then 3 else 4

-- The bytes that `idris2rc2_utf8EncodeInto` writes to `out`, each after its cast to `char`. The
-- count that it returns is their number.
pub encode_into : ℕ → List ℕ
encode_into cp =
    if ltb cp 0x80
    then u8 cp ∷ []
    else if ltb cp 0x800
    then u8 (bit_or 0xC0 (cp / 2 ^ 6)) ∷ u8 (bit_or 0x80 (bit_and cp 0x3F)) ∷ []
    else if ltb cp 0x10000
    then u8 (bit_or 0xE0 (cp / 2 ^ 12))
      ∷ u8 (bit_or 0x80 (bit_and (cp / 2 ^ 6) 0x3F))
      ∷ u8 (bit_or 0x80 (bit_and cp 0x3F))
      ∷ []
    else u8 (bit_or 0xF0 (cp / 2 ^ 18))
      ∷ u8 (bit_or 0x80 (bit_and (cp / 2 ^ 12) 0x3F))
      ∷ u8 (bit_or 0x80 (bit_and (cp / 2 ^ 6) 0x3F))
      ∷ u8 (bit_or 0x80 (bit_and cp 0x3F))
      ∷ []
