-- ===== src/Strings/Pack.antt =====
-- The loops of rc2/support/rc2/idris2rc2_strings.c between a string and a list: `fastPackFixed`,
-- `fastUnpackFixed`, `fastConcatFixed`, and the string iterator.
pub mod Laws
mod Examples
use idris2_rc.Prelude.{
  ℕ, zero, suc, ◌+◌, Option, none, some, List, [], ◌∷◌, u32, u64, ltb, leb, ◌==◌, if◌then◌else◌,
  length,
}
use idris2_rc.Prelude.Run.{Run, ok, out_of_fuel, ◌>>=◌, reading}
use idris2_rc.Utf8.{decode_at, encode_len, encode_into}
use idris2_rc.Strings.{Str, memcpy, checked_str_len, mk_empty_string}

-- The first loop: the bytes that the characters take.
pub pack_len : (byte_len : ℕ) → List ℕ → ℕ
pack_len byte_len [] = byte_len
pack_len byte_len (c ∷ cs) = pack_len (u64 (byte_len + encode_len c)) cs

-- The second loop: each character behind the one before.
pub pack_loop : List ℕ → (out : List ℕ) (at : ℕ) → Run (List ℕ)
pack_loop [] out at = ok out
pack_loop (c ∷ cs) out at = do
  out' ← memcpy out at (encode_into c) (length (encode_into c))
  pack_loop cs out' (at + length (encode_into c))

pub fast_pack_fixed : List ℕ → Run Str
fast_pack_fixed cs = do
  total ← checked_str_len (pack_len 0 cs)
  r ← mk_empty_string (total + 1)
  out ← pack_loop cs r.str 0
  ok (record r { str = out })

-- The `while` loop of `unpackBytes`. Each round consumes a byte.
pub unpack_loop : (fuel : ℕ) (str : List ℕ) (byte_len offset : ℕ) → Run (List ℕ)
unpack_loop zero str byte_len offset = out_of_fuel
unpack_loop (suc fuel) str byte_len offset =
    let next = (do
      d ← reading (decode_at str byte_len offset)
      cs ← unpack_loop fuel str byte_len (offset + d.consumed)
      ok (d.cp ∷ cs)) in
    if ltb offset byte_len then next else ok []

pub unpack_bytes : (str : List ℕ) (byte_len : ℕ) → Run (List ℕ)
unpack_bytes str byte_len = if byte_len == 0 then ok [] else (do
  d ← reading (decode_at str byte_len 0)
  cs ← unpack_loop byte_len str byte_len d.consumed
  ok (d.cp ∷ cs))

pub fast_unpack_fixed : Str → Run (List ℕ)
fast_unpack_fixed s = unpack_bytes s.str s.len

pub concat_len : (total : ℕ) → List Str → ℕ
concat_len total [] = total
concat_len total (s ∷ ss) = concat_len (u64 (total + s.len)) ss

pub concat_loop : List Str → (out : List ℕ) (offset : ℕ) → Run (List ℕ)
concat_loop [] out offset = ok out
concat_loop (s ∷ ss) out offset = do
  out' ← memcpy out offset s.str s.len
  concat_loop ss out' (offset + s.len)

pub fast_concat_fixed : List Str → Run Str
fast_concat_fixed ss = do
  total ← checked_str_len (concat_len 0 ss)
  r ← mk_empty_string (total + 1)
  out ← concat_loop ss r.str 0
  ok (record r { str = out })

-- The pair that `idris2rc2_stringIteratorNextFixed` returns; NULL is `none`.
pub record Step : Type 0 where
  pub char : ℕ
  pub rest : ℕ

pub string_iterator_next_fixed : Str → (pos : ℕ) → Run (Option Step)
string_iterator_next_fixed s pos = if leb s.len pos then ok none else (do
  d ← reading (decode_at s.str s.len pos)
  ok (some (record { char = d.cp; rest = u32 (pos + u32 d.consumed) })))
