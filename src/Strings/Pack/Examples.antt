-- ===== src/Strings/Pack/Examples.antt =====
-- The theorems of the packing loops at small lists.
use idris2_rc.Prelude.{◌≡◌, ℕ, List, [], ◌∷◌, arith}
use idris2_rc.Prelude.Run.{ok, ◌>>=◌}
use idris2_rc.Utf8.Chars.{encode_all}
use idris2_rc.Strings.Copy.{of_bytes}
use idris2_rc.Strings.Ops.{IsContent}
use idris2_rc.Strings.Pack.{fast_pack_fixed, fast_unpack_fixed}
use idris2_rc.Strings.Pack.Laws.{fast_pack_fixed-encode_all, fast_unpack-pack, length-encode_all}

abbrev word : List ℕ
word = 0x61 ∷ 0x4E2D ∷ []

abbrev bytes_of_word : List ℕ
bytes_of_word = 0x61 ∷ 0xE4 ∷ 0xB8 ∷ 0xAD ∷ []

bytes_of_word-IsContent : IsContent bytes_of_word
bytes_of_word-IsContent = record { bytes = omega arith; short = omega arith }

fast_pack_fixed-encode_all_example : fast_pack_fixed word ≡ ok (of_bytes (encode_all word))
fast_pack_fixed-encode_all_example =
    fast_pack_fixed-encode_all word (omega (arith, length-encode_all word))

fast_unpack-pack_example : (fast_pack_fixed word >>= λ s. fast_unpack_fixed s) ≡ ok word
fast_unpack-pack_example =
    fast_unpack-pack word (omega arith) (omega (arith, length-encode_all word))
