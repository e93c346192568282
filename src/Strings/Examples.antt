-- ===== src/Strings/Examples.antt =====
-- The theorems of the string operations at small strings.
use idris2_rc.Strings.Compare.{strcmp3, eq_string_raw, lex, strcmp3-lex}
use idris2_rc.Prelude.{◌↔◌, Bool, true}
use idris2_rc.Prelude.{ℕ, ◌≡◌, List, [], ◌∷◌, ◌||◌, arith, take, drop, if◌then◌else◌}
use idris2_rc.Prelude.Run.{ok}
use idris2_rc.Prelude.Int.{pos}
use idris2_rc.Utf8.Chars.{chars}
use idris2_rc.Strings.{to_size, is_negative, str_substr}
use idris2_rc.Strings.Copy.{of_bytes}
use mathlib.Core.List.{reverse}
use idris2_rc.Strings.Pack.Laws.{length-encode_all}
use idris2_rc.Utf8.Chars.{encode_all}
use idris2_rc.Strings.Reverse.{str_reverse}
use idris2_rc.Strings.Reverse.Laws.{str_reverse-encode_all}
use idris2_rc.Strings.Ops.{IsContent, str_substr-chars}

-- "éa" and a cut-off sequence.
abbrev text : List ℕ
text = 0xC3 ∷ 0xA9 ∷ 0x61 ∷ 0xE4 ∷ []

text-IsContent : IsContent text
text-IsContent = record { bytes = omega arith; short = omega arith }

str_substr-chars_example :
    (rs : List ℕ) × (str_substr (pos 1) (pos 5) (of_bytes text) ≡ ok (of_bytes rs))
    × IsContent rs
    × (chars rs ≡ (
        if is_negative (pos 1) || is_negative (pos 5)
        then []
        else take (to_size (pos 5)) (drop (to_size (pos 1)) (chars text))))
str_substr-chars_example = str_substr-chars text text-IsContent (pos 1) (pos 5)

-- A proper prefix, with a NUL byte in it.
abbrev short_bytes : List ℕ
short_bytes = 65 ∷ 0 ∷ []

abbrev longer_bytes : List ℕ
longer_bytes = 65 ∷ 0 ∷ 66 ∷ []

strcmp3-lex_example :
    (strcmp3 (of_bytes short_bytes) (of_bytes longer_bytes) ≡ ok (lex short_bytes longer_bytes))
    × ((b : Bool) × (eq_string_raw (of_bytes short_bytes) (of_bytes longer_bytes) ≡ ok b)
        × ((b ≡ true) ↔ (short_bytes ≡ longer_bytes)))
strcmp3-lex_example = strcmp3-lex short_bytes longer_bytes

-- "éa€".
abbrev letters : List ℕ
letters = 0xE9 ∷ 0x61 ∷ 0x20AC ∷ []

str_reverse-encode_all_example :
    str_reverse (of_bytes (encode_all letters)) ≡ ok (of_bytes (encode_all (reverse letters)))
str_reverse-encode_all_example =
    str_reverse-encode_all letters (omega arith) (omega (arith, length-encode_all letters))
