-- ===== src/TextBuffer/Examples.antt =====
-- The theorems of the text buffers at a small text.
use idris2_rc.Prelude.{◌≡◌, ℕ, List, [], ◌∷◌, arith}
use idris2_rc.Prelude.Run.{ok, ◌>>=◌}
use idris2_rc.Prelude.Int.{pos}
use idris2_rc.Utf8.Chars.{encode_all}
use idris2_rc.Strings.Copy.{of_bytes}
use idris2_rc.Strings.Ops.{IsContent}
use idris2_rc.Strings.Pack.Laws.{length-encode_all}
use idris2_rc.TextBuffer.{string_to_text_buffer, to_string}
use idris2_rc.TextBuffer.Laws.{to_string-encode_all, to_string-string_to_text_buffer}

abbrev word : List ℕ
word = 0x61 ∷ 0x4E2D ∷ []

abbrev cut : List ℕ
cut = 0x61 ∷ 0xE4 ∷ 0xB8 ∷ []

cut-IsContent : IsContent cut
cut-IsContent = record { bytes = omega arith; short = omega arith }

to_string-encode_all_example : to_string word ≡ ok (of_bytes (encode_all word))
to_string-encode_all_example = to_string-encode_all word (omega (arith, length-encode_all word))

to_string-string_to_text_buffer_example :
    (to_string word >>= λ s. string_to_text_buffer s.str (pos s.len)) ≡ ok word
to_string-string_to_text_buffer_example =
    to_string-string_to_text_buffer word (omega arith) (omega (arith, length-encode_all word))
      (omega arith)
