-- ===== src/Buffer/Examples.antt =====
-- The theorems of the buffers at small buffers.
use idris2_rc.Prelude.{◌+◌, ◌≡◌, ℕ, List, [], ◌∷◌, ◌++◌, arith, take, drop, if◌then◌else◌}
use idris2_rc.Prelude.Run.{ok, abort, ◌>>=◌}
use idris2_rc.Prelude.Int.{pos}
use idris2_rc.Buffer.{set_buffer_uint_le, get_buffer_uint_le}
use idris2_rc.Buffer.Splice.{range_fits, le_bytes, set_buffer_uint_le-splice}
use idris2_rc.Buffer.Laws.{set_buffer_uint_le-get}

abbrev page : List ℕ
page = 1 ∷ 2 ∷ 3 ∷ 4 ∷ 5 ∷ []

set_buffer_uint_le-splice_example : set_buffer_uint_le page (pos 1) 0xABCD 2 ≡ (
    if range_fits page (pos 1) 2
    then ok (take 1 page ++ (le_bytes 2 0xABCD ++ drop (1 + 2) page))
    else abort)
set_buffer_uint_le-splice_example =
    set_buffer_uint_le-splice page (pos 1) 0xABCD 2 (omega arith) (omega arith)

set_buffer_uint_le-get_example :
    (set_buffer_uint_le page (pos 1) 0xABCD 2 >>= λ b. get_buffer_uint_le b (pos 1) 2) ≡ ok 0xABCD
set_buffer_uint_le-get_example =
    set_buffer_uint_le-get page 1 0xABCD 2 (omega arith) (omega arith) (omega arith) (omega arith)
