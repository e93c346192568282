-- ===== src/ParseDouble/Examples.antt =====
-- The reader of doubles on -1.25 and 1e400.
use idris2_rc.Prelude.{ℕ, ◌*◌, ◌^◌, ◌<◌, ◌≤◌, ◌≡◌, refl, true, some, arith, List, [], ◌∷◌}
use idris2_rc.Prelude.Int.{ℤ, pos, ◌-ℤ◌, ◌+ℤ◌, pos_part, neg_part}
use idris2_rc.Rounding.Nearest.{IsNearest, InReach}
use idris2_rc.Rounding.Model.{size10}
use idris2_rc.Decimal.{place_point, scan_decimal}
use idris2_rc.ParseDouble.{parse_double}
use idris2_rc.ParseDouble.Library.{calls}
use idris2_rc.ParseDouble.Text.{signed}
use idris2_rc.ParseDouble.Model.{plain, plain_laws}
use idris2_rc.ParseDouble.Laws.{parse_double-IsNearest}

-- 1.25.
abbrev ds : List ℕ
ds = b'1' ∷ b'2' ∷ b'5' ∷ []

too_large : parse_double plain 2 (b'1' ∷ b'e' ∷ b'4' ∷ b'0' ∷ b'0' ∷ []) ≡ some (pos 1, pos 5000)
unfolding parse_double ◌+ℤ◌ ◌-ℤ◌ scan_decimal size10
too_large = refl

too_small :
    parse_double plain 2 (b'1' ∷ b'e' ∷ b'-' ∷ b'4' ∷ b'0' ∷ b'0' ∷ []) ≡ some (pos 0, pos 0)
unfolding parse_double ◌+ℤ◌ ◌-ℤ◌ scan_decimal size10
too_small = refl

no_number : parse_double plain 2 (b'x' ∷ []) ≡ some (pos 0, pos 0)
unfolding parse_double scan_decimal
no_number = refl

parse_double-IsNearest_example :
    (q : ℕ) × (s : ℤ) × (parse_double plain 2 (signed true (place_point (calls plain) ds 3 (pos 1)))
      ≡ some (pos 0 -ℤ pos q, pos 0 -ℤ s))
    × (2 ^ 52 ≤ q)
    × (q < 2 ^ 53)
    × IsNearest q (125 * 1 * 2 ^ pos_part s) (100 * 2 ^ neg_part s)
    × InReach (125 * 1 * 2 ^ pos_part s) (100 * 2 ^ neg_part s)
unfolding plain_laws ◌-ℤ◌
parse_double-IsNearest_example =
    parse_double-IsNearest plain plain_laws 0 true ds (pos 1) 2 (omega arith) (omega arith)
      (omega arith) (omega arith) (omega arith) (omega arith) (omega arith)
