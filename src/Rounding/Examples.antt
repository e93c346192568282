-- ===== src/Rounding/Examples.antt =====
-- A third, rounded to a double.
use idris2_rc.Prelude.{ℕ, ◌*◌, ◌^◌, ◌<◌, ◌≤◌, ◌≡◌, some, arith}
use idris2_rc.Prelude.Int.{ℤ, pos, ◌-ℤ◌, pos_part, neg_part}
use idris2_rc.Rounding.{ratio_to_double}
use idris2_rc.Rounding.Nearest.{IsNearest, InReach}
use idris2_rc.Rounding.Laws.{ratio_to_double-IsNearest}
use idris2_rc.Rounding.Model.{plain, plain_laws}

ratio_to_double-IsNearest_example :
    (q : ℕ) × (s : ℤ) × (ratio_to_double plain 2 1 3
      ≡ some (plain.ldexp (plain.mpz_get_d q) (pos 0 -ℤ s)))
    × (2 ^ 52 ≤ q)
    × (q < 2 ^ 53)
    × IsNearest q (1 * 2 ^ pos_part s) (3 * 2 ^ neg_part s)
    × InReach (1 * 2 ^ pos_part s) (3 * 2 ^ neg_part s)
unfolding plain_laws
ratio_to_double-IsNearest_example =
    ratio_to_double-IsNearest plain plain_laws 0 1 3 2 (omega arith) (omega arith) (omega arith)
      (omega arith) (omega arith)
