-- ===== src/DoubleConvert/Entry.antt =====
-- A row of the table of powers of five, and what makes it the row of an exponent.
use idris2_rc.Prelude.{ℕ, ◌+◌, ◌-◌, ◌*◌, ◌^◌, Bool, true, ◌&&◌, List, [], ◌∷◌, leb, ltb}
use idris2_rc.Prelude.Int.{ℤ, pos_part, neg_part}

pub record Pow5Entry : Type 0 where
  pub hi : ℕ
  pub lo : ℕ
  pub e : ℤ

abbrev pub row : ℕ → ℕ → ℤ → Pow5Entry
row hi lo e = record { hi = hi; lo = lo; e = e }

-- The 128 bits of a row.
abbrev pub significand : Pow5Entry → ℕ
significand x = x.hi * 2 ^ 64 + x.lo

-- The row is for the exponent `i - 342`: its 128 bits are the power of five times `2 ^ e`, rounded.
unfoldable pub is_row : ℕ → Pow5Entry → Bool
is_row i x =
    let power = 2 * (5 ^ (i - 342) * 2 ^ pos_part x.e) in
    let unit = 5 ^ (342 - i) * 2 ^ neg_part x.e in
    leb (2 ^ 127) (significand x)
    && ltb (significand x) (2 ^ 128)
    && ltb x.lo (2 ^ 64)
    && leb ((2 * significand x - 1) * unit) power
    && leb power ((2 * significand x + 1) * unit)

unfoldable pub are_rows : ℕ → List Pow5Entry → Bool
are_rows i [] = true
are_rows i (x ∷ xs) = is_row i x && are_rows (i + 1) xs
