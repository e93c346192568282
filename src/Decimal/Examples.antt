-- ===== src/Decimal/Examples.antt =====
-- Literals that are written and read.
use idris2_rc.Prelude.{ℕ, ◌*◌, ◌^◌, ◌≤◌, ◌≡◌, refl, List, [], ◌∷◌, arith}
use idris2_rc.Prelude.Int.{ℤ, pos, negsuc, ◌+ℤ◌, ◌-ℤ◌}
use idris2_rc.Decimal.{scan_decimal, place_point}
use idris2_rc.Decimal.Library.{num_from}
use idris2_rc.Decimal.RoundTrip.{place_point-scan_decimal}
use idris2_rc.Decimal.Model.{decimal, plain, plain_laws}

-- 1.25, 0.00125 and 1.25e30.
abbrev ds : List ℕ
ds = b'1' ∷ b'2' ∷ b'5' ∷ []

inside : place_point plain ds 3 (pos 1) ≡ b'1' ∷ b'.' ∷ b'2' ∷ b'5' ∷ []
unfolding place_point
inside = refl

below_one : place_point plain ds 3 (negsuc 1) ≡ b'0' ∷ b'.' ∷ b'0' ∷ b'0' ∷ ds
unfolding place_point
below_one = refl

large : place_point plain ds 3 (pos 31) ≡ b'1' ∷ b'.' ∷ b'2' ∷ b'5' ∷ b'e' ∷ b'3' ∷ b'0' ∷ []
unfolding place_point decimal ◌-ℤ◌
large = refl

reads :
    scan_decimal plain (b'1' ∷ b'.' ∷ b'5' ∷ b'e' ∷ b'-' ∷ b'2' ∷ b';' ∷ [])
    ≡ record { rest = b';' ∷ []; sig = 15; dexp = negsuc 2 }
unfolding scan_decimal ◌-ℤ◌ ◌+ℤ◌
reads = refl

place_point-scan_decimal_example :
    (s : ℕ) × (e : ℤ) × (j : ℕ) × (scan_decimal plain (place_point plain ds 3 (pos 31))
      ≡ record { rest = []; sig = s; dexp = e })
    × (s ≡ num_from 0 ds * 10 ^ j)
    × (e +ℤ pos j ≡ pos 31 -ℤ pos 3)
    × (j ≤ 32)
unfolding plain_laws
place_point-scan_decimal_example =
    place_point-scan_decimal plain plain_laws ds (pos 31) (omega arith) (omega arith)
      (unfold ◌-ℤ◌ in omega arith)
