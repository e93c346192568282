-- ===== src/Division/Examples.antt =====
-- The divisions where the quotient rounds and where it wraps.
use idris2_rc.Prelude.{◌-◌, ◌^◌, ◌≡◌, refl}
use idris2_rc.Prelude.Int.{pos, negsuc, ◌+ℤ◌, ◌-ℤ◌}
use idris2_rc.Division.{ediv, emod, cdiv, crem, ediv_small, wrap, to_bits, of_bits}

minus_seven : ediv 32 (negsuc 6) (pos 2) ≡ negsuc 3
unfolding ediv ediv_small cdiv crem wrap to_bits of_bits ◌+ℤ◌
minus_seven = refl

minus_seven_rest : emod 32 (negsuc 6) (pos 2) ≡ pos 1
unfolding emod crem wrap to_bits of_bits ◌+ℤ◌
minus_seven_rest = refl

smallest_wraps : ediv 32 (negsuc (2 ^ 31 - 1)) (negsuc 0) ≡ negsuc (2 ^ 31 - 1)
unfolding ediv wrap to_bits of_bits ◌-ℤ◌
smallest_wraps = refl
