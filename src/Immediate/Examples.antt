-- ===== src/Immediate/Examples.antt =====
-- Values at the borders of the packed ranges.
use idris2_rc.Prelude.{◌-◌, ◌^◌, ◌≡◌, refl}
use idris2_rc.Prelude.Int.{negsuc}
use idris2_rc.Immediate.{Boxed, word, mk_int64, int64, immediate}
use idris2_rc.Strings.{to_size}

-- The smallest number of a word, and the next one down, which has a box.
abbrev border : Boxed
border = mk_int64 (negsuc (2 ^ 62 - 1))

border-word : border ≡ word 0x8000000000000001
unfolding mk_int64 immediate to_size
border-word = refl

beyond_box : mk_int64 (negsuc (2 ^ 62)) ≡ int64 (negsuc (2 ^ 62))
unfolding mk_int64 immediate to_size
beyond_box = refl
