-- ===== src/Division.antt =====
-- The signed division of C, and the Euclidean division that
-- rc2/support/rc2/idris2rc2_numeric.h builds on it for each width (`idris2rc2_ediv_i8` up to
-- `idris2rc2_emod_i64`). An `intN_t` is an integer in its range; a cast to it wraps.
pub mod Euclid
pub mod Laws
mod Examples
use idris2_rc.Prelude.{
  ℕ, zero, suc, ◌+◌, ◌-◌, ◌/◌, ◌%◌, ◌^◌, Bool, true, false, ◌&&◌, ltb, ◌==◌, if◌then◌else◌,
}
use idris2_rc.Prelude.Int.{ℤ, pos, negsuc, nat_abs, of_sign, ◌+ℤ◌, ◌-ℤ◌}

abbrev pub is_negative : ℤ → Bool
is_negative (pos n) = false
is_negative (negsuc n) = true

abbrev pub differ : Bool → Bool → Bool
differ false b = b
differ true false = true
differ true true = false

-- `a / b` and `a % b` of C round towards zero; the divisor is not 0.
unfoldable pub cdiv : ℤ → ℤ → ℤ
cdiv a b = of_sign (differ (is_negative a) (is_negative b)) (nat_abs a / nat_abs b)

unfoldable pub crem : ℤ → ℤ → ℤ
crem a b = of_sign (is_negative a) (nat_abs a % nat_abs b)

-- The low `w` bits in two's complement, and the cast to `intN_t` of an integer.
unfoldable pub to_bits : (w : ℕ) → ℤ → ℕ
to_bits w (pos n) = n % 2 ^ w
to_bits w (negsuc n) = 2 ^ w - 1 - n % 2 ^ w

unfoldable pub of_bits : (w : ℕ) → ℕ → ℤ
of_bits w n = if ltb n (2 ^ (w - 1)) then pos n else negsuc (2 ^ w - 1 - n)

unfoldable pub wrap : (w : ℕ) → ℤ → ℤ
unfolding of_bits to_bits
wrap w a = of_bits w (to_bits w a)

-- `idris2rc2_ediv_i8` and `idris2rc2_ediv_i16`: the operands are promoted to `int`.
unfoldable pub ediv_small : (w : ℕ) → ℤ → ℤ → ℤ
unfolding cdiv crem
ediv_small w n d =
    let adjust : ℤ = if is_negative d then pos 1 else negsuc 0 in
    wrap w (cdiv n d +ℤ (if is_negative (crem n d) then adjust else pos 0))

-- `idris2rc2_ediv_i32` and `idris2rc2_ediv_i64`.
unfoldable pub ediv : (w : ℕ) → ℤ → ℤ → ℤ
unfolding ediv_small
ediv w n d = if is_negative d && nat_abs d == 1 then wrap w (pos 0 -ℤ n) else ediv_small w n d

-- `idris2rc2_emod_i8` up to `idris2rc2_emod_i32`, in `int64_t`.
unfoldable pub emod : (w : ℕ) → ℤ → ℤ → ℤ
unfolding crem
emod w n d =
    let ad = pos (nat_abs d) in let r = crem n ad in wrap w (if is_negative r then r +ℤ ad else r)

-- `idris2rc2_emod_i64`.
unfoldable pub emod_i64 : ℤ → ℤ → ℤ
unfolding crem
emod_i64 n d =
    let r = crem n d in
    let far = of_bits 64 ((to_bits 64 r + nat_abs d) % 2 ^ 64) in
    if is_negative d && nat_abs d == 1 then pos 0 else if is_negative r then far else r
