-- ===== src/DoubleConvert/Ratio.antt =====
-- The powers of two, five and ten of the fraction that the fast reader rounds.
use idris2_rc.Prelude.{ℕ, zero, suc, ◌+◌, ◌*◌, ◌^◌, ◌<◌, ◌≡◌, sym, ◌∙◌, ap, arith}
use native.Mathlib.Nat.{pow-suc, pow-le-pow_right}
use idris2_rc.Rounding.Nearest.{pow-add}

pub five_pos : (n : ℕ) → 0 < 5 ^ n
five_pos n = pow-le-pow_right {n = 5} (omega arith) {i = 0} {j = n} (omega arith)

ten_split : (n : ℕ) → 10 ^ n ≡ 2 ^ n * 5 ^ n
ten_split zero = omega arith
ten_split (suc n) = rw (pow-suc 10 n, pow-suc 2 n, pow-suc 5 n, ten_split n) (grind arith)

six_powers : (a b c d e : ℕ) → 2 ^ a * 2 ^ b * 2 ^ c * 2 ^ d * 2 ^ e ≡ 2 ^ (a + b + c + d + e)
six_powers a b c d e =
    rw (pow-add (a + b + c + d) e, pow-add (a + b + c) d, pow-add (a + b) c, pow-add a b)

left_order :
    (w f g c p x s r : ℕ)
    → w * c * (2 * (f * p)) * x * (r * g * s) ≡ w * f * g * 2 * (c * p * x * r * s)
left_order w f g c p x s r = grind arith

right_order :
    (w f g t s h m : ℕ)
    → w * (t * f) * s * (2 ^ 65 * (g * m) * 2 ^ 75 * h) ≡ w * f * g * 2 * (t * s * 2 ^ 139 * m * h)
right_order w f g t s h m = grind arith

-- The fraction that the code rounds is the number times a power of two.
pub same_ratio :
    (w a b c pe ne x h ps ns : ℕ)
    → c + pe + x + b + ns ≡ a + ps + 139 + ne + h
    → w * 2 ^ c * (2 * (5 ^ a * 2 ^ pe)) * 2 ^ x * (10 ^ b * 2 ^ ns)
      ≡ w * 10 ^ a * 2 ^ ps * (2 ^ 65 * (5 ^ b * 2 ^ ne) * 2 ^ 75 * 2 ^ h)
same_ratio w a b c pe ne x h ps ns e =
    rw (ten_split a, ten_split b)
      (left_order w (5 ^ a) (5 ^ b) (2 ^ c) (2 ^ pe) (2 ^ x) (2 ^ ns) (2 ^ b)
        ∙ ap (λ (z : ℕ). w * 5 ^ a * 5 ^ b * 2 * z)
            (six_powers c pe x b ns ∙ ap (λ (z : ℕ). 2 ^ z) e ∙ sym (six_powers a ps 139 ne h))
        ∙ sym (right_order w (5 ^ a) (5 ^ b) (2 ^ a) (2 ^ ps) (2 ^ h) (2 ^ ne)))
