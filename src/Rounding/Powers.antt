-- ===== src/Rounding/Powers.antt =====
-- What a step of the exponent does to the two powers of two that scale a quotient.
use idris2_rc.Prelude.{ℕ, zero, suc, ◌*◌, ◌^◌, ◌≡◌, ◌⊎◌, inl, inr, refl, arith}
use native.Mathlib.Nat.{pow-suc}
use idris2_rc.Prelude.Int.{ℤ, pos, negsuc, ◌-ℤ◌, pos_part, neg_part}
use idris2_rc.Rounding.Nearest.{IsNearest, InReach, halve-IsNearest}

pred-pos : (a : ℕ) → pos (suc a) -ℤ pos 1 ≡ pos a
unfolding ◌-ℤ◌
pred-pos a = ground arith

pred-negsuc : (b : ℕ) → negsuc b -ℤ pos 1 ≡ negsuc (suc b)
unfolding ◌-ℤ◌
pred-negsuc b = ground arith

pred-zero : pos 0 -ℤ pos 1 ≡ negsuc 0
unfolding ◌-ℤ◌
pred-zero = refl

double_power : (n a : ℕ) → n * 2 ^ suc a ≡ 2 * (n * 2 ^ a)
double_power n a = rw (pow-suc 2 a) (grind arith)

-- The exponent less one stands for the quotient with twice the denominator: both numbers keep, or
-- both lose, a factor of two.
pub pred_powers :
    (n d : ℕ) (s : ℤ)
    → (k : ℕ) × ((k ≡ 1) ⊎ (k ≡ 2))
      × (n * 2 ^ pos_part s ≡ k * (n * 2 ^ pos_part (s -ℤ pos 1)))
      × (2 * (d * 2 ^ neg_part s) ≡ k * (d * 2 ^ neg_part (s -ℤ pos 1)))
pred_powers n d (pos zero) = rw pred-zero (1, inl refl, omega arith, omega arith)
pred_powers n d (pos (suc a)) = rw (pred-pos a) (2, inr refl, double_power n a, refl)
pred_powers n d (negsuc b) =
    rw (pred-negsuc b) (1, inl refl, omega arith, omega (arith, double_power d (suc b)))

pub unscale-IsNearest :
    (k q n d : ℕ) → (k ≡ 1) ⊎ (k ≡ 2) → IsNearest q (k * n) (k * d) → IsNearest q n d
unscale-IsNearest k q n d (inl one) h =
    let (e, f) : (k * n ≡ n) × (k * d ≡ d) = (rw one (omega arith), rw one (omega arith)) in
    rw (e, f) at h
unscale-IsNearest k q n d (inr two) h = halve-IsNearest q n d (k * n) (k * d) (rw two) (rw two) h

pub unscale-InReach : (k n d : ℕ) → (k ≡ 1) ⊎ (k ≡ 2) → InReach (k * n) (k * d) → InReach n d
unscale-InReach k n d (inl one) h = let h' = (rw one at h) in omega arith
unscale-InReach k n d (inr two) h = let h' = (rw two at h) in omega arith
