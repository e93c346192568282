-- ===== src/ParseDouble/Text.antt =====
-- White space and a sign in front of a literal, and how a literal starts.
use idris2_rc.Prelude.{
  ℕ, zero, suc, ◌<◌, ◌≡◌, refl, Bool, true, false, ◌&&◌, ◌||◌, List, [], ◌∷◌, ◌++◌, length, All,
  arith, leb, ◌==◌, if◌then◌else◌, take,
}
use idris2_rc.Prelude.Int.{ℤ, pos, negsuc, pos_part, ltb_ℤ, leb_ℤ}
use idris2_rc.Decimal.{sign, place_point, scientific}
use idris2_rc.Decimal.Library.{Calls, IsDigit}
use idris2_rc.ParseDouble.{skip_spaces}

abbrev pub StartsWithDigit : List ℕ → Type 0
StartsWithDigit [] = ⊥
StartsWithDigit (c ∷ p) = IsDigit c

-- A literal with a minus in front of it.
abbrev pub signed : Bool → List ℕ → List ℕ
signed minus p = if minus then b'-' ∷ p else p

pub sign-signed :
    (minus : Bool) (p : List ℕ)
    → StartsWithDigit p
    → sign (skip_spaces (signed minus p)) ≡ (minus, p)
unfolding sign skip_spaces
sign-signed true p d = refl
sign-signed false [] d = absurd d
sign-signed false (c ∷ p) d =
    let not_space : (c == b' ' || leb 9 c && leb c 13) ≡ false = ground arith in
    let not_minus : (c == b'-') ≡ false = ground arith in
    let not_plus : (c == b'+') ≡ false = ground arith in rw (not_space, not_minus, not_plus)

if-StartsWithDigit :
    (b : Bool) (s t : List ℕ)
    → StartsWithDigit s
    → (b ≡ false → StartsWithDigit t)
    → StartsWithDigit (if b then s else t)
if-StartsWithDigit true s t f h = f
if-StartsWithDigit false s t f h = h refl

take-StartsWithDigit :
    (k : ℤ) (c : ℕ) (ds rest : List ℕ)
    → IsDigit c
    → leb_ℤ k (pos 0) ≡ false
    → StartsWithDigit (take (pos_part k) (c ∷ ds) ++ rest)
take-StartsWithDigit (pos zero) c ds rest d above = absurd (ground arith)
take-StartsWithDigit (pos (suc k)) c ds rest d above = d
take-StartsWithDigit (negsuc k) c ds rest d above = absurd (ground arith)

module _ (g : Calls) where
  pub place_point-StartsWithDigit :
      (ds : List ℕ) (nd : ℕ) (k : ℤ)
      → All IsDigit ds
      → 0 < length ds
      → StartsWithDigit (place_point g ds nd k)
  unfolding place_point scientific
  place_point-StartsWithDigit [] nd k digits p = absurd (omega arith)
  place_point-StartsWithDigit (c ∷ ds) nd k (d, digits) p =
      if-StartsWithDigit (ltb_ℤ (negsuc 5) k && leb_ℤ k (pos 21)) _ _
        (if-StartsWithDigit (leb_ℤ k (pos 0)) _ _ (omega arith) (λ above.
          if-StartsWithDigit (leb_ℤ (pos nd) k) _ _ d
            (λ inside. take-StartsWithDigit k c ds _ d above)))
        (λ far. d)
