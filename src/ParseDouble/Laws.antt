-- ===== src/ParseDouble/Laws.antt =====
-- A literal is read as the double next to the number that it stands for.
use idris2_rc.Prelude.{
  ℕ, suc, ◌+◌, ◌*◌, ◌^◌, ◌<◌, ◌≤◌, ◌≡◌, sym, ◌∙◌, ap, Bool, true, false, List, [], ◌∷◌, length, All,
  arith, ◌==◌, if◌then◌else◌, Option, some, ◌>>=◌,
}
use native.Mathlib.Nat.{mul_assoc, pow-le-pow_right, mul-le-mul_right, mul-lt-mul_of_pos_right}
use idris2_rc.Prelude.Int.{ℤ, pos, negsuc, ◌+ℤ◌, ◌-ℤ◌, pos_part, neg_part, nat_abs, ltb_ℤ, +ℤ_parts}
use idris2_rc.Decimal.{sign, scan_decimal, place_point}
use idris2_rc.Decimal.Library.{IsDigit, num_from}
use idris2_rc.Decimal.RoundTrip.{place_point-scan_decimal}
use idris2_rc.Rounding.Nearest.{IsNearest, InReach}
use idris2_rc.Rounding.Laws.{ratio_to_double-IsNearest}
use idris2_rc.ParseDouble.{skip_spaces, ten_power, magnitude, parse_double}
use idris2_rc.ParseDouble.Library.{Numbers, NumbersLaws, calls}
use idris2_rc.ParseDouble.Text.{StartsWithDigit, signed, sign-signed, place_point-StartsWithDigit}
use idris2_rc.ParseDouble.Powers.{
  product_pos, ten_add, ltb-false, cancel-IsNearest, cancel-InReach, ten_pos, times_power,
  same_quotient, exponent-bounds,
}

some_digit : (ds : List ℕ) → 0 < num_from 0 ds → 0 < length ds
some_digit [] p = absurd (omega arith)
some_digit (c ∷ ds) p = omega arith

some_length : (p : List ℕ) → StartsWithDigit p → 0 < length p
some_length [] d = absurd d
some_length (c ∷ p) d = omega arith

-- The decimal bounds of the magnitude as binary ones.
not_large_lem :
    (w p m n : ℕ) → w < 10 ^ suc n → p + n + 2 ≤ 340 + m → w * 10 ^ p < 10 ^ m * 2 ^ 1200
not_large_lem w p m n hi le =
    let scaled : w * 10 ^ p < 10 ^ suc n * 10 ^ p = mul-lt-mul_of_pos_right hi (ten_pos p) in
    let whole : 10 ^ (suc n + p) ≤ 10 ^ (m + 339) =
      pow-le-pow_right {n = 10} (omega arith) (omega arith) in
    omega (arith, ten_add (suc n) p, ten_add m 339, ten_pos m)

not_small_lem : (w p m n : ℕ) → 10 ^ n ≤ w → m ≤ p + n + 341 → 10 ^ m < w * 10 ^ p * 2 ^ 1200
not_small_lem w p m n lo le =
    let scaled : 10 ^ n * 10 ^ p ≤ w * 10 ^ p = mul-le-mul_right (10 ^ p) lo in
    let whole : 10 ^ m ≤ 10 ^ (n + p + 341) =
      pow-le-pow_right {n = 10} (omega arith) (omega arith) in
    omega (arith, ten_add n p, ten_add (n + p) 341, ten_pos (n + p))

module _ (g : Numbers) (laws : NumbersLaws g) where
  open laws.arith_laws use {value}

  -- `o` is the double of a quotient of 53 bits that is next to `n / d`.
  abbrev pub Rounds : (n d : ℕ) → Option g.arith.Double → Type 0
  Rounds n d o =
      (q : g.arith.Mpz) × (s : ℤ) × (o ≡ some (g.arith.ldexp (g.arith.mpz_get_d q) (pos 0 -ℤ s)))
      × (2 ^ 52 ≤ value q)
      × (value q < 2 ^ 53)
      × IsNearest (value q) (n * 2 ^ pos_part s) (d * 2 ^ neg_part s)
      × InReach (n * 2 ^ pos_part s) (d * 2 ^ neg_part s)

  ten_power-Rounds :
      (fuel : ℕ) (rest : List ℕ) (sig : g.arith.Mpz) (e : ℤ)
      → 0 < value sig
      → nat_abs e < 2 ^ 64
      → value sig * 10 ^ pos_part e < 10 ^ neg_part e * 2 ^ 1200
      → 10 ^ neg_part e < value sig * 10 ^ pos_part e * 2 ^ 1200
      → Rounds
          (value sig * 10 ^ pos_part e)
          (10 ^ neg_part e)
          (ten_power g (suc (suc fuel)) (record { rest = rest; sig = sig; dexp = e }))
  unfolding ten_power
  ten_power-Rounds fuel rest sig (pos n) p small below above =
      let ten = g.mpz_ui_pow_ui 10 n in
      let up : ltb_ℤ (pos n) (pos 0) ≡ false = ground arith in
      let v : value ten ≡ 10 ^ n = laws.value-ui_pow_ui 10 n (omega arith) small in
      let num : value (g.mpz_mul sig ten) ≡ value sig * 10 ^ n = laws.value-mul sig ten ∙ rw v in
      let den : value (g.mpz_set_ui 1) ≡ 1 =
        sym (laws.one_value (g.mpz_set_ui 1)) ∙ laws.calls_laws.value-set_ui 1 (omega arith) in
      let num_pos : 0 < value (g.mpz_mul sig ten) =
        rw num (product_pos (value sig) (10 ^ n) p (ten_pos n)) in
      let near =
        ratio_to_double-IsNearest g.arith laws.arith_laws fuel (g.mpz_mul sig ten) (g.mpz_set_ui 1)
          1200 num_pos (omega arith) (omega arith) (rw (num, den) below) (rw (num, den) above) in
      rw up (rw (num, den) at near)
  ten_power-Rounds fuel rest sig (negsuc n) p small below above =
      let ten = g.mpz_ui_pow_ui 10 (suc n) in
      let down : ltb_ℤ (negsuc n) (pos 0) ≡ true = ground arith in
      let v : value ten ≡ 10 ^ suc n = laws.value-ui_pow_ui 10 (suc n) (omega arith) small in
      let one : value sig ≡ value sig * 10 ^ 0 = omega arith in
      let ten_positive : 0 < value ten = rw v (ten_pos (suc n)) in
      let near =
        ratio_to_double-IsNearest g.arith laws.arith_laws fuel sig ten 1200 p ten_positive
          (omega arith) (rw v (omega (arith, below))) (rw v (omega (arith, above))) in
      rw (down, ← one) (rw v at near)

  -- A number whose magnitude is not cut off.
  pub magnitude-Rounds :
      (fuel : ℕ) (rest : List ℕ) (sig : g.arith.Mpz) (e : ℤ) (n : ℕ)
      → 10 ^ n ≤ value sig
      → value sig < 10 ^ suc n
      → neg_part e ≤ pos_part e + n + 341
      → pos_part e + n + 2 ≤ 340 + neg_part e
      → nat_abs e < 2 ^ 64
      → Rounds
          (value sig * 10 ^ pos_part e)
          (10 ^ neg_part e)
          (magnitude g (suc (suc fuel)) (record { rest = rest; sig = sig; dexp = e }))
  unfolding magnitude
  magnitude-Rounds fuel rest sig e n lo hi above below small =
      let mag = pos (g.arith.mpz_sizeinbase sig 10) +ℤ e in
      let size = laws.sizeinbase-ten sig n lo hi in
      let size_le : g.arith.mpz_sizeinbase sig 10 ≤ n + 2 = ground arith in
      let size_ge : n + 1 ≤ g.arith.mpz_sizeinbase sig 10 = ground arith in
      let parts = +ℤ_parts (pos (g.arith.mpz_sizeinbase sig 10)) e in
      let not_large : ltb_ℤ (pos 340) mag ≡ false = ltb-false _ _ (omega (arith, parts, size_le)) in
      let not_small : ltb_ℤ mag (negsuc 339) ≡ false =
        ltb-false _ _ (omega (arith, parts, size_ge)) in
      rw (not_large, not_small)
        (ten_power-Rounds fuel rest sig e (omega (arith, ten_pos n)) small
          (not_large_lem (value sig) (pos_part e) (neg_part e) n hi below)
          (not_small_lem (value sig) (pos_part e) (neg_part e) n lo above))

  -- Both numbers without a common factor.
  rescale-Rounds :
      (n d n' d' t : ℕ) (o : Option g.arith.Double)
      → 0 < t
      → n' ≡ t * n
      → d' ≡ t * d
      → Rounds n' d' o
      → Rounds n d o
  rescale-Rounds n d n' d' t o p en ed (q, s, e, lo, hi, near, reach) =
      let num = ap (λ (x : ℕ). x * 2 ^ pos_part s) en ∙ mul_assoc t n (2 ^ pos_part s) in
      let den = ap (λ (x : ℕ). x * 2 ^ neg_part s) ed ∙ mul_assoc t d (2 ^ neg_part s) in
      (
        q,
        s,
        e,
        lo,
        hi,
        cancel-IsNearest t (value q) _ _ p (rw (num, den) at near),
        cancel-InReach t _ _ p (rw (num, den) at reach),
      )

  -- The reader, from what it takes from the text: all of it.
  module _ (fuel : ℕ) (text p : List ℕ) (minus : Bool) (sig : g.arith.Mpz) (e : ℤ)
      (front : sign (skip_spaces text) ≡ (minus, p)) (some_text : 0 < length p)
      (scanned : scan_decimal (calls g) p ≡ record { rest = []; sig = sig; dexp = e }) where
    not_empty : (0 == length p) ≡ false
    not_empty = ground arith

    pub parse_double-magnitude :
        0 < value sig
        → parse_double g fuel text ≡ (do
          o ← magnitude g fuel (record { rest = []; sig = sig; dexp = e })
          some (if minus then g.negate_double o else o))
    unfolding parse_double
    parse_double-magnitude positive =
        rw (front, scanned, not_empty, laws.arith_laws.sgn-pos sig positive)

    pub parse_double-zero :
        value sig ≡ 0
        → parse_double g fuel text
          ≡ some (if minus then g.negate_double g.arith.zero_double else g.arith.zero_double)
    unfolding parse_double
    parse_double-zero zero = rw (front, scanned, not_empty, laws.arith_laws.sgn-zero sig zero)

  -- For fewer than 2 ^ 62 digits that stand for a number of `n + 1` digits, and a place `k` of the point that keeps the
  -- magnitude within 340 and the printed exponent within a thousand million: the literal that is
  -- written from them, in any of the four notations and with or without a minus in front, is read as
  -- `ldexp` of a quotient of exactly 53 bits and an exponent, negated after a minus. No integer is
  -- nearer to the scaled number than the quotient, and where two are as near the quotient is even. The scaled number is at
  -- most a quarter below 2 ^ 52, so no double of the next smaller exponent is nearer.
  pub parse_double-IsNearest :
      (fuel : ℕ) (minus : Bool) (ds : List ℕ) (k : ℤ) (n : ℕ)
      → All IsDigit ds
      → length ds < 2 ^ 62
      → nat_abs (k -ℤ pos 1) ≤ 1_000_000_000
      → 10 ^ n ≤ num_from 0 ds
      → num_from 0 ds < 10 ^ suc n
      → neg_part k + length ds ≤ pos_part k + n + 341
      → pos_part k + n + 2 ≤ 340 + neg_part k + length ds
      → (q : g.arith.Mpz) × (s : ℤ) × (parse_double g
            (suc (suc fuel))
            (signed minus (place_point (calls g) ds (length ds) k))
          ≡ some (
              if minus
              then g.negate_double (g.arith.ldexp (g.arith.mpz_get_d q) (pos 0 -ℤ s))
              else g.arith.ldexp (g.arith.mpz_get_d q) (pos 0 -ℤ s)))
        × (2 ^ 52 ≤ value q)
        × (value q < 2 ^ 53)
        × IsNearest
            (value q)
            (num_from 0 ds * 10 ^ pos_part (k -ℤ pos (length ds)) * 2 ^ pos_part s)
            (10 ^ neg_part (k -ℤ pos (length ds)) * 2 ^ neg_part s)
        × InReach
            (num_from 0 ds * 10 ^ pos_part (k -ℤ pos (length ds)) * 2 ^ pos_part s)
            (10 ^ neg_part (k -ℤ pos (length ds)) * 2 ^ neg_part s)
  parse_double-IsNearest fuel minus ds k n digits short small lo hi above below =
      let m : ℤ = k -ℤ pos (length ds) in
      let v : ℕ = num_from 0 ds in
      let len : 0 < length ds = some_digit ds (omega (arith, ten_pos n)) in
      let (sig, e, j, scanned, number, shifted, j_le) =
        place_point-scan_decimal (calls g) laws.calls_laws ds k digits len small in
      let sig_value : value sig ≡ v * 10 ^ j = sym (laws.one_value sig) ∙ number in
      let (sig_lo, sig_hi) = times_power v j n lo hi in
      let (t, t_pos, num, den) = same_quotient v e j in
      let (above', below', small_e) =
        exponent-bounds e k j (length ds) n shifted j_le small short above below in
      let sig_pos : 0 < value sig = omega (arith, sig_value, sig_lo, ten_pos (n + j)) in
      let reads : Rounds (value sig * 10 ^ pos_part e) (10 ^ neg_part e)
          (magnitude g (suc (suc fuel)) (record { rest = []; sig = sig; dexp = e })) =
        magnitude-Rounds fuel [] sig e (n + j) (rw sig_value sig_lo) (rw sig_value sig_hi) above'
          below' small_e in
      let starts = place_point-StartsWithDigit (calls g) ds (length ds) k digits len in
      let (q, s, result, q_lo, q_hi, near, reach) =
        rescale-Rounds (v * 10 ^ pos_part m) (10 ^ neg_part m) _ _ t _ t_pos
          (rw (sig_value, ← shifted) num) (rw (← shifted) den) reads in
      (
        q,
        s,
        parse_double-magnitude (suc (suc fuel)) _ _ minus sig e (sign-signed minus _ starts)
              (some_length _ starts) scanned sig_pos
            ∙ rw result,
        q_lo,
        q_hi,
        near,
        reach,
      )
