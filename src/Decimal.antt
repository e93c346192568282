-- ===== src/Decimal.antt =====
-- The decimal notation of doubles in rc2/support/rc2/idris2rc2_numeric.c: `idris2rc2_scan_decimal`,
-- which reads a literal as digits and an exponent, and `idris2rc2_place_point`, which writes one. A
-- string is its bytes up to the NUL. The numbers of GMP and `sprintf` of a `long` are the parameter
-- of Decimal/Library. No `long` wraps, as a string has fewer than 2 ^ 62 bytes.
pub mod Library
pub mod Digits
pub mod Laws
pub mod RoundTrip
pub mod Model
mod Examples
use idris2_rc.Prelude.{
  ℕ, zero, suc, ◌+◌, ◌-◌, ◌*◌, Bool, true, false, ◌&&◌, ◌||◌, List, [], ◌∷◌, ◌++◌, leb, ltb, ◌==◌,
  if◌then◌else◌, take, drop, replicate,
}
use idris2_rc.Prelude.Int.{ℤ, pos, negsuc, ◌+ℤ◌, ◌-ℤ◌, leb_ℤ, ltb_ℤ, pos_part, neg_part}
use idris2_rc.Decimal.Library.{Calls}

-- `*p >= '0' && *p <= '9'`.
abbrev pub is_digit : ℕ → Bool
is_digit c = leb b'0' c && leb c b'9'

abbrev pub starts_with_digit : List ℕ → Bool
starts_with_digit [] = false
starts_with_digit (c ∷ p) = is_digit c

-- The position behind the number, the digits as one number, and the power of ten.
pub record Scanned (Mpz : Type 0) : Type 0 where
  pub rest : List ℕ
  pub sig : Mpz
  pub dexp : ℤ

-- `if (*ep == '+' || *ep == '-')`: whether the sign is a minus, and the position behind it.
unfoldable pub sign : List ℕ → Bool × List ℕ
sign [] = (false, [])
sign (c ∷ p) = if c == b'-' then (true, p) else if c == b'+' then (false, p) else (false, c ∷ p)

-- The loop over the digits of the exponent.
unfoldable pub exponent_loop : List ℕ → ℕ → List ℕ × ℕ
exponent_loop [] ev = ([], ev)
exponent_loop (c ∷ p) ev =
    let next = ev * 10 + (c - b'0') in
    let more = exponent_loop p (if ltb 1_000_000_000 next then 1_000_000_000 else next) in
    if is_digit c then more else (c ∷ p, ev)

-- The exponent, if one stands there, added to `de`.
unfoldable pub scan_exponent : List ℕ → ℤ → List ℕ × ℤ
unfolding sign exponent_loop
scan_exponent [] de = ([], de)
scan_exponent (c ∷ ep) de =
    let (minus, digits) = sign ep in
    let (rest, ev) = exponent_loop digits 0 in
    if (c == b'e' || c == b'E') && starts_with_digit digits
    then (rest, if minus then de -ℤ pos ev else de +ℤ pos ev)
    else (c ∷ ep, de)

module _ (g : Calls) where
  -- The loop over digits, and how many there were.
  unfoldable pub digits_loop : List ℕ → g.Mpz → ℕ → List ℕ × g.Mpz × ℕ
  digits_loop [] sig n = ([], sig, n)
  digits_loop (c ∷ p) sig n =
      let more = digits_loop p (g.mpz_add_ui (g.mpz_mul_ui sig 10) (c - b'0')) (suc n) in
      if is_digit c then more else (c ∷ p, sig, n)

  -- The digits behind a point.
  unfoldable pub fraction : List ℕ → g.Mpz → List ℕ × g.Mpz × ℕ
  unfolding digits_loop
  fraction [] sig = ([], sig, 0)
  fraction (c ∷ p) sig =
      let digits = digits_loop p sig 0 in if c == b'.' then digits else (c ∷ p, sig, 0)

  unfoldable pub scan_decimal : List ℕ → Scanned g.Mpz
  unfolding fraction scan_exponent
  scan_decimal p =
      let (p1, s1, n1) = digits_loop p (g.mpz_set_ui 0) 0 in
      let (p2, s2, n2) = fraction p1 s1 in
      let (p3, de) = scan_exponent p2 (pos 0 -ℤ pos n2) in
      if n1 + n2 == 0
      then record { rest = p; sig = s2; dexp = pos 0 }
      else record { rest = p3; sig = s2; dexp = de }

  -- `<m>e<n>`.
  unfoldable pub scientific : List ℕ → (nd : ℕ) → ℤ → List ℕ
  scientific ds nd k =
      let point = if ltb 1 nd then b'.' ∷ drop 1 ds else [] in
      take 1 ds ++ (point ++ (b'e' ∷ g.print_long (k -ℤ pos 1)))

  -- `ds` is the string of the digits, and `nd` its length.
  unfoldable pub place_point : List ℕ → (nd : ℕ) → ℤ → List ℕ
  unfolding scientific
  place_point ds nd k =
      if ltb_ℤ (negsuc 5) k && leb_ℤ k (pos 21)
      then (if leb_ℤ k (pos 0)
          then b'0' ∷ (b'.' ∷ (replicate (neg_part k) b'0' ++ ds))
          else if leb_ℤ (pos nd) k
          then ds ++ (replicate (pos_part k - nd) b'0' ++ (b'.' ∷ (b'0' ∷ [])))
          else take (pos_part k) ds ++ (b'.' ∷ drop (pos_part k) ds))
      else scientific ds nd k
