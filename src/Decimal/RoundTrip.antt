-- ===== src/Decimal/RoundTrip.antt =====
-- What `idris2rc2_place_point` writes, `idris2rc2_scan_decimal` reads again as the same number.
use idris2_rc.Prelude.{
  ℕ, zero, suc, ◌+◌, ◌-◌, ◌*◌, ◌^◌, ◌<◌, ◌≤◌, ◌≡◌, refl, ◌∙◌, ap, Bool, true, false, ◌&&◌, List, [],
  ◌∷◌, ◌++◌, arith, if◌then◌else◌, length, All, All-append, All-take, All-drop, replicate, take,
  drop, take-append-drop, ltb, length-append, length-replicate, length-drop, length-take,
}
use mathlib.Core.List.{append_assoc, append-nil}
use native.Mathlib.Nat.{pow-suc}
use idris2_rc.Prelude.Int.{
  ℤ, pos, negsuc, ◌+ℤ◌, ◌-ℤ◌, leb_ℤ, ltb_ℤ, pos_part, neg_part, nat_abs, int_laws,
}
use idris2_rc.Decimal.{scan_exponent, scan_decimal, scientific, place_point}
use idris2_rc.Decimal.Library.{Calls, CallsLaws, IsDigit, num_from}
use idris2_rc.Decimal.Digits.{num_from-append, num_from-zeros}
use idris2_rc.Decimal.Laws.{with_point, without_point, exponent-read}

zeros-digits : (m : ℕ) → All IsDigit (replicate m b'0')
zeros-digits zero = tt
zeros-digits (suc m) = (omega arith, zeros-digits m)

-- What the three tests say of the exponent.
low-parts : (k : ℤ) → leb_ℤ k (pos 0) ≡ true → pos_part k ≡ 0
low-parts (pos n) e = ground arith
low-parts (negsuc n) e = refl

big-parts : (n : ℕ) (k : ℤ) → leb_ℤ (pos n) k ≡ true → (neg_part k ≡ 0) × (n ≤ pos_part k)
big-parts n (pos m) e = (refl, ground arith)
big-parts n (negsuc m) e = absurd (ground arith)

inside-parts :
    (n : ℕ) (k : ℤ)
    → leb_ℤ k (pos 0) ≡ false
    → leb_ℤ (pos n) k ≡ false
    → (neg_part k ≡ 0) × (0 < pos_part k) × (pos_part k < n)
inside-parts n (pos m) e f = (refl, ground arith, ground arith)
inside-parts n (negsuc m) e f = absurd (ground arith)

times_ten : (a m : ℕ) → a * 10 ^ m * 10 + 0 ≡ a * 10 ^ suc m
times_ten a m = rw (pow-suc 10 m) (grind arith)

module _ (g : Calls) (laws : CallsLaws g) where
  open laws use {value}

  -- The text is read to its end, as the digits times a power of ten that its exponent takes back.
  abbrev Reads : (text ds : List ℕ) → ℤ → Type 0
  Reads text ds k =
      (s : g.Mpz) × (e : ℤ) × (j : ℕ) × (scan_decimal g text
        ≡ record { rest = []; sig = s; dexp = e })
      × (value s ≡ num_from 0 ds * 10 ^ j)
      × (e +ℤ pos j ≡ k -ℤ pos (length ds))
      × (j ≤ suc (pos_part k))

  -- A text with a point and no exponent.
  point-Reads :
      (xs ys ds : List ℕ) (k : ℤ) (j : ℕ)
      → All IsDigit xs
      → All IsDigit ys
      → 0 < length xs
      → num_from 0 (xs ++ ys) ≡ num_from 0 ds * 10 ^ j
      → (pos 0 -ℤ pos (length ys)) +ℤ pos j ≡ k -ℤ pos (length ds)
      → j ≤ suc (pos_part k)
      → Reads (xs ++ (b'.' ∷ ys)) ds k
  point-Reads xs ys ds k j ax ay p num e le =
      let (s, scanned, v) = with_point g laws xs ys [] ax ay p refl in
      (
        s,
        pos 0 -ℤ pos (length ys),
        j,
        (unfold scan_exponent in rw append-nil at scanned),
        v ∙ num,
        e,
        le,
      )

  module _ (ds : List ℕ) (k : ℤ) (digits : All IsDigit ds) (some_digit : 0 < length ds) where
    below_one :
        leb_ℤ k (pos 0) ≡ true → Reads (b'0' ∷ (b'.' ∷ (replicate (neg_part k) b'0' ++ ds))) ds k
    below_one low =
        let zs : List ℕ = replicate (neg_part k) b'0' in
        let none_of : num_from 0 zs ≡ 0 = omega (arith, num_from-zeros 0 (neg_part k)) in
        point-Reads (b'0' ∷ []) (zs ++ ds) ds k 0 (omega arith, tt)
          (All-append IsDigit zs ds (zeros-digits (neg_part k)) digits) (omega arith)
          (num_from-append 0 zs ds ∙ ap (λ (t : ℕ). num_from t ds) none_of ∙ omega arith)
          (let zero_pos = low-parts k low in
            let len : length (zs ++ ds) ≡ neg_part k + length ds =
              omega (arith, length-append zs ds, length-replicate {A = ℕ} (neg_part k) b'0') in
            omega int_laws)
          (omega arith)

    whole :
        leb_ℤ (pos (length ds)) k ≡ true
        → Reads (ds ++ (replicate (pos_part k - length ds) b'0' ++ (b'.' ∷ (b'0' ∷ [])))) ds k
    whole big =
        let m = pos_part k - length ds in
        let zs : List ℕ = replicate m b'0' in
        let (zero_neg, le) = big-parts (length ds) k big in
        rw (← append_assoc ds zs (b'.' ∷ (b'0' ∷ []))) (
          point-Reads (ds ++ zs) (b'0' ∷ []) ds k (suc m)
            (All-append IsDigit ds zs digits (zeros-digits m)) (omega arith, tt)
            (omega (arith, length-append ds zs))
            (num_from-append 0 (ds ++ zs) (b'0' ∷ [])
              ∙ ap (λ (t : ℕ). t * 10 + 0)
                  (num_from-append 0 ds zs ∙ num_from-zeros (num_from 0 ds) m)
              ∙ times_ten (num_from 0 ds) m)
            (omega int_laws) (omega arith))

    inside :
        leb_ℤ k (pos 0) ≡ false
        → leb_ℤ (pos (length ds)) k ≡ false
        → Reads (take (pos_part k) ds ++ (b'.' ∷ drop (pos_part k) ds)) ds k
    inside above below =
        let (zero_neg, p, lt) = inside-parts (length ds) k above below in
        let len = length-drop (pos_part k) ds in
        point-Reads (take (pos_part k) ds) (drop (pos_part k) ds) ds k 0
          (All-take IsDigit (pos_part k) ds digits) (All-drop IsDigit (pos_part k) ds digits)
          (omega (arith, length-take (pos_part k) ds))
          (rw (take-append-drop (pos_part k) ds) (omega arith)) (omega int_laws) (omega arith)

  mantissa-Reads :
      (c : ℕ) (ds : List ℕ) (k : ℤ)
      → All IsDigit (c ∷ ds)
      → nat_abs (k -ℤ pos 1) ≤ 1_000_000_000
      → Reads (scientific g (c ∷ ds) (length (c ∷ ds)) k) (c ∷ ds) k
  unfolding scientific
  mantissa-Reads c [] k digits small =
      let (s, scanned, v) =
        without_point g laws (c ∷ []) (g.print_long (k -ℤ pos 1)) b'e' digits (omega arith) refl
          refl in
      (
        s,
        (pos 0 -ℤ pos 0) +ℤ (k -ℤ pos 1),
        0,
        rw (exponent-read g laws (k -ℤ pos 1) (pos 0 -ℤ pos 0) small) at scanned,
        v ∙ omega arith,
        omega int_laws,
        omega arith,
      )
  mantissa-Reads c (d ∷ ds) k digits small =
      let (s, scanned, v) =
        with_point g laws (c ∷ []) (d ∷ ds) (b'e' ∷ g.print_long (k -ℤ pos 1)) (digits.0, tt)
          digits.1 (omega arith) refl in
      let two : ltb 1 (length (c ∷ d ∷ ds)) ≡ true = ground arith in
      (
        s,
        (pos 0 -ℤ pos (length (d ∷ ds))) +ℤ (k -ℤ pos 1),
        0,
        rw two (
            rw (exponent-read g laws (k -ℤ pos 1) (pos 0 -ℤ pos (length (d ∷ ds))) small) at
              scanned),
        v ∙ omega arith,
        omega int_laws,
        omega arith,
      )

  scientific-Reads :
      (ds : List ℕ) (k : ℤ)
      → All IsDigit ds
      → 0 < length ds
      → nat_abs (k -ℤ pos 1) ≤ 1_000_000_000
      → Reads (scientific g ds (length ds) k) ds k
  scientific-Reads [] k digits p small = absurd (omega arith)
  scientific-Reads (c ∷ ds) k digits p small = mantissa-Reads c ds k digits small

  if-Reads :
      (b : Bool) (s t ds : List ℕ) (k : ℤ)
      → (b ≡ true → Reads s ds k)
      → (b ≡ false → Reads t ds k)
      → Reads (if b then s else t) ds k
  if-Reads true s t ds k f h = f refl
  if-Reads false s t ds k f h = h refl

  -- A literal that was written from digits `ds` and a place `k` of the point, whichever of the four
  -- notations it takes, is read to its end, as the number that `ds` stands for, times ten to the
  -- power of `k` less the number of digits: the digits that are read have `j` zeros more, and the
  -- exponent that is read is smaller by `j`, at most one more than `k`. The exponent that is written is at most a thousand million,
  -- where the reader stops to count.
  pub place_point-scan_decimal :
      (ds : List ℕ) (k : ℤ)
      → All IsDigit ds
      → 0 < length ds
      → nat_abs (k -ℤ pos 1) ≤ 1_000_000_000
      → (s : g.Mpz) × (e : ℤ) × (j : ℕ) × (scan_decimal g (place_point g ds (length ds) k)
          ≡ record { rest = []; sig = s; dexp = e })
        × (value s ≡ num_from 0 ds * 10 ^ j)
        × (e +ℤ pos j ≡ k -ℤ pos (length ds))
        × (j ≤ suc (pos_part k))
  unfolding place_point
  place_point-scan_decimal ds k digits p small =
      if-Reads (ltb_ℤ (negsuc 5) k && leb_ℤ k (pos 21)) _ _ ds k
        (λ plain. if-Reads (leb_ℤ k (pos 0)) _ _ ds k (below_one ds k digits p) (λ above.
          if-Reads (leb_ℤ (pos (length ds)) k) _ _ ds k (whole ds k digits p)
            (inside ds k digits p above)))
        (λ far. scientific-Reads ds k digits p small)
