-- ===== src/DoubleConvert/Text.antt =====
-- What the fast reader takes from a text is what the exact reader takes from it.
use idris2_rc.Prelude.{
  ℕ, ◌+◌, ◌^◌, ◌<◌, ◌≡◌, inl, inr, refl, sym, ◌∙◌, ap, ap₂, Bool, true, false, arith, not, ◌&&◌,
  ◌||◌, Option, some, none, List, [], ◌∷◌, ◌==◌, if◌then◌else◌, eq_of_some, bind_some, none_if, leb,
  ◌>>=◌, Bool-cases, length,
}
use mathlib.Core.Path.{subst}
use idris2_rc.Prelude.Int.{ℤ, pos, ◌+ℤ◌, ◌-ℤ◌, int_laws}
use idris2_rc.Decimal.{is_digit, sign, digits_loop, fraction, scan_decimal}
use idris2_rc.Decimal.Library.{Calls, CallsLaws}
use idris2_rc.ParseDouble.{skip_spaces}
use idris2_rc.DoubleConvert.{
  Scan, mantissa_loop, point_loop, fast_exponent, minus, starts_number, at_end, fast_scan,
}
use idris2_rc.DoubleConvert.Digits.{
  ten_le, too_many-stays, scanned, mantissa_loop-IsRead, point-IsRead,
}
use idris2_rc.DoubleConvert.Exponent.{fast_exponent-exact}

behind_point : (n : ℕ) (z : ℤ) → (pos 0 -ℤ pos n) +ℤ z ≡ z -ℤ pos n
behind_point n z = omega int_laws

end_of_text : (rest : List ℕ) (v u : Bool × ℕ × ℤ) → at_end rest v ≡ some u → (rest ≡ []) × (v ≡ u)
end_of_text [] v u e = (refl, eq_of_some e)
end_of_text (c ∷ cs) v u e = absurd (cc)

seen_few : (any too_many : Bool) → (not any || too_many) ≡ false → (any ≡ true) × (too_many ≡ false)
seen_few true too_many e = (refl, e)
seen_few false too_many e = absurd (ground arith)

point_loop-too_many : (s : Scan) → s.too_many ≡ true → (point_loop s).too_many ≡ true
unfolding point_loop
point_loop-too_many s e = by_rest s.rest refl
  where
    by_rest : (rest : List ℕ) → rest ≡ s.rest → (point_loop s).too_many ≡ true
    by_rest [] r = rw (← r, e)
    by_rest (c ∷ p) r =
        rw (← r, e)
          (elim (Bool-cases (c == b'.')) [
            | inl point ↦ rw point (too_many-stays p s.w s.ndigits 0 s.any_digit)
            | inr other ↦ rw other
          ])

some_length : (p : List ℕ) → starts_number p ≡ true → 0 < length p
some_length [] s = absurd (ground arith)
some_length (c ∷ p) s = omega arith

-- The sign and the first character.
minus-sign :
    (text : List ℕ)
    → starts_number (minus text).1 ≡ true
    → (sign (skip_spaces text) ≡ minus text) × (0 < length (minus text).1)
unfolding sign skip_spaces
minus-sign [] s = absurd (ground arith)
minus-sign (c ∷ p) s = elim (Bool-cases (c == b'-')) [
  | inl dash ↦
      let not_space : (c == b' ' || leb 9 c && leb c 13) ≡ false = ground arith in
      let start : starts_number p ≡ true = (rw dash at s) in
      rw (not_space, dash) (refl, some_length p start)
  | inr other ↦
      let start : (is_digit c || c == b'.') ≡ true = (rw other at s) in
      let not_space : (c == b' ' || leb 9 c && leb c 13) ≡ false = ground arith in
      let not_plus : (c == b'+') ≡ false = ground arith in
      rw (not_space, other, not_plus) (refl, omega arith)
]

module _ (g : Calls) (laws : CallsLaws g) where
  open laws use {value}

  -- The two loops over digits together.
  record IsMantissa (p : List ℕ) (s : Scan) : Type 0 where
    sig : g.Mpz
    whole : g.Mpz
    n1 : ℕ
    n2 : ℕ
    rest1 : List ℕ
    first : digits_loop g p (g.mpz_set_ui 0) 0 ≡ (rest1, whole, n1)
    second : fraction g rest1 whole ≡ (s.rest, sig, n2)
    number : value sig ≡ s.w
    small : s.w < 10 ^ 19
    count : s.added ≡ n2
    some_digit : s.any_digit ≡ true → 0 < n1 + n2

  point-IsMantissa :
      (p : List ℕ)
      → (point_loop (mantissa_loop p 0 0 0 false false)).too_many ≡ false
      → IsMantissa p (point_loop (mantissa_loop p 0 0 0 false false))
  point-IsMantissa p fine =
      let s = mantissa_loop p 0 0 0 false false in
      let few : s.too_many ≡ false = elim (Bool-cases s.too_many) [
        | inl many ↦ absurd (ground (arith, point_loop-too_many s many))
        | inr few ↦ few
      ] in
      let zero = laws.value-set_ui 0 (omega arith) in
      let r =
        mantissa_loop-IsRead g laws p 0 0 0 false (g.mpz_set_ui 0) 0 zero (omega arith)
          (omega arith) few in
      let eta : s ≡ scanned s.rest s.w s.ndigits s.added s.any_digit =
        ap (λ (t : Bool). record s { too_many = t }) few in
      let fine' = (rw eta at fine) in
      let r' =
        point-IsRead g laws s.rest s.w s.ndigits s.added s.any_digit r.sig r.number r.small r.few
          fine' in
      subst (λ (z : Scan). IsMantissa p (point_loop z)) (sym eta)
        (record {
          sig = r'.sig;
          whole = r.sig;
          n1 = 0 + r.digits;
          n2 = 0 + r'.digits;
          rest1 = s.rest;
          first = r.same;
          second = r'.same;
          number = r'.number;
          small = omega (arith, r'.small, ten_le _ r'.few);
          count = r'.count;
          some_digit = λ h. elim (r'.seen h) [
            | inl before ↦ elim (r.seen before) [
              | inl never ↦ absurd (ground arith)
              | inr some_digits ↦ omega arith
            ]
            | inr some_digits ↦ omega arith
          ];
        })

  end_parts :
      (neg' neg : Bool) (w' w : ℕ) (q' q : ℤ)
      → ◌≡◌ {A = Bool × ℕ × ℤ} (neg', w', q') (neg, w, q)
      → (neg' ≡ neg) × (w' ≡ w) × (q' ≡ q)
  end_parts neg' neg w' w q' q e = (
    ap (λ (t : Bool × ℕ × ℤ). t.0) e,
    ap (λ (t : Bool × ℕ × ℤ). t.1) e,
    ap (λ (t : Bool × ℕ × ℤ). t.2) e,
  )

  -- Where the fast reader takes a number from a text, the exact reader takes the same number from it,
  -- to the end of the text.
  pub fast_scan-exact :
      (text : List ℕ) (neg : Bool) (w : ℕ) (q : ℤ)
      → fast_scan text ≡ some (neg, w, q)
      → (p : List ℕ) × (sig : g.Mpz) × (sign (skip_spaces text) ≡ (neg, p))
        × (0 < length p)
        × (scan_decimal g p ≡ record { rest = []; sig = sig; dexp = q })
        × (value sig ≡ w)
        × (w < 10 ^ 19)
  unfolding fast_scan scan_decimal
  fast_scan-exact text neg w q e =
      let p : List ℕ = (minus text).1 in
      let all : Scan = point_loop (mantissa_loop p 0 0 0 false false) in
      let number : Option (Bool × ℕ × ℤ) =
        (fast_exponent all.rest >>= λ (t : List ℕ × ℤ).
        at_end t.0 ((minus text).0, all.w, t.1 -ℤ pos all.added)) in
      let (starts, e1) =
        none_if (not (starts_number p)) (if not all.any_digit || all.too_many then none else number)
          e in
      let (fine, e2) = none_if (not all.any_digit || all.too_many) number e1 in
      let ((rest, exp10), exponent, e3) =
        bind_some (fast_exponent all.rest)
          (λ (t : List ℕ × ℤ). at_end t.0 ((minus text).0, all.w, t.1 -ℤ pos all.added)) e2 in
      let (ended, result) = end_of_text rest _ _ e3 in
      let (same_neg, same_w, same_q) = end_parts _ neg _ w _ q result in
      let (from_sign, some_text) = minus-sign text (ground arith) in
      let (any, few) = seen_few all.any_digit all.too_many fine in
      let m = point-IsMantissa p few in
      let some_read : (m.n1 + m.n2 == 0) ≡ false = let digits = m.some_digit any in ground arith in
      let end = fast_exponent-exact all.rest rest exp10 (pos 0 -ℤ pos m.n2) exponent in
      let dexp : (pos 0 -ℤ pos m.n2) +ℤ exp10 ≡ q =
        behind_point m.n2 exp10 ∙ rw (← m.count) same_q in
      (
        p,
        m.sig,
        from_sign ∙ ap (λ (b : Bool). (b, p)) same_neg,
        some_text,
        rw (m.first, m.second, end, some_read)
            (ap₂ (λ (r : List ℕ) (d : ℤ). record { rest = r; sig = m.sig; dexp = d }) ended dexp),
        m.number ∙ same_w,
        rw (← same_w) m.small,
      )
