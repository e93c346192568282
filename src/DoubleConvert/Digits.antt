-- ===== src/DoubleConvert/Digits.antt =====
-- The loops over digits of the fast reader keep the number that the exact reader keeps.
use idris2_rc.Prelude.{
  ℕ, suc, ◌+◌, ◌-◌, ◌*◌, ◌^◌, ◌<◌, ◌≤◌, ◌≡◌, ◌⊎◌, inl, inr, refl, ◌∙◌, ap, Bool, true, false, arith,
  List, [], ◌∷◌, u64, ◌==◌, ltb, Bool-cases, add-zero,
}
use native.Mathlib.Nat.{pow-suc, pow-le-pow_right}
use idris2_rc.Decimal.{is_digit, digits_loop, fraction}
use idris2_rc.Decimal.Library.{Calls, CallsLaws}
use idris2_rc.DoubleConvert.{Scan, mantissa_loop, point_loop}

pub ten_le : (n : ℕ) → n ≤ 19 → 10 ^ n ≤ 10 ^ 19
ten_le n h = pow-le-pow_right {n = 10} (omega arith) h

-- A digit too many is not forgotten.
pub too_many-stays :
    (p : List ℕ) (w n k : ℕ) (any : Bool) → (mantissa_loop p w n k any true).too_many ≡ true
unfolding mantissa_loop
too_many-stays [] w n k any = refl
too_many-stays (c ∷ p) w n k any = elim (Bool-cases (is_digit c)) [
  | inl digit ↦ rw digit (elim (Bool-cases (ltb n 19)) [
    | inl room ↦ rw room (too_many-stays p _ _ _ _)
    | inr full ↦ rw full (too_many-stays p _ _ _ _)
  ])
  | inr other ↦ rw other
]

-- A number that has not too many digits so far.
abbrev pub scanned : (rest : List ℕ) (w n k : ℕ) (any : Bool) → Scan
scanned rest w n k any = record {
  rest = rest;
  w = w;
  ndigits = n;
  added = k;
  any_digit = any;
  too_many = false;
}

module _ (g : Calls) (laws : CallsLaws g) where
  open laws use {value}

  -- What the two loops have in common: the rest, the number and how many digits it has.
  pub record IsRead (n : ℕ) (added : ℕ) (any : Bool) (s : Scan) (exact : List ℕ × g.Mpz × ℕ)
      : Type 0 where
    pub sig : g.Mpz
    pub digits : ℕ
    pub same : exact ≡ (s.rest, sig, n + digits)
    pub number : value sig ≡ s.w
    pub small : s.w < 10 ^ s.ndigits
    pub few : s.ndigits ≤ 19
    pub count : s.added ≡ added + digits
    pub seen : s.any_digit ≡ true → (any ≡ true) ⊎ (0 < digits)

  one_more :
      (n k : ℕ) (any : Bool) (s : Scan) (exact : List ℕ × g.Mpz × ℕ)
      → IsRead (suc n) (k + 1) true s exact
      → IsRead n k any s exact
  one_more n k any s exact r = record {
    sig = r.sig;
    digits = suc r.digits;
    same = r.same ∙ ap (λ (t : ℕ). (s.rest, r.sig, t)) (omega arith);
    number = r.number;
    small = r.small;
    few = r.few;
    count = omega (arith, r.count);
    seen = λ e. inr (omega arith);
  }

  pub mantissa_loop-IsRead :
      (p : List ℕ) (w n k : ℕ) (any : Bool) (sig : g.Mpz) (d : ℕ)
      → value sig ≡ w
      → w < 10 ^ n
      → n ≤ 19
      → (mantissa_loop p w n k any false).too_many ≡ false
      → IsRead d k any (mantissa_loop p w n k any false) (digits_loop g p sig d)
  unfolding mantissa_loop digits_loop
  mantissa_loop-IsRead [] w n k any sig d e small few fine = record {
    sig = sig;
    digits = 0;
    same = rw add-zero;
    number = e;
    small = small;
    few = few;
    count = omega arith;
    seen = λ s. inl s;
  }
  mantissa_loop-IsRead (c ∷ p) w n k any sig d e small few fine = elim (Bool-cases (is_digit c)) [
    | inl digit ↦ elim (Bool-cases (ltb n 19)) [
      | inl room ↦
          let le = ten_le (n + 1) (ground arith) in
          let power : 10 ^ (n + 1) ≡ 10 ^ n * 10 =
            ap (λ (t : ℕ). 10 ^ t) (omega arith) ∙ pow-suc 10 n in
          let d_le : c - b'0' ≤ 9 = ground arith in
          let wraps : u64 (w * 10 + (c - b'0')) ≡ w * 10 + (c - b'0') = omega arith in
          let next = g.mpz_add_ui (g.mpz_mul_ui sig 10) (c - b'0') in
          let step : value next ≡ u64 (w * 10 + (c - b'0')) = omega (
            arith,
            laws.value-mul_ui sig 10 (omega arith),
            laws.value-add_ui (g.mpz_mul_ui sig 10) (c - b'0') (omega arith),
          ) in
          let ih =
            mantissa_loop-IsRead p (u64 (w * 10 + (c - b'0'))) (n + 1) (k + 1) true next (suc d)
              step (omega arith) (ground arith) (rw (digit, room) at fine) in
          rw (digit, room) (one_more d k any _ _ ih)
      | inr full ↦ absurd (ground (arith, too_many-stays p w n k true))
    ]
    | inr other ↦ rw other (record {
      sig = sig;
      digits = 0;
      same = rw add-zero;
      number = e;
      small = small;
      few = few;
      count = omega arith;
      seen = λ s. inl s;
    })
  ]

  nothing-IsRead :
      (n : ℕ) (s : Scan) (sig : g.Mpz)
      → value sig ≡ s.w
      → s.w < 10 ^ s.ndigits
      → s.ndigits ≤ 19
      → IsRead n s.added s.any_digit s (s.rest, sig, n)
  nothing-IsRead n s sig e small few = record {
    sig = sig;
    digits = 0;
    same = rw add-zero;
    number = e;
    small = small;
    few = few;
    count = omega arith;
    seen = λ h. inl h;
  }

  -- The digits behind the point. Without a point there are none.
  pub point-IsRead :
      (rest : List ℕ) (w n k : ℕ) (any : Bool) (sig : g.Mpz)
      → value sig ≡ w
      → w < 10 ^ n
      → n ≤ 19
      → (point_loop (scanned rest w n k any)).too_many ≡ false
      → IsRead 0 0 any (point_loop (scanned rest w n k any)) (fraction g rest sig)
  unfolding point_loop fraction
  point-IsRead [] w n k any sig e small few fine =
      nothing-IsRead 0 (scanned [] w n 0 any) sig e small few
  point-IsRead (c ∷ p) w n k any sig e small few fine = elim (Bool-cases (c == b'.')) [
    | inl point ↦ rw point (mantissa_loop-IsRead p w n 0 any sig 0 e small few (rw point at fine))
    | inr other ↦ rw other (nothing-IsRead 0 (scanned (c ∷ p) w n 0 any) sig e small few)
  ]
