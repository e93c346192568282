-- ===== src/Strings/Compare.antt =====
-- The comparisons of strings of rc2/support/rc2/idris2rc2_numeric.h, byte by byte, against the
-- lexicographic order. Of the result of `memcmp` only the sign is used, as the standard of C gives
-- it; it is 1 or -1 here.
use idris2_rc.Prelude.{
  ℕ, zero, suc, ◌≡◌, ◌↔◌, refl, sym, ap, ◌∙◌, inl, inr, Bool, true, false, List, [], ◌∷◌, ◌++◌, ltb,
  ◌==◌, length, arith, if◌then◌else◌, Bool-cases, ==_iff, get_or, drop, ap₂,
}
use idris2_rc.Prelude.Int.{ℤ, pos, negsuc, ltb_ℤ, leb_ℤ, ◌-ℤ◌}
use idris2_rc.Prelude.Run.{Run, ok, fault, ◌>>=◌}
use idris2_rc.Strings.{Str}
use idris2_rc.Strings.Copy.{of_bytes}

memcmp : (a b : List ℕ) (n : ℕ) → Run ℤ
memcmp a b zero = ok (pos 0)
memcmp [] b (suc n) = fault
memcmp (x ∷ a) [] (suc n) = fault
memcmp (x ∷ a) (y ∷ b) (suc n) =
    let rest = memcmp a b n in
    if ltb x y then ok (negsuc 0) else if ltb y x then ok (pos 1) else rest

abbrev shorter : ℕ → ℕ → ℕ
shorter m n = if ltb m n then m else n

-- `(sa->len > sb->len) - (sa->len < sb->len)`.
by_length : ℕ → ℕ → ℤ
by_length m n = pos (if ltb n m then 1 else 0) -ℤ pos (if ltb m n then 1 else 0)

abbrev is_zero_int : ℤ → Bool
is_zero_int (pos n) = n == 0
is_zero_int (negsuc n) = false

pub strcmp3 : Str → Str → Run ℤ
unfolding by_length
strcmp3 a b =
    let n = shorter a.len b.len in
    let compared = if n == 0 then ok (pos 0) else memcmp a.str b.str n in
    compared >>= λ c. ok (if is_zero_int c then by_length a.len b.len else c)

pub lt_string_raw : Str → Str → Run Bool
lt_string_raw a b = strcmp3 a b >>= λ c. ok (ltb_ℤ c (pos 0))

pub gt_string_raw : Str → Str → Run Bool
gt_string_raw a b = strcmp3 a b >>= λ c. ok (ltb_ℤ (pos 0) c)

pub lte_string_raw : Str → Str → Run Bool
lte_string_raw a b = strcmp3 a b >>= λ c. ok (leb_ℤ c (pos 0))

pub gte_string_raw : Str → Str → Run Bool
gte_string_raw a b = strcmp3 a b >>= λ c. ok (leb_ℤ (pos 0) c)

pub eq_string_raw : Str → Str → Run Bool
eq_string_raw a b =
    let compared = memcmp a.str b.str a.len >>= λ c. ok (is_zero_int c) in
    if a.len == b.len then (if a.len == 0 then ok true else compared) else ok false

-- The lexicographic order: a proper prefix comes first.
unfoldable pub lex : List ℕ → List ℕ → ℤ
lex [] [] = pos 0
lex [] (y ∷ ys) = negsuc 0
lex (x ∷ xs) [] = pos 1
lex (x ∷ xs) (y ∷ ys) =
    let rest = lex xs ys in if ltb x y then negsuc 0 else if ltb y x then pos 1 else rest

length_step :
    (m n : ℕ)
    → (shorter (suc m) (suc n) ≡ suc (shorter m n)) × (by_length (suc m) (suc n) ≡ by_length m n)
unfolding by_length
length_step m n =
    let a : ltb (suc m) (suc n) ≡ ltb m n = ground arith in
    let b : ltb (suc n) (suc m) ≡ ltb n m = ground arith in (ground arith, rw (a, b) refl)

no_bytes :
    (n : ℕ)
    → (shorter 0 (suc n) ≡ 0)
      × (by_length 0 (suc n) ≡ negsuc 0)
      × (shorter (suc n) 0 ≡ 0)
      × (by_length (suc n) 0 ≡ pos 1)
unfolding by_length ◌-ℤ◌
no_bytes n =
    let a : ltb 0 (suc n) ≡ true = ground arith in
    let b : ltb (suc n) 0 ≡ false = ground arith in
    (rw a refl, rw (a, b) refl, rw b refl, rw (a, b) refl)

-- What the comparison of the common part gives, and what is left of it.
memcmp-lex :
    (xs ys zs ws : List ℕ)
    → (c : ℤ) × (memcmp (xs ++ zs) (ys ++ ws) (shorter (length xs) (length ys)) ≡ ok c)
      × (lex xs ys ≡ (if is_zero_int c then by_length (length xs) (length ys) else c))
unfolding memcmp lex
memcmp-lex [] [] zs ws = (pos 0, refl, unfold by_length ◌-ℤ◌ in refl)
memcmp-lex [] (y ∷ ys) zs ws =
    let (n, b, n', b') = no_bytes (length ys) in (pos 0, rw n refl, sym b)
memcmp-lex (x ∷ xs) [] zs ws =
    let (n, b, n', b') = no_bytes (length xs) in (pos 0, rw n' refl, sym b')
memcmp-lex (x ∷ xs) (y ∷ ys) zs ws =
    let (c, e, l) = memcmp-lex xs ys zs ws in
    let (n, b) = length_step (length xs) (length ys) in
    elim (Bool-cases (ltb x y)) [
      | inl less ↦ (negsuc 0, rw (n, less) refl, rw less refl)
      | inr more ↦ elim (Bool-cases (ltb y x)) [
        | inl less ↦ (pos 1, rw (n, more, less) refl, rw (more, less) refl)
        | inr same ↦ (c, rw (n, more, same) e, rw (more, same, b) l)
      ]
    ]

heads : (x y : ℕ) (xs ys : List ℕ) → x ∷ xs ≡ y ∷ ys → ltb x y ≡ true → ⊥
heads x y xs ys e less = let h : x ≡ y = ap (λ l. get_or l 0 0) e in ground arith

same_head : (x y : ℕ) → ltb x y ≡ false → ltb y x ≡ false → x ≡ y
same_head x y a b = ground arith

-- No byte needs to be compared where there is none.
guard_lem : (a b : List ℕ) (n : ℕ) → (if n == 0 then ok (pos 0) else memcmp a b n) ≡ memcmp a b n
unfolding memcmp
guard_lem a b zero = refl
guard_lem a b (suc n) = let some : (suc n == 0) ≡ false = ground arith in rw some refl

guard_eq :
    (a b : List ℕ) (n : ℕ)
    → (if n == 0 then ok true else (memcmp a b n >>= λ c. ok (is_zero_int c)))
      ≡ (memcmp a b n >>= λ c. ok (is_zero_int c))
unfolding memcmp
guard_eq a b zero = refl
guard_eq a b (suc n) = let some : (suc n == 0) ≡ false = ground arith in rw some refl

-- The bytes of two strings of the same length.
memcmp-eq :
    (xs ys zs ws : List ℕ)
    → length xs ≡ length ys
    → (b : Bool) × ((memcmp (xs ++ zs) (ys ++ ws) (length xs) >>= λ c. ok (is_zero_int c)) ≡ ok b)
      × ((b ≡ true) ↔ (xs ≡ ys))
unfolding memcmp
memcmp-eq [] [] zs ws h = (true, refl, (λ e. refl, λ e. refl))
memcmp-eq [] (y ∷ ys) zs ws h = absurd (omega arith)
memcmp-eq (x ∷ xs) [] zs ws h = absurd (omega arith)
memcmp-eq (x ∷ xs) (y ∷ ys) zs ws h =
    let (b, e, same) = memcmp-eq xs ys zs ws (omega arith) in
    elim (Bool-cases (ltb x y)) [
      | inl less ↦ (false, rw less refl, (λ e. absurd (cc), λ e. absurd (heads x y xs ys e less)))
      | inr more ↦ elim (Bool-cases (ltb y x)) [
        | inl less ↦ (
          false,
          rw (more, less) refl,
          (λ e. absurd (cc), λ e. absurd (heads y x ys xs (sym e) less)),
        )
        | inr equal ↦ (
          b,
          rw (more, equal) e,
          (
            λ t. ap₂ (λ (a : ℕ) r. a ∷ r) (same_head x y more equal) (same.0 t),
            λ e. same.1 (ap (drop 1) e),
          ),
        )
      ]
    ]

-- Of two strings, the comparison gives the lexicographic order of their bytes, where a proper prefix
-- comes first, and reads nothing past either of them; the equality test says whether the bytes are
-- the same.
pub strcmp3-lex :
    (xs ys : List ℕ)
    → (strcmp3 (of_bytes xs) (of_bytes ys) ≡ ok (lex xs ys))
      × ((b : Bool) × (eq_string_raw (of_bytes xs) (of_bytes ys) ≡ ok b) × ((b ≡ true) ↔ (xs ≡ ys)))
unfolding strcmp3 eq_string_raw
strcmp3-lex xs ys =
    let (c, e, l) = memcmp-lex xs ys (0 ∷ []) (0 ∷ []) in
    (
      rw (guard_lem (xs ++ (0 ∷ [])) (ys ++ (0 ∷ [])) (shorter (length xs) (length ys)), e)
          (ap ok (sym l)),
      elim (Bool-cases (length xs == length ys)) [
        | inl equal ↦
            let (b, same_bytes, same) =
              memcmp-eq xs ys (0 ∷ []) (0 ∷ []) ((==_iff (length xs) (length ys)).0 equal) in
            (
              b,
              rw equal (guard_eq (xs ++ (0 ∷ [])) (ys ++ (0 ∷ [])) (length xs) ∙ same_bytes),
              same,
            )
        | inr other ↦
            (false, rw other refl, (λ t. absurd (cc), λ t. absurd (ground (arith, ap length t))))
      ],
    )
