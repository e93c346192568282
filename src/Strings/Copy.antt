-- ===== src/Strings/Copy.antt =====
-- The strings that the runtime builds, and `memcpy` into them.
use idris2_rc.Prelude.{
  ℕ, zero, suc, ◌+◌, ◌-◌, ◌^◌, ◌%◌, ◌≤◌, ◌<◌, ◌≡◌, refl, sym, ap, zero-add, suc-add, add_assoc,
  drop-drop, ◌∙◌, true, false, ◌==◌, List, [], ◌∷◌, ◌++◌, arith, leb, ◌&&◌, take, drop, length,
  replicate, length-append, length-take, length-drop, length-replicate, take-length_append,
  drop-length_append,
}
use mathlib.Core.List.{append_assoc}
use idris2_rc.Prelude.Run.{ok, abort, ◌>>=◌}
use idris2_rc.Strings.{Str, memcpy, checked_str_len, mk_empty_string, mk_string_len}

-- The string with these content bytes.
abbrev pub of_bytes : List ℕ → Str
of_bytes bs = record { len = length bs; str = bs ++ 0 ∷ [] }

module _ {ℓ} {A : Type ℓ} where
  pub take-append_le : (n : ℕ) (xs ys : List A) → n ≤ length xs → take n (xs ++ ys) ≡ take n xs
  take-append_le zero xs ys h = refl
  take-append_le (suc n) [] ys h = absurd (omega arith)
  take-append_le (suc n) (x ∷ xs) ys h = ap (λ t. x ∷ t) (take-append_le n xs ys (omega arith))

  pub drop-append_le :
      (n : ℕ) (xs ys : List A) → n ≤ length xs → drop n (xs ++ ys) ≡ drop n xs ++ ys
  drop-append_le zero xs ys h = refl
  drop-append_le (suc n) [] ys h = absurd (omega arith)
  drop-append_le (suc n) (x ∷ xs) ys h = drop-append_le n xs ys (omega arith)

  pub drop-replicate : (n k : ℕ) (a : A) → drop n (replicate (n + k) a) ≡ replicate k a
  drop-replicate zero k a = rw zero-add
  drop-replicate (suc n) k a = rw suc-add (drop-replicate n k a)

-- A fresh string holds zeros, or is the shared empty string.
pub mk_empty_string-ok :
    (n : ℕ)
    → n < 2 ^ 32
    → mk_empty_string (n + 1) ≡ ok (record { len = n; str = replicate (n + 1) 0 })
unfolding mk_empty_string checked_str_len
mk_empty_string-ok zero h = refl
mk_empty_string-ok (suc n) h =
    let len : (suc n + 1 + 2 ^ 64 - 1) % 2 ^ 64 ≡ suc n = omega arith in rw len (ground arith)

pub mk_empty_string-abort : (n : ℕ) → 2 ^ 32 ≤ n → n < 2 ^ 64 → mk_empty_string (n + 1) ≡ abort
unfolding mk_empty_string checked_str_len
mk_empty_string-abort n h h' =
    let len : (n + 1 + 2 ^ 64 - 1) % 2 ^ 64 ≡ n = omega arith in rw len (ground arith)

-- Writing behind what has been written moves the boundary to the zeros.
pub memcpy-append :
    (front src : List ℕ) (n k : ℕ)
    → n ≤ length src
    → memcpy (front ++ replicate (n + k) 0) (length front) src n
      ≡ ok ((front ++ take n src) ++ replicate k 0)
unfolding memcpy
memcpy-append front src n k h =
    rw (fits, take-length_append, behind)
      (ap ok (sym (append_assoc front (take n src) (replicate k 0))))
  where
    fits :
        (leb (length front + n) (length (front ++ replicate (n + k) 0)) && leb n (length src))
        ≡ true
    fits = ground (
      arith,
      length-append front (replicate {A = ℕ} (n + k) 0),
      length-replicate {A = ℕ} (n + k) 0,
    )

    behind : drop (length front + n) (front ++ replicate (n + k) 0) ≡ replicate k 0
    behind = rw (← drop-drop, drop-length_append) (drop-replicate n k 0)

-- A fresh string filled with `n` bytes from `src`.
pub fresh_copy :
    (src : List ℕ) (n : ℕ)
    → n ≤ length src
    → n < 2 ^ 32
    → (mk_empty_string (n + 1) >>= λ r.
        memcpy r.str 0 src n >>= λ copied. ok (record r { str = copied }))
      ≡ ok (of_bytes (take n src))
fresh_copy src n h small =
    let len : n ≡ length (take n src) = omega (arith, length-take n src) in
    rw (mk_empty_string-ok n small, memcpy-append [] src n 1 h)
      (ap (λ l. ok (record { len = l; str = take n src ++ 0 ∷ [] })) len)

-- The same from inside the content of a string.
pub fresh_slice :
    (bs : List ℕ) (offset n : ℕ)
    → offset + n ≤ length bs
    → n < 2 ^ 32
    → (mk_empty_string (n + 1) >>= λ r.
        memcpy r.str 0 (drop offset (bs ++ 0 ∷ [])) n >>= λ copied. ok (record r { str = copied }))
      ≡ ok (of_bytes (take n (drop offset bs)))
fresh_slice bs offset n h small = rw (drop-append_le offset bs (0 ∷ []) (omega arith)) (
    fresh_copy (drop offset bs ++ 0 ∷ []) n
      (omega (arith, length-append (drop offset bs) (0 ∷ []), length-drop offset bs)) small
    ∙ rw (take-append_le n (drop offset bs) (0 ∷ []) (omega (arith, length-drop offset bs))))

-- Two pieces behind one another.
pub two_copies :
    (xs ys over over' : List ℕ)
    → length xs + length ys < 2 ^ 32
    → (mk_empty_string (length xs + length ys + 1) >>= λ r.
        memcpy r.str 0 (xs ++ over) (length xs) >>= λ front.
        memcpy front (length xs) (ys ++ over') (length ys) >>= λ copied.
        ok (record r { str = copied }))
      ≡ ok (of_bytes (xs ++ ys))
two_copies xs ys over over' small =
    rw
      (
        mk_empty_string-ok (length xs + length ys) small,
        add_assoc (length xs) (length ys) 1,
        memcpy-append [] (xs ++ over) (length xs) (length ys + 1)
            (omega (arith, length-append xs over)),
        take-length_append xs over,
        memcpy-append xs (ys ++ over') (length ys) 1 (omega (arith, length-append ys over')),
        take-length_append ys over',
      )
      (ap (λ l. ok (record { len = l; str = (xs ++ ys) ++ 0 ∷ [] })) (sym (length-append xs ys)))

-- `mkStringLen` copies.
pub mk_string_len-take :
    (s : List ℕ) (n : ℕ) → n ≤ length s → n < 2 ^ 32 → mk_string_len s n ≡ ok (of_bytes (take n s))
unfolding mk_string_len checked_str_len
mk_string_len-take s zero h small = refl
mk_string_len-take s (suc n) h small =
    let fits : leb (suc n) 4294967295 ≡ true = ground arith in
    let len : suc n ≡ length (take (suc n) s) = omega (arith, length-take (suc n) s) in
    let some_bytes : (suc n == 0) ≡ false = ground arith in
    rw (some_bytes, fits, memcpy-append [] s (suc n) 1 h)
      (ap (λ l. ok (record { len = l; str = take (suc n) s ++ 0 ∷ [] })) len)
