-- ===== src/Integer/Owners.antt =====
-- What becomes of the storage of the operands of the slow path.
use idris2_rc.Prelude.{
  ℕ, suc, ◌+◌, ◌^◌, ◌≤◌, ◌≡◌, refl, inl, inr, ◌⊎◌, ◌||◌, not, List, [], ◌∷◌, ◌++◌, leb, ltb, ◌==◌,
  arith, if◌then◌else◌, Bool-cases,
}
use idris2_rc.Prelude.Int.{pos, ltb_ℤ, nat_abs}
use idris2_rc.Integer.Mpz.{Gmp}
use idris2_rc.Integer.{
  Integer, Owner, left, right, fresh, is_unique, normalize, place, binop_slow, integer_view,
}

-- How often a list names a storage.
abbrev pub times : Owner → List Owner → ℕ
times o [] = 0
times left (left ∷ l) = suc (times left l)
times left (right ∷ l) = times left l
times left (fresh ∷ l) = times left l
times right (left ∷ l) = times right l
times right (right ∷ l) = suc (times right l)
times right (fresh ∷ l) = times right l
times fresh (left ∷ l) = times fresh l
times fresh (right ∷ l) = times fresh l
times fresh (fresh ∷ l) = suc (times fresh l)

module _ (g : Gmp) where
  -- The result stays in the box that was put up for it, or the box is dropped.
  normalize_cases :
      (at : Owner) (drops : List Owner) (z : g.Mpz)
      → (((normalize g at drops z).keeps ≡ at ∷ []) × ((normalize g at drops z).drops ≡ drops))
        ⊎ (((normalize g at drops z).keeps ≡ [])
            × ((normalize g at drops z).drops ≡ drops ++ (at ∷ [])))
  unfolding normalize
  normalize_cases at drops z =
      let positive = ltb_ℤ (pos 0) (g.mp_size z) in
      let mag = g.mp_d z in
      elim (Bool-cases (not (ltb_ℤ (g.mp_size z) (pos 0) || positive))) [
        | inl none ↦ rw none (inr (refl, refl))
        | inr some ↦ elim (Bool-cases (not (nat_abs (g.mp_size z) == 1))) [
          | inl many ↦ rw (some, many) (inl (refl, refl))
          | inr one ↦ elim (Bool-cases (if positive then leb (2 ^ 62) mag else ltb (2 ^ 62) mag)) [
            | inl large ↦ rw (some, one, large) (inl (refl, refl))
            | inr small ↦ rw (some, one, small) (inr (refl, refl))
          ]
        ]
      ]

  -- An operation of the slow path accounts for both of its operands: the storage of each is dropped
  -- once or kept once as that of the result, and it is kept only where nothing else refers to it.
  pub binop_slow-owners :
      (fn : g.Mpz → g.Mpz → g.Mpz) (x y : Integer g.Mpz)
      → (times left (binop_slow g fn x y).keeps + times left (binop_slow g fn x y).drops ≡ 1)
        × (times right (binop_slow g fn x y).keeps + times right (binop_slow g fn x y).drops ≡ 1)
        × (times left (binop_slow g fn x y).keeps ≤ (if is_unique x then 1 else 0))
        × (times right (binop_slow g fn x y).keeps ≤ (if is_unique y then 1 else 0))
  unfolding binop_slow place
  binop_slow-owners fn x y =
      let z = fn (integer_view g x) (integer_view g y) in
      elim (Bool-cases (is_unique x)) [
        | inl own ↦ rw own (elim (normalize_cases left (right ∷ []) z) [
          | inl kept ↦ rw (kept.0, kept.1) (omega arith)
          | inr gone ↦ rw (gone.0, gone.1) (omega arith)
        ])
        | inr shared ↦ elim (Bool-cases (is_unique y)) [
          | inl own ↦
              rw (shared, own)
                (elim (normalize_cases right (left ∷ []) z) [
                  | inl kept ↦ rw (kept.0, kept.1) (omega arith)
                  | inr gone ↦ rw (gone.0, gone.1) (omega arith)
                ])
          | inr both ↦
              rw (shared, both)
                (elim (normalize_cases fresh (left ∷ right ∷ []) z) [
                  | inl kept ↦ rw (kept.0, kept.1) (omega arith)
                  | inr gone ↦ rw (gone.0, gone.1) (omega arith)
                ])
        ]
      ]
