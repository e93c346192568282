-- ===== src/Heap/Count.antt =====
-- Sums over the cells of a heap, and how a write changes them.
use idris2_rc.Prelude.{
  ℕ, zero, suc, ◌+◌, ◌≤◌, ◌≡◌, Option, none, some, List, [], ◌∷◌, ◌++◌, arith, ◌==◌, if◌then◌else◌,
  get_elem?, set,
}
use idris2_rc.Heap.{Value, null, imm, ref, Obj, Heap}

unfoldable pub total : (Option Obj → ℕ) → Heap → ℕ
total w [] = 0
total w (c ∷ h) = w c + total w h

pub total-set :
    (w : Option Obj → ℕ) (h : Heap) (i : ℕ) (c d : Option Obj)
    → get_elem? h i ≡ some c
    → total w (set h i d) + w c ≡ total w h + w d
unfolding total
total-set w [] i c d e = ground arith
total-set w (b ∷ h) zero c d e = ground arith
total-set w (b ∷ h) (suc i) c d e = omega (arith, total-set w h i c d e)

pub weight-le-total :
    (w : Option Obj → ℕ) (h : Heap) (i : ℕ) (c : Option Obj)
    → get_elem? h i ≡ some c
    → w c ≤ total w h
unfolding total
weight-le-total w [] i c e = ground arith
weight-le-total w (b ∷ h) zero c e = ground arith
weight-le-total w (b ∷ h) (suc i) c e = omega (arith, weight-le-total w h i c e)

-- How often a list of values holds a reference to an address.
abbrev pub refs_in : ℕ → List Value → ℕ
refs_in a [] = 0
refs_in a (null ∷ vs) = refs_in a vs
refs_in a (imm n ∷ vs) = refs_in a vs
refs_in a (ref b ∷ vs) = (if a == b then 1 else 0) + refs_in a vs

pub refs_in-append :
    (a : ℕ) (vs ws : List Value) → refs_in a (vs ++ ws) ≡ refs_in a vs + refs_in a ws
refs_in-append a [] ws = omega arith
refs_in-append a (null ∷ vs) ws = refs_in-append a vs ws
refs_in-append a (imm n ∷ vs) ws = refs_in-append a vs ws
refs_in-append a (ref b ∷ vs) ws = omega (arith, refs_in-append a vs ws)

-- The references from an object that is alive: one whose count has dropped to 0 is being torn
-- down, and its values belong to the code that does so.
abbrev pub weight : ℕ → Option Obj → ℕ
weight a none = 0
weight a (some o) = if o.rc == 0 then 0 else refs_in a o.fields

abbrev pub refs_from_heap : ℕ → Heap → ℕ
refs_from_heap a h = total (weight a) h

abbrev pub alive : Option Obj → ℕ
alive none = 0
alive (some o) = if o.rc == 0 then 0 else 1

abbrev pub alive_count : Heap → ℕ
alive_count h = total alive h
