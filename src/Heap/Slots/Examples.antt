-- ===== src/Heap/Slots/Examples.antt =====
-- Runs on an array and an IORef that share a string, and the theorems there.
use idris2_rc.Prelude.{
  ℕ, zero, suc, ◌+◌, ◌^◌, ◌≤◌, ◌<◌, ◌≡◌, ◌≢◌, ◌⊎◌, inr, refl, true, false, none, some, List, [],
  ◌∷◌, arith, get_elem?, replicate,
}
use idris2_rc.Prelude.Int.{pos, negsuc}
use idris2_rc.Prelude.Run.{ok, abort}
use idris2_rc.RefCount.{rc_release, rc_dup}
use idris2_rc.Heap.{
  Value, null, imm, ref, array, ioref, string, Obj, Heap, is_leaf, load, store, free_cell,
  release_last, children, teardown, drop, dup,
}
use idris2_rc.Heap.Count.{refs_in, refs_from_heap, total}
use idris2_rc.Heap.Owned.{IsShaped, Counted}
use idris2_rc.Heap.Drop.{IsSound}
use idris2_rc.Heap.Slots.{
  same_word, swap_slot, write_slot, array_set, array_get, ioref_cas, new_array,
}
use idris2_rc.Heap.Slots.Laws.{IsSound-cong}
use idris2_rc.Heap.Slots.Access.{Holds, array_set-get}
use idris2_rc.Heap.Slots.Make.{new_array-IsSound, ioref_cas-Swaps}

abbrev text : ℕ → Obj
text n = record { rc = n; kind = string; fields = [] }

abbrev shelf : Heap
shelf =
    some (record { rc = 1; kind = array; fields = ref 1 ∷ imm 3 ∷ [] })
    ∷ some (text 1)
    ∷ some (text 2)
    ∷ some (record { rc = 1; kind = ioref; fields = ref 2 ∷ [] })
    ∷ []

abbrev holders : List Value
holders = ref 0 ∷ ref 2 ∷ ref 3 ∷ []

set_frees :
    array_set 4 (ref 0) (pos 0) (ref 2) shelf
    ≡ ok (
        some (record { rc = 1; kind = array; fields = ref 2 ∷ imm 3 ∷ [] })
        ∷ none
        ∷ some (text 3)
        ∷ some (record { rc = 1; kind = ioref; fields = ref 2 ∷ [] })
        ∷ [])
unfolding array_set write_slot swap_slot dup drop release_last load store rc_dup rc_release teardown
    children free_cell
set_frees = refl

shelf-Counted : (a : ℕ) → Counted (get_elem? shelf a) (refs_in a holders + refs_from_heap a shelf)
unfolding total
shelf-Counted zero = inr (refl, omega arith)
shelf-Counted (suc zero) = inr (refl, omega arith)
shelf-Counted (suc (suc zero)) = inr (refl, omega arith)
shelf-Counted (suc (suc (suc zero))) = inr (refl, omega arith)
shelf-Counted (suc (suc (suc (suc a)))) = ground arith

shelf-IsShaped : (a : ℕ) (o : Obj) → get_elem? shelf a ≡ some (some o) → IsShaped o
unfolding is_leaf
shelf-IsShaped zero o e leaf = ground arith
shelf-IsShaped (suc zero) o e leaf = ground arith
shelf-IsShaped (suc (suc zero)) o e leaf = ground arith
shelf-IsShaped (suc (suc (suc zero))) o e leaf = ground arith
shelf-IsShaped (suc (suc (suc (suc a)))) o e leaf = ground arith

shelf_settled : (a : ℕ) (o : Obj) → get_elem? shelf a ≡ some (some o) → o.rc ≢ 0
shelf_settled zero o e z = ground arith
shelf_settled (suc zero) o e z = ground arith
shelf_settled (suc (suc zero)) o e z = ground arith
shelf_settled (suc (suc (suc zero))) o e z = ground arith
shelf_settled (suc (suc (suc (suc a)))) o e z = ground arith

shelf-IsSound : IsSound shelf holders
shelf-IsSound = record {
  owned = record { counted = shelf-Counted; shaped = shelf-IsShaped };
  settled = shelf_settled;
}

array_set-get_example :
    (h1 : Heap) × (h2 : Heap) × (array_set 4 (ref 0) (pos 0) (ref 2) shelf ≡ ok h1)
    × (array_get (ref 0) (pos 0) h1 ≡ ok (ref 2, h2))
    × IsSound h2 (ref 2 ∷ holders)
array_set-get_example =
    array_set-get 4 shelf (ref 3 ∷ []) 0 0 (ref 1) (ref 2) shelf-IsSound
      (record { rc = 1; kind = array; fields = ref 1 ∷ imm 3 ∷ [] }, refl, refl)
      (unfold total in omega arith)

abbrev swappers : List Value
swappers = ref 3 ∷ imm 7 ∷ ref 0 ∷ ref 2 ∷ []

swappers-IsSound : IsSound shelf swappers
swappers-IsSound = IsSound-cong shelf holders swappers (λ a. omega arith) shelf-IsSound

ioref_cas-Swaps_example :
    (same_word (ref 2) (ref 2) ≡ true)
      × ((h' : Heap) × (ioref_cas 4 (ref 3) (ref 2) (imm 7) shelf ≡ ok (null, h'))
          × IsSound h' swappers
          × Holds h' 3 0 (imm 7))
    ⊎ (same_word (ref 2) (ref 2) ≡ false)
      × ((b : ℕ) × (h' : Heap) × (ioref_cas 4 (ref 3) (ref 2) (imm 7) shelf ≡ ok (ref b, h'))
          × IsSound h' (ref b ∷ swappers)
          × Holds h' b 0 (ref 2)
          × Holds h' 3 0 (ref 2))
ioref_cas-Swaps_example =
    ioref_cas-Swaps 4 shelf (ref 0 ∷ ref 2 ∷ []) 3 (ref 2) (ref 2) (imm 7) swappers-IsSound
      (record { rc = 1; kind = ioref; fields = ref 2 ∷ [] }, refl, refl)
      (unfold total in omega arith)

new_array-IsSound_example :
    ((3 < 2 ^ 31)
        × ((b : ℕ) × (h' : Heap) × (o : Obj) × (new_array (pos 3) (ref 0) shelf ≡ ok (ref b, h'))
            × IsSound h' (ref b ∷ holders)
            × (get_elem? h' b ≡ some (some o))
            × (o.fields ≡ replicate 3 (ref 0)))
      ⊎ (2 ^ 31 ≤ 3) × (new_array (pos 3) (ref 0) shelf ≡ abort))
    × (new_array (negsuc 3) (ref 0) shelf ≡ abort)
new_array-IsSound_example = new_array-IsSound 3 (ref 0) shelf (ref 2 ∷ ref 3 ∷ []) shelf-IsSound
