-- ===== src/Heap/Examples.antt =====
-- Runs of the heap operations, and their theorems at a small heap.
use idris2_rc.Prelude.{
  ℕ, zero, suc, ◌+◌, ◌≡◌, ◌≢◌, inr, refl, none, some, List, [], ◌∷◌, arith, get_elem?,
}
use idris2_rc.Prelude.Run.{ok}
use idris2_rc.RefCount.{rc_release, rc_dup_n}
use idris2_rc.RefCount.Batch.{dup_times, rc_dup_n-dup_times}
use idris2_rc.Heap.{
  Value, null, imm, ref, constructor, string, Obj, Heap, is_leaf, load, store, free_cell,
  has_children, release_last, args_loop, children, teardown, drop,
}
use idris2_rc.Heap.Count.{refs_in, refs_from_heap, total}
use idris2_rc.Heap.Owned.{IsShaped, Counted}
use idris2_rc.Heap.Drop.{IsSound, drop-IsSound}

abbrev obj : ℕ → List Value → Obj
obj n vs = record { rc = n; kind = constructor; fields = vs }

-- A pair of a pair and a string that is also held elsewhere.
abbrev pairs : Heap
pairs =
    some (obj 1 (ref 1 ∷ imm 3 ∷ ref 2 ∷ []))
    ∷ some (obj 1 (null ∷ []))
    ∷ some (record { rc = 2; kind = string; fields = [] })
    ∷ []

abbrev held : List Value
held = ref 2 ∷ []

drop_pair :
    drop 3 (ref 0) pairs
    ≡ ok (none ∷ none ∷ some (record { rc = 1; kind = string; fields = [] }) ∷ [])
unfolding drop release_last load rc_release teardown store children args_loop has_children free_cell
drop_pair = refl

pairs-Counted :
    (a : ℕ) → Counted (get_elem? pairs a) (refs_in a (ref 0 ∷ held) + refs_from_heap a pairs)
unfolding total
pairs-Counted zero = inr (refl, omega arith)
pairs-Counted (suc zero) = inr (refl, omega arith)
pairs-Counted (suc (suc zero)) = inr (refl, omega arith)
pairs-Counted (suc (suc (suc a))) = ground arith

pairs-IsShaped : (a : ℕ) (o : Obj) → get_elem? pairs a ≡ some (some o) → IsShaped o
unfolding is_leaf
pairs-IsShaped zero o e leaf = ground arith
pairs-IsShaped (suc zero) o e leaf = ground arith
pairs-IsShaped (suc (suc zero)) o e leaf = ground arith
pairs-IsShaped (suc (suc (suc a))) o e leaf = ground arith

pairs_settled : (a : ℕ) (o : Obj) → get_elem? pairs a ≡ some (some o) → o.rc ≢ 0
pairs_settled zero o e z = ground arith
pairs_settled (suc zero) o e z = ground arith
pairs_settled (suc (suc zero)) o e z = ground arith
pairs_settled (suc (suc (suc a))) o e z = ground arith

pairs-IsSound : IsSound pairs (ref 0 ∷ held)
pairs-IsSound = record {
  owned = record { counted = pairs-Counted; shaped = pairs-IsShaped };
  settled = pairs_settled;
}

drop-IsSound_example : (h' : Heap) × (drop 3 (ref 0) pairs ≡ ok h') × IsSound h' held
drop-IsSound_example = drop-IsSound 3 (ref 0) pairs held pairs-IsSound (unfold total in omega arith)

rc_dup_n-dup_times_example : rc_dup_n 65530 9 ≡ dup_times 9 65530
rc_dup_n-dup_times_example = rc_dup_n-dup_times 65530 9 (omega arith)
