-- ===== src/Heap/Slots.antt =====
-- The IORefs and arrays of rc2/support/rc2/idris2rc2_ioprims.c on the heap: both are objects with
-- slots, an IORef with one. Each operation holds the object's spin lock around its reads and writes
-- of the slot, so operations follow one another; what `idris2rc2_drop` tears down, it does after.
-- An index stands for the value that `idris2rc2_extractInt` gives. A new object takes an address that
-- no other had.
pub mod Laws
pub mod Access
pub mod Make
mod Examples
use idris2_rc.Prelude.{
  ℕ, zero, suc, ◌-◌, ◌^◌, Bool, true, false, List, [], ◌∷◌, ◌++◌, leb, ◌==◌, if◌then◌else◌, length,
  get_elem?, set, replicate,
}
use idris2_rc.Prelude.Int.{ℤ, pos, negsuc}
use idris2_rc.Prelude.Run.{Run, ok, abort, fault, ◌>>=◌, reading}
use idris2_rc.Heap.{
  Value, null, imm, ref, Kind, ioref, array, constructor, Obj, Heap, load, store, drop, dup,
}
use mathlib.Core.Option.{Option, none, some}

-- `idris2rc2_alloc`, with the tag and the values that its caller fills in.
pub alloc : Kind → List Value → Heap → Value × Heap
alloc k vs h = (ref (length h), h ++ some (record { rc = 1; kind = k; fields = vs }) ∷ [])

-- The comparison of two words.
pub same_word : Value → Value → Bool
same_word null null = true
same_word (imm m) (imm n) = m == n
same_word (ref a) (ref b) = a == b
same_word v w = false

pub read_slot : Value → ℕ → Heap → Run (Value × Heap)
read_slot null i h = fault
read_slot (imm n) i h = fault
read_slot (ref a) i h = do
  o ← load a h
  v ← reading (get_elem? o.fields i)
  h1 ← dup v h
  ok (v, h1)

-- The new value takes the place of the old one, which is returned.
pub swap_slot : ℕ → ℕ → Value → Heap → Run (Value × Heap)
swap_slot a i new h = do
  o ← load a h
  old ← reading (get_elem? o.fields i)
  ok (old, store a (record o { fields = set o.fields i new }) h)

pub write_slot : (fuel : ℕ) → Value → ℕ → Value → Heap → Run Heap
write_slot fuel null i new h = fault
write_slot fuel (imm n) i new h = fault
write_slot fuel (ref a) i new h = do
  h1 ← dup new h
  (old, h2) ← swap_slot a i new h1
  drop fuel old h2

pub new_ioref : Value → Heap → Run (Value × Heap)
new_ioref v h = do h1 ← dup v h; ok (alloc ioref (v ∷ []) h1)

pub read_ioref : Value → Heap → Run (Value × Heap)
read_ioref r h = read_slot r 0 h

pub write_ioref : (fuel : ℕ) → Value → Value → Heap → Run Heap
write_ioref fuel r new h = write_slot fuel r 0 new h

-- `idris2rc2_ioref_cas`: `null` is Nothing, and a failed comparison gives Just of what is there.
pub ioref_cas : (fuel : ℕ) → Value → (expected desired : Value) → Heap → Run (Value × Heap)
ioref_cas fuel null expected desired h = fault
ioref_cas fuel (imm n) expected desired h = fault
ioref_cas fuel (ref a) expected desired h = do
  o ← load a h
  v ← reading (get_elem? o.fields 0)
  let swapped : Run (Value × Heap) = (do
    h1 ← dup desired h
    (old, h2) ← swap_slot a 0 desired h1
    h3 ← drop fuel old h2
    ok (null, h3))
  let witness : Run (Value × Heap) = (do h1 ← dup v h; ok (alloc constructor (v ∷ []) h1))
  if same_word v expected then swapped else witness

-- The loop that fills a new array.
pub dup_loop : ℕ → Value → Heap → Run Heap
dup_loop zero v h = ok h
dup_loop (suc n) v h = do h1 ← dup v h; dup_loop n v h1

pub new_array : (asked : ℤ) → Value → Heap → Run (Value × Heap)
new_array (negsuc n) v h = abort
new_array (pos n) v h =
    let filled : Run (Value × Heap) = (do
      h1 ← dup_loop n v h
      ok (alloc array (replicate n v) h1)) in
    if leb n (2 ^ 31 - 1) then filled else abort

pub array_get : Value → (index : ℤ) → Heap → Run (Value × Heap)
array_get a (pos i) h = read_slot a i h
array_get a (negsuc i) h = fault

pub array_set : (fuel : ℕ) → Value → (index : ℤ) → Value → Heap → Run Heap
array_set fuel a (pos i) v h = write_slot fuel a i v h
array_set fuel a (negsuc i) v h = fault
