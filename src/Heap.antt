-- ===== src/Heap.antt =====
-- rc2/support/rc2/idris2rc2_memory.c and the inline part of idris2rc2_memory.h: heap objects,
-- their reference counts, and the teardown of an object that lost its last reference. One thread;
-- a GC pointer stands here without an `onCollect` closure, which would run arbitrary code.
pub mod Count
pub mod Owned
pub mod Torn
pub mod Teardown
pub mod Drop
pub mod Keeps
pub mod Slots
mod Examples
use idris2_rc.Prelude.{
  ℕ, zero, suc, ◌+◌, Bool, true, false, not, ◌&&◌, Option, none, some, List, [], ◌∷◌, ◌==◌,
  if◌then◌else◌, get_elem?, set,
}
use idris2_rc.Prelude.Run.{Run, ok, abort, fault, out_of_fuel, ◌>>=◌}
use idris2_rc.RefCount.{rc_release, rc_dup, rc_dup_n}

-- An `IDRIS2RC2_Value *`: NULL, an immediate word, or the address of a heap object.
pub data Value : Type 0 where
  null : Value
  imm : ℕ → Value
  ref : ℕ → Value

-- `header.tag`, as far as teardown tells tags apart.
pub data Kind : Type 0 where
  scalar integer string closure constructor ioref lazy array gc_pointer buffer : Kind
  mutex condition semaphore barrier join_handle thread_id channel : Kind

-- The heap values that an object owns: the filled arguments of a closure, the fields of a
-- constructor, the slot of an IORef or a lazy cell, the items of an array, the pointer of a GC
-- pointer, the queued values of a channel.
pub record Obj : Type 0 where
  pub rc : ℕ
  pub kind : Kind
  pub fields : List Value

-- The cell at each address; `none` is memory that has been freed.
abbrev pub Heap : Type 0
Heap = List (Option Obj)

-- Reading the header of freed memory, or past the heap, is undefined.
pub load : ℕ → Heap → Run Obj
load a h = elim (get_elem? h a) [ none ↦ fault | some c ↦ elim c [ none ↦ fault | some o ↦ ok o ] ]

pub store : ℕ → Obj → Heap → Heap
store a o h = set h a (some o)

pub free_cell : ℕ → Heap → Run Heap
free_cell a h = load a h >>= λ o. ok (set h a none)

pub has_children : Kind → Bool
has_children constructor = true
has_children closure = true
has_children lazy = true
has_children k = false

-- The kinds of object that hold no heap value.
pub is_leaf : Kind → Bool
is_leaf closure = false
is_leaf constructor = false
is_leaf lazy = false
is_leaf ioref = false
is_leaf array = false
is_leaf gc_pointer = false
is_leaf channel = false
is_leaf k = true

-- `idris2rc2_releaseLast`.
pub release_last : Value → Heap → Run (Bool × Heap)
release_last null h = ok (false, h)
release_last (imm n) h = ok (false, h)
release_last (ref a) h =
    load a h >>= λ o. let r = rc_release o.rc in ok (r.last, store a (record o { rc = r.rc }) h)

-- The loop over the fields of a closure, a constructor or a lazy cell: the first dying child that
-- can hold values is left for the caller, any other is torn down here.
pub args_loop : (ℕ → Heap → Run Heap) → List Value → Option ℕ → Heap → Run (Option ℕ × Heap)
args_loop td [] next h = ok (next, h)
args_loop td (null ∷ vs) next h = args_loop td vs next h
args_loop td (imm n ∷ vs) next h = args_loop td vs next h
args_loop td (ref a ∷ vs) next h = release_last (ref a) h >>= λ r.
    let deferred = args_loop td vs (some a) r.1 in
    let recursed = (td a r.1 >>= λ h2. args_loop td vs next h2) in
    let dying : Run (Option ℕ × Heap) = elim next [
      | none ↦ load a r.1 >>= λ o. if has_children o.kind then deferred else recursed
      | some b ↦ recursed
    ] in
    let skip = args_loop td vs next r.1 in if r.0 then dying else skip

-- `idris2rc2_drop` of each value in turn.
pub drop_each : (ℕ → Heap → Run Heap) → List Value → Heap → Run Heap
drop_each td [] h = ok h
drop_each td (null ∷ vs) h = drop_each td vs h
drop_each td (imm n ∷ vs) h = drop_each td vs h
drop_each td (ref a ∷ vs) h = release_last (ref a) h >>= λ r.
    let dying = (td a r.1 >>= λ h2. drop_each td vs h2) in
    let skip = drop_each td vs r.1 in if r.0 then dying else skip

-- The `switch` of `idris2rc2_teardown`. The cases that only give back memory or a system object
-- of their own touch no other heap value.
pub children : (ℕ → Heap → Run Heap) → Kind → List Value → Heap → Run (Option ℕ × Heap)
children td closure vs h = args_loop td vs none h
children td constructor vs h = args_loop td vs none h
children td lazy vs h = args_loop td vs none h
children td ioref vs h = drop_each td vs h >>= λ h1. ok (none, h1)
children td array vs h = drop_each td vs h >>= λ h1. ok (none, h1)
children td gc_pointer vs h = drop_each td vs h >>= λ h1. ok (none, h1)
children td channel vs h = drop_each td vs h >>= λ h1. ok (none, h1)
children td k vs h = ok (none, h)

-- One round of `again:`; the `goto` is the last call.
pub teardown : ℕ → ℕ → Heap → Run Heap
teardown zero a h = out_of_fuel
teardown (suc fuel) a h = load a h >>= λ o. children (teardown fuel) o.kind o.fields h >>= λ r.
    free_cell a r.1 >>= λ h2. elim r.0 [ none ↦ ok h2 | some b ↦ teardown fuel b h2 ]

pub drop : ℕ → Value → Heap → Run Heap
drop fuel null h = ok h
drop fuel (imm n) h = ok h
drop fuel (ref a) h =
    release_last (ref a) h >>= λ r. let dying = teardown fuel a r.1 in if r.0 then dying else ok r.1

pub dup : Value → Heap → Run Heap
dup null h = ok h
dup (imm n) h = ok h
dup (ref a) h = load a h >>= λ o. ok (store a (record o { rc = rc_dup o.rc }) h)

-- `idris2rc2_free`: no decrement, the count must be 1.
pub free : ℕ → Value → Heap → Run Heap
free fuel null h = ok h
free fuel (imm n) h = ok h
free fuel (ref a) h =
    load a h >>= λ o. let rest = teardown fuel a h in if o.rc == 1 then rest else abort

-- `idris2rc2_dup_n`.
pub dup_n : Value → ℕ → Heap → Run Heap
dup_n null n h = ok h
dup_n (imm i) n h = ok h
dup_n (ref a) n h = load a h >>= λ o. ok (store a (record o { rc = rc_dup_n o.rc n }) h)
