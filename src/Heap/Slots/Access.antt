-- ===== src/Heap/Slots/Access.antt =====
-- Reads and writes of a slot.
use idris2_rc.Prelude.{
  ℕ, ◌≤◌, ◌<◌, ◌≡◌, refl, sym, ◌∙◌, ap, Option, none, some, List, ◌∷◌, arith, get_elem?,
  get_elem?-set_self, some-lt_length, eq_of_some,
}
use idris2_rc.Prelude.Run.{ok, ◌>>=◌}
use idris2_rc.Heap.{Value, null, imm, ref, Obj, Heap, store, drop, dup}
use idris2_rc.Heap.Count.{weight, weight-le-total, refs_from_heap, alive_count}
use idris2_rc.Heap.Owned.{root-alive, load-here, store-here}
use idris2_rc.Heap.Drop.{IsSound, IsThere, drop-IsSound, root-IsThere, dup_there-IsSound, dup-alive}
use idris2_rc.Heap.Keeps.{Keeps, drop-Keeps, dup-Keeps}
use idris2_rc.Heap.Slots.{read_slot, swap_slot, write_slot, array_get, array_set}
use idris2_rc.Prelude.Int.{pos}
use idris2_rc.Heap.Slots.Laws.{refs_in-get, to_front, swapped, swap-IsSound, swap-alive}

-- What a slot of a living object refers to has not been freed.
pub slot-IsThere :
    (h : Heap) (rs : List Value) (a i : ℕ) (o : Obj) (v : Value)
    → IsSound h rs
    → get_elem? h a ≡ some (some o)
    → get_elem? o.fields i ≡ some v
    → IsThere h v
slot-IsThere h rs a i o null s e f = tt
slot-IsThere h rs a i o (imm n) s e f = tt
slot-IsThere h rs a i o (ref b) s e f = go (get_elem? h b) refl
  where
    some_refs : 0 < refs_from_heap b h
    some_refs = ground (
      arith,
      s.settled a o e,
      refs_in-get b o.fields i f,
      weight-le-total (weight b) h a (some o) e,
    )

    go : (c : Option (Option Obj)) → get_elem? h b ≡ c → (q : Obj) × (get_elem? h b ≡ some (some q))
    go none g = absurd (ground (arith, rw g at (s.owned.counted b), some_refs))
    go (some none) g = absurd (ground (arith, rw g at (s.owned.counted b), some_refs))
    go (some (some q)) g = (q, g)

-- The slot `i` of the object at `a` holds `v`.
abbrev pub Holds : Heap → ℕ → ℕ → Value → Type 0
Holds h a i v = (o : Obj) × (get_elem? h a ≡ some (some o)) × (get_elem? o.fields i ≡ some v)

-- Reading a slot gives what it holds, as a reference of the caller's own.
pub read_slot-IsSound :
    (h : Heap) (rs : List Value) (a i : ℕ) (v : Value)
    → IsSound h rs
    → Holds h a i v
    → (h' : Heap) × (read_slot (ref a) i h ≡ ok (v, h')) × IsSound h' (v ∷ rs)
unfolding read_slot
read_slot-IsSound h rs a i v s (o, e, f) =
    let (h', d, s') = dup_there-IsSound v h rs (slot-IsThere h rs a i o v s e f) s in
    (h', rw (load-here h a o e, f, d), s')

-- An object that is referred to keeps its slots over a step that keeps what is left.
pub kept-Holds :
    (h h' : Heap) (rs : List Value) (a i : ℕ) (v : Value)
    → IsSound h' (ref a ∷ rs)
    → Keeps h h'
    → Holds h a i v
    → Holds h' a i v
kept-Holds h h' rs a i v s k (o, e, f) =
    let (q, eq, live) = root-alive h' a rs s.owned in
    let (p, ep, same) = k.kept a q eq in
    let equal : o.fields ≡ p.fields =
      ap (λ (x : Obj). x.fields) (eq_of_some (eq_of_some (sym e ∙ ep))) in
    (q, eq, rw (← same, ← equal) f)

-- The value that is written, once the slot's own reference to it is there, takes the place of the
-- old one, and the old one is dropped.
pub replace_slot :
    (fuel : ℕ) (h : Heap) (rs : List Value) (a i : ℕ) (old new : Value)
    → IsSound h (new ∷ ref a ∷ rs)
    → Holds h a i old
    → alive_count h ≤ fuel
    → (h' : Heap) × ((swap_slot a i new h >>= λ r. drop fuel r.0 r.1) ≡ ok h')
      × IsSound h' (ref a ∷ rs)
      × Holds h' a i new
unfolding swap_slot
replace_slot fuel h rs a i old new s (o, e, f) le =
    let g = store a (swapped h a i o old new (ref a ∷ rs) e f) h in
    let sound = swap-IsSound h a i o old new (ref a ∷ rs) e f s in
    let (h', d, s') =
      drop-IsSound fuel old g (ref a ∷ rs) sound
        (omega (arith, swap-alive h a i o old new (ref a ∷ rs) e f s)) in
    (
      h',
      rw (load-here h a o e, f, d),
      s',
      kept-Holds g h' rs a i new s' (drop-Keeps fuel old g h' d) (
        swapped h a i o old new (ref a ∷ rs) e f,
        store-here h a o (swapped h a i o old new (ref a ∷ rs) e f) e,
        get_elem?-set_self o.fields i new (some-lt_length o.fields i f),
      ),
    )

-- The two parts of a write: the duplication, and the exchange with the drop of the old value.
pub write_steps :
    (fuel : ℕ) (h : Heap) (rs : List Value) (a i : ℕ) (old new : Value)
    → IsSound h (ref a ∷ new ∷ rs)
    → Holds h a i old
    → alive_count h ≤ fuel
    → (h1 : Heap) × (h' : Heap) × (dup new h ≡ ok h1)
      × ((swap_slot a i new h1 >>= λ r. drop fuel r.0 r.1) ≡ ok h')
      × IsSound h' (ref a ∷ new ∷ rs)
      × Holds h' a i new
write_steps fuel h rs a i old new s there le =
    let root = root-IsThere new h (ref a ∷ rs) (to_front (ref a) new rs h s).owned in
    let (h1, d1, s1) = dup_there-IsSound new h (ref a ∷ new ∷ rs) root s in
    let held = to_front new (ref a) (new ∷ rs) h1 s1 in
    let there' = kept-Holds h h1 (new ∷ new ∷ rs) a i old held (dup-Keeps new h h1 d1) there in
    let (h', d, s', hold) =
      replace_slot fuel h1 (new ∷ rs) a i old new s1 there'
        (omega (arith, dup-alive new h h1 _ s root d1)) in
    (h1, h', d1, d, s', hold)

-- Writing a slot of an object that is held, with a value that is held: the write returns, reads no
-- freed memory and frees nothing twice; all counts are right afterwards, the caller's references
-- are as before, and the slot holds the new value.
pub write_slot-Holds :
    (fuel : ℕ) (h : Heap) (rs : List Value) (a i : ℕ) (old new : Value)
    → IsSound h (ref a ∷ new ∷ rs)
    → Holds h a i old
    → alive_count h ≤ fuel
    → (h' : Heap) × (write_slot fuel (ref a) i new h ≡ ok h')
      × IsSound h' (ref a ∷ new ∷ rs)
      × Holds h' a i new
unfolding write_slot
write_slot-Holds fuel h rs a i old new s there le =
    let (h1, h', d1, d, s', hold) = write_steps fuel h rs a i old new s there le in
    (h', rw (d1, d), s', hold)

-- An array that is held: after a write of a slot, a read of the slot gives the value written, all
-- counts are right, and the caller has its references and the one that the read gave.
pub array_set-get :
    (fuel : ℕ) (h : Heap) (rs : List Value) (a i : ℕ) (old new : Value)
    → IsSound h (ref a ∷ new ∷ rs)
    → Holds h a i old
    → alive_count h ≤ fuel
    → (h1 : Heap) × (h2 : Heap) × (array_set fuel (ref a) (pos i) new h ≡ ok h1)
      × (array_get (ref a) (pos i) h1 ≡ ok (new, h2))
      × IsSound h2 (new ∷ ref a ∷ new ∷ rs)
unfolding array_set array_get
array_set-get fuel h rs a i old new s there le =
    let (h1, d1, s1, hold) = write_slot-Holds fuel h rs a i old new s there le in
    let (h2, d2, s2) = read_slot-IsSound h1 (ref a ∷ new ∷ rs) a i new s1 hold in
    (h1, h2, d1, d2, s2)
