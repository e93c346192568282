-- ===== src/Heap/Slots/Make.antt =====
-- New IORefs and arrays, and the compare-and-swap of an IORef, which makes a Just when it fails.
use idris2_rc.Prelude.{
  ℕ, zero, suc, ◌+◌, ◌-◌, ◌^◌, ◌≤◌, ◌<◌, ◌≡◌, ◌≢◌, ◌⊎◌, inl, inr, refl, sym, Bool-cases, ◌∙◌, ap,
  true, false, Option, none, some, List, [], ◌∷◌, ◌++◌, arith, get_elem?, length, replicate, leb,
  ℕ_discrete, eq_of_some, some-lt_length,
}
use idris2_rc.Prelude.Int.{pos, negsuc}
use idris2_rc.Prelude.Run.{ok, abort, bind_after}
use idris2_rc.Heap.{Value, null, ref, Kind, constructor, ioref, array, Obj, Heap, is_leaf}
use idris2_rc.Heap.Count.{refs_in, refs_in-append, weight, total, refs_from_heap, alive_count}
use idris2_rc.Heap.Owned.{Counted, load-here}
use idris2_rc.Heap.Drop.{IsSound, dup-IsSound, dup_there-IsSound}
use idris2_rc.Heap.Keeps.{dup-Keeps}
use idris2_rc.Heap.Slots.{alloc, same_word, swap_slot, new_ioref, ioref_cas, dup_loop, new_array}
use idris2_rc.Heap.Slots.Laws.{refs_in_cons, IsSound-cong, to_front}
use idris2_rc.Heap.Slots.Access.{Holds, slot-IsThere, write_steps, kept-Holds}

module _ {ℓ} {A : Type ℓ} where
  get_elem?-append_last : (xs : List A) (y : A) → get_elem? (xs ++ y ∷ []) (length xs) ≡ some y
  get_elem?-append_last [] y = refl
  get_elem?-append_last (x ∷ xs) y = get_elem?-append_last xs y

  get_elem?-append_ne :
      (xs : List A) (y : A) (i : ℕ) → i ≢ length xs → get_elem? (xs ++ y ∷ []) i ≡ get_elem? xs i
  get_elem?-append_ne [] y zero ne = absurd (ne refl)
  get_elem?-append_ne [] y (suc i) ne = refl
  get_elem?-append_ne (x ∷ xs) y zero ne = refl
  get_elem?-append_ne (x ∷ xs) y (suc i) ne = get_elem?-append_ne xs y i (λ e. ne (ap suc e))

  get_elem?-length : (xs : List A) → get_elem? xs (length xs) ≡ none
  get_elem?-length [] = refl
  get_elem?-length (x ∷ xs) = get_elem?-length xs

total-append_last :
    (w : Option Obj → ℕ) (h : Heap) (c : Option Obj) → total w (h ++ c ∷ []) ≡ total w h + w c
unfolding total
total-append_last w [] c = omega arith
total-append_last w (b ∷ h) c = omega (arith, total-append_last w h c)

-- A new object takes over references of the caller.
module _ (h : Heap) (k : Kind) (vs rs : List Value) (s : IsSound h (vs ++ rs))
    (not_leaf : is_leaf k ≡ false) where
  abbrev made : Obj
  made = record { rc = 1; kind = k; fields = vs }

  abbrev grown : Heap
  grown = h ++ some made ∷ []

  refs_grown :
      (a : ℕ) → refs_in a rs + refs_from_heap a grown ≡ refs_in a (vs ++ rs) + refs_from_heap a h
  refs_grown a = omega (arith, total-append_last (weight a) h (some made), refs_in-append a vs rs)

  grown-Counted :
      (a : ℕ)
      → Counted (get_elem? grown a) (refs_in a (ref (length h) ∷ rs) + refs_from_heap a grown)
  grown-Counted a = elim (ℕ_discrete a (length h)) [
    | yes p ↦
        let none_before : refs_in (length h) (vs ++ rs) + refs_from_heap (length h) h ≡ 0 =
          rw (get_elem?-length h) at (s.owned.counted (length h)) in
        rw (p, get_elem?-append_last h (some made))
          (ground (arith, none_before, refs_grown (length h)))
    | no ne ↦
        let same : refs_in a (ref (length h) ∷ rs) + refs_from_heap a grown
            ≡ refs_in a (vs ++ rs) + refs_from_heap a h =
          ground (arith, refs_grown a) in
        rw (get_elem?-append_ne h (some made) a ne, same) (s.owned.counted a)
  ]

  grown_cell :
      (a : ℕ) (q : Obj)
      → get_elem? grown a ≡ some (some q)
      → (made ≡ q) ⊎ (get_elem? h a ≡ some (some q))
  grown_cell a q e = elim (ℕ_discrete a (length h)) [
    | yes p ↦ inl (eq_of_some (eq_of_some (sym (get_elem?-append_last h (some made)) ∙ rw p at e)))
    | no ne ↦ inr (sym (get_elem?-append_ne h (some made) a ne) ∙ e)
  ]

  alloc-IsSound : IsSound (alloc k vs h).1 (ref (length h) ∷ rs)
  unfolding alloc
  alloc-IsSound = record {
    owned = record {
      counted = grown-Counted;
      shaped = λ a q e leaf. elim (grown_cell a q e) [
        | inl m ↦
            let kinds : q.kind ≡ k = ap (λ (x : Obj). x.kind) (sym m) in
            absurd (let t = rw kinds at leaf in cc)
        | inr f ↦ s.owned.shaped a q f leaf
      ];
    };
    settled = λ a q e z. elim (grown_cell a q e) [
      | inl m ↦ let counts : 1 ≡ q.rc = ap (λ (x : Obj). x.rc) m in omega arith
      | inr f ↦ s.settled a q f z
    ];
  }

dup_loop-IsSound :
    (n : ℕ) (v : Value) (h : Heap) (rs : List Value)
    → IsSound h (v ∷ rs)
    → (h' : Heap) × (dup_loop n v h ≡ ok h') × IsSound h' (replicate n v ++ (v ∷ rs))
unfolding dup_loop
dup_loop-IsSound zero v h rs s = (h, refl, s)
dup_loop-IsSound (suc n) v h rs s =
    let (h1, d1, s1) = dup-IsSound v h rs s in
    let (h2, d2, s2) = dup_loop-IsSound n v h1 (v ∷ rs) s1 in
    (
      h2,
      rw (d1, d2),
      IsSound-cong h2 (replicate n v ++ v ∷ v ∷ rs) (replicate (suc n) v ++ v ∷ rs)
          (λ a. omega (
            arith,
            refs_in-append a (replicate n v) (v ∷ v ∷ rs),
            refs_in-append a (replicate n v) (v ∷ rs),
            refs_in_cons a v (v ∷ rs),
            refs_in_cons a v (replicate n v ++ v ∷ rs),
          ))
          s2,
    )

-- The new object is where its reference leads, and the objects from before stand where they stood.
alloc-Holds :
    (h : Heap) (k : Kind) (vs : List Value) (i : ℕ) (v : Value)
    → get_elem? vs i ≡ some v
    → Holds (alloc k vs h).1 (length h) i v
unfolding alloc
alloc-Holds h k vs i v e = (record { rc = 1; kind = k; fields = vs }, get_elem?-append_last h _, e)

alloc-Keeps :
    (h : Heap) (k : Kind) (vs : List Value) (a i : ℕ) (v : Value)
    → Holds h a i v
    → Holds (alloc k vs h).1 a i v
unfolding alloc
alloc-Keeps h k vs a i v (o, e, f) =
    (o, get_elem?-append_ne h _ a (λ p. let lt = some-lt_length h a e in omega arith) ∙ e, f)

-- A new IORef holds the value that it was made with.
pub new_ioref-Holds :
    (v : Value) (h : Heap) (rs : List Value)
    → IsSound h (v ∷ rs)
    → (b : ℕ) × (h' : Heap) × (new_ioref v h ≡ ok (ref b, h'))
      × IsSound h' (ref b ∷ v ∷ rs)
      × Holds h' b 0 v
unfolding new_ioref alloc
new_ioref-Holds v h rs s =
    let (h1, d, s1) = dup-IsSound v h rs s in
    (
      length h1,
      (alloc ioref (v ∷ []) h1).1,
      rw d,
      alloc-IsSound h1 ioref (v ∷ []) (v ∷ rs) s1 (unfold is_leaf in refl),
      alloc-Holds h1 ioref (v ∷ []) 0 v refl,
    )

-- A new array of a length that a C `int` can hold has that many slots, each of them holds the value,
-- and all counts are right, for any length. The program ends for a length that is longer or negative.
pub new_array-IsSound :
    (n : ℕ) (v : Value) (h : Heap) (rs : List Value)
    → IsSound h (v ∷ rs)
    → ((n < 2 ^ 31)
          × ((b : ℕ) × (h' : Heap) × (o : Obj) × (new_array (pos n) v h ≡ ok (ref b, h'))
              × IsSound h' (ref b ∷ v ∷ rs)
              × (get_elem? h' b ≡ some (some o))
              × (o.fields ≡ replicate n v))
        ⊎ (2 ^ 31 ≤ n) × (new_array (pos n) v h ≡ abort))
      × (new_array (negsuc n) v h ≡ abort)
unfolding new_array alloc
new_array-IsSound n v h rs s =
    let (h1, d, s1) = dup_loop-IsSound n v h rs s in
    elim (Bool-cases (leb n (2 ^ 31 - 1))) [
      | inl fits ↦ (
        inl (
          ground arith,
          (
            length h1,
            (alloc array (replicate n v) h1).1,
            record { rc = 1; kind = array; fields = replicate n v },
            rw (fits, d),
            alloc-IsSound h1 array (replicate n v) (v ∷ rs) s1 (unfold is_leaf in refl),
            get_elem?-append_last h1 _,
            refl,
          ),
        ),
        refl,
      )
      | inr over ↦ (inr (ground arith, rw over), refl)
    ]

-- The compare-and-swap of an IORef that is held, on both branches. If the IORef holds the expected
-- word, it holds the desired value afterwards and the result is Nothing; else it holds what it held,
-- and the result is a new Just of that. All counts are right, with the caller's own reference to
-- the Just.
pub ioref_cas-Swaps :
    (fuel : ℕ) (h : Heap) (rs : List Value) (a : ℕ) (v expected desired : Value)
    → IsSound h (ref a ∷ desired ∷ rs)
    → Holds h a 0 v
    → alive_count h ≤ fuel
    → (same_word v expected ≡ true)
        × ((h' : Heap) × (ioref_cas fuel (ref a) expected desired h ≡ ok (null, h'))
            × IsSound h' (ref a ∷ desired ∷ rs)
            × Holds h' a 0 desired)
      ⊎ (same_word v expected ≡ false)
        × ((b : ℕ) × (h' : Heap) × (ioref_cas fuel (ref a) expected desired h ≡ ok (ref b, h'))
            × IsSound h' (ref b ∷ ref a ∷ desired ∷ rs)
            × Holds h' b 0 v
            × Holds h' a 0 v)
unfolding ioref_cas alloc
ioref_cas-Swaps fuel h rs a v expected desired s (o, e, f) le =
    elim (Bool-cases (same_word v expected)) [
      | inl same ↦
          let (h1, h', d1, d, s', hold) = write_steps fuel h rs a 0 v desired s (o, e, f) le in
          inl (
            same,
            (
              h',
              rw (load-here h a o e, f, same, d1)
                  (bind_after (swap_slot a 0 desired h1) _
                    (λ h3. let r : Value × Heap = (null, h3) in ok r) d),
              s',
              hold,
            ),
          )
      | inr differ ↦
          let root = slot-IsThere h (ref a ∷ desired ∷ rs) a 0 o v s e f in
          let (h1, d1, s1) = dup_there-IsSound v h (ref a ∷ desired ∷ rs) root s in
          inr (
            differ,
            (
              length h1,
              (alloc constructor (v ∷ []) h1).1,
              rw (load-here h a o e, f, differ, d1),
              alloc-IsSound h1 constructor (v ∷ []) (ref a ∷ desired ∷ rs) s1
                  (unfold is_leaf in refl),
              alloc-Holds h1 constructor (v ∷ []) 0 v refl,
              alloc-Keeps h1 constructor (v ∷ []) a 0 v (
                  kept-Holds h h1 (v ∷ desired ∷ rs) a 0 v (to_front v (ref a) (desired ∷ rs) h1 s1)
                    (dup-Keeps v h h1 d1) (o, e, f)),
            ),
          )
    ]
