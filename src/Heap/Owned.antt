-- ===== src/Heap/Owned.antt =====
-- The ownership invariant: counts are the numbers of references.
use idris2_rc.Prelude.{
  ℕ, zero, suc, ◌+◌, ◌≤◌, ◌<◌, ◌≡◌, ◌≢◌, ◌⊎◌, inl, inr, refl, ◌∙◌, Bool, true, false, Option, none,
  some, List, [], ◌∷◌, ◌++◌, arith, get_elem?, set, get_elem?-set_self, get_elem?-set_ne,
  some-lt_length, eq_of_some, sym, ℕ_discrete,
}
use mathlib.Core.Path.{subst}
use idris2_rc.Prelude.Run.{ok}
use idris2_rc.RefCount.{refcount_max, rc_release, rc_release-max, rc_release_shared, rc_release-one}
use idris2_rc.Heap.{Value, ref, Obj, Heap, is_leaf, load, store, free_cell, release_last}
use idris2_rc.Heap.Count.{
  refs_in, refs_in-append, weight, total-set, refs_from_heap, alive_count, alive,
}

-- A cell to which there are `n` references. An immortal object may have any number; freed memory
-- and an object that is being torn down have none.
abbrev pub Counted : Option (Option Obj) → ℕ → Type 0
Counted none n = n ≡ 0
Counted (some none) n = n ≡ 0
Counted (some (some o)) n = (o.rc ≡ refcount_max) ⊎ (o.rc ≡ n) × (n < refcount_max)

-- An object of a kind that holds no heap value has none.
abbrev pub IsShaped : Obj → Type 0
IsShaped o = is_leaf o.kind ≡ true → o.fields ≡ []

-- The values in `roots` and those in the living objects are all the references there are, and
-- each count is right.
pub record IsOwned (h : Heap) (roots : List Value) : Type 0 where
  pub counted : (a : ℕ) → Counted (get_elem? h a) (refs_in a roots + refs_from_heap a h)
  pub shaped : (a : ℕ) (o : Obj) → get_elem? h a ≡ some (some o) → IsShaped o

-- An object whose count has dropped to 0.
pub record IsDying (h : Heap) (a : ℕ) (o : Obj) : Type 0 where
  pub here : get_elem? h a ≡ some (some o)
  pub dead : o.rc ≡ 0

pub load-here : (h : Heap) (a : ℕ) (o : Obj) → get_elem? h a ≡ some (some o) → load a h ≡ ok o
unfolding load
load-here h a o e = rw (e, load)

-- A reference that is owned leads to an object that is alive.
pub root-alive :
    (h : Heap) (a : ℕ) (roots : List Value)
    → IsOwned h (ref a ∷ roots)
    → (o : Obj) × (get_elem? h a ≡ some (some o)) × (o.rc ≢ 0)
root-alive h a roots own = go (get_elem? h a) refl
  where
    go :
        (c : Option (Option Obj))
        → get_elem? h a ≡ c
        → (o : Obj) × (get_elem? h a ≡ some (some o)) × (o.rc ≢ 0)
    go none e = absurd (ground (arith, rw e at (own.counted a)))
    go (some none) e = absurd (ground (arith, rw e at (own.counted a)))
    go (some (some o)) e = (o, e, λ z. ground (arith, rw e at (own.counted a)))

-- What a write does to the invariant: elsewhere the references stay the same in number.
pub set-IsOwned :
    (h : Heap) (rs rs' : List Value) (a : ℕ) (c d : Option Obj)
    → IsOwned h rs
    → get_elem? h a ≡ some c
    → ((b : ℕ) → b ≢ a → refs_in b rs' + weight b d ≡ refs_in b rs + weight b c)
    → Counted (some d) (refs_in a rs' + refs_from_heap a (set h a d))
    → ((q : Obj) → d ≡ some q → IsShaped q)
    → IsOwned (set h a d) rs'
set-IsOwned h rs rs' a c d own e same here shape = record {
  counted = λ b. elim (ℕ_discrete b a) [
    | yes p ↦ rw (p, get_elem?-set_self h a d (some-lt_length h a e)) here
    | no q ↦
        let moved : refs_in b rs' + refs_from_heap b (set h a d)
            ≡ refs_in b rs + refs_from_heap b h =
          omega (arith, total-set (weight b) h a c d e, same b q) in
        rw (get_elem?-set_ne h d (λ p. q (sym p)), moved) (own.counted b)
  ];
  shaped = λ b q f. elim (ℕ_discrete b a) [
    | yes p ↦
        let same_cell : get_elem? (set h a d) a ≡ some (some q) = rw p at f in
        shape q (eq_of_some (sym (get_elem?-set_self h a d (some-lt_length h a e)) ∙ same_cell))
    | no ne ↦ own.shaped b q (sym (get_elem?-set_ne h d (λ p. ne (sym p))) ∙ f)
  ];
}

module _ (h : Heap) (a : ℕ) (o o' : Obj) (e : get_elem? h a ≡ some (some o)) where
  pub store-here : get_elem? (store a o' h) a ≡ some (some o')
  unfolding store
  store-here = get_elem?-set_self h a (some o') (some-lt_length h a e)

  store-elsewhere : (b : ℕ) → b ≢ a → get_elem? (store a o' h) b ≡ get_elem? h b
  unfolding store
  store-elsewhere b ne = get_elem?-set_ne h (some o') (λ p. ne (sym p))

-- A step that neither makes nor ends a dying object, and revives none.
pub record IsQuiet (h h' : Heap) : Type 0 where
  pub keeps : (b : ℕ) (o : Obj) → IsDying h b o → IsDying h' b o
  pub no_new : (b : ℕ) (o : Obj) → IsDying h' b o → IsDying h b o
  pub fewer : alive_count h' ≤ alive_count h

-- A dying object stands at another address than a living one.
dying-ne :
    (h : Heap) (a b : ℕ) (o q : Obj)
    → get_elem? h a ≡ some (some o)
    → o.rc ≢ 0
    → IsDying h b q
    → b ≢ a
dying-ne h a b o q e live d p =
    let same : get_elem? h b ≡ some (some o) = rw p e in
    live (some_some_rc o q (sym same ∙ d.here) ∙ d.dead)
  where
    some_some_rc :
        (o q : Obj) → ◌≡◌ {A = Option (Option Obj)} (some (some o)) (some (some q)) → o.rc ≡ q.rc
    some_some_rc o q e = ground arith

pub store-IsQuiet :
    (h : Heap) (a : ℕ) (o o' : Obj)
    → get_elem? h a ≡ some (some o)
    → o.rc ≢ 0
    → o'.rc ≢ 0
    → IsQuiet h (store a o' h)
store-IsQuiet h a o o' e live live' = record {
  keeps = λ b q d. record {
    here = store-elsewhere h a o o' e b (dying-ne h a b o q e live d) ∙ d.here;
    dead = d.dead;
  };
  no_new = λ b q d. record {
    here =
        sym (
          store-elsewhere h a o o' e b
            (dying-ne (store a o' h) a b o' q (store-here h a o o' e) live' d))
        ∙ d.here;
    dead = d.dead;
  };
  fewer = unfold store in ground (arith, total-set alive h a (some o) (some o') e);
}

-- What `idris2rc2_releaseLast` does with a reference that is owned.
pub data Release (h : Heap) (a : ℕ) (roots : List Value) : Type 0 where
  shared :
      (h' : Heap)
      → release_last (ref a) h ≡ ok (false, h')
      → IsOwned h' roots
      → IsQuiet h h'
      → Release h a roots
  last :
      (h' : Heap) (o : Obj)
      → release_last (ref a) h ≡ ok (true, h')
      → IsDying h' a o
      → IsOwned h' (o.fields ++ roots)
      → ((b : ℕ) (q : Obj) → IsDying h b q → IsDying h' b q × (b ≢ a))
      → ((b : ℕ) (q : Obj) → b ≢ a → IsDying h' b q → IsDying h b q)
      → alive_count h' < alive_count h
      → Release h a roots

module _ (h : Heap) (a : ℕ) (roots : List Value) (own : IsOwned h (ref a ∷ roots)) (o : Obj)
    (e : get_elem? h a ≡ some (some o)) (live : o.rc ≢ 0) where
  pub here :
      (o.rc ≡ refcount_max)
      ⊎ (o.rc ≡ refs_in a (ref a ∷ roots) + refs_from_heap a h)
        × (refs_in a (ref a ∷ roots) + refs_from_heap a h < refcount_max)
  here = rw e at (own.counted a)

  releases :
      (rc' : ℕ) (l : Bool)
      → rc_release o.rc ≡ record { rc = rc'; last = l }
      → release_last (ref a) h ≡ ok (l, store a (record o { rc = rc' }) h)
  unfolding release_last
  releases rc' l r = rw (load-here h a o e, r)

  pub keeps_shape :
      (rc' : ℕ) (q : Obj)
      → ◌≡◌ {A = Option Obj} (some (record o { rc = rc' })) (some q)
      → IsShaped q
  keeps_shape rc' q same = subst IsShaped (eq_of_some same) (own.shaped a o e)

  -- While the object stays alive its values stay where they are.
  shared-IsOwned :
      (rc' : ℕ)
      → rc' ≢ 0
      → ((rc' ≡ refcount_max) ⊎ (suc rc' ≡ o.rc) × (o.rc < refcount_max))
      → IsOwned (store a (record o { rc = rc' }) h) roots
  unfolding store
  shared-IsOwned rc' live' right =
      set-IsOwned h (ref a ∷ roots) roots a (some o) (some (record o { rc = rc' })) own e
        (λ b ne. ground arith)
        (ground (arith, here, total-set (weight a) h a (some o) (some (record o { rc = rc' })) e))
        (keeps_shape rc')

  Release-immortal : o.rc ≡ refcount_max → Release h a roots
  Release-immortal m =
      shared (store a (record o { rc = refcount_max }) h)
        (releases refcount_max false (rw m rc_release-max))
        (shared-IsOwned refcount_max (omega arith) (inl refl))
        (store-IsQuiet h a o (record o { rc = refcount_max }) e live (omega arith))

  Release-shared : (n : ℕ) → o.rc ≡ suc (suc n) → suc (suc n) < refcount_max → Release h a roots
  Release-shared n r small =
      shared (store a (record o { rc = suc n }) h)
        (releases (suc n) false (rw r (rc_release_shared n small)))
        (shared-IsOwned (suc n) (omega arith) (inr (sym r, rw r small)))
        (store-IsQuiet h a o (record o { rc = suc n }) e live (omega arith))

  -- When the last reference goes, the values of the object are the caller's.
  dying-IsOwned : o.rc ≡ 1 → IsOwned (store a (record o { rc = 0 }) h) (o.fields ++ roots)
  unfolding store
  dying-IsOwned r =
      set-IsOwned h (ref a ∷ roots) (o.fields ++ roots) a (some o) (some (record o { rc = 0 })) own
        e (λ b ne. ground (arith, refs_in-append b o.fields roots))
        (ground (
          arith,
          here,
          refs_in-append a o.fields roots,
          total-set (weight a) h a (some o) (some (record o { rc = 0 })) e,
        ))
        (keeps_shape 0)

  Release-last : o.rc ≡ 1 → Release h a roots
  Release-last r =
      let o' : Obj = record o { rc = 0 } in
      last (store a o' h) o' (releases 0 true (rw r rc_release-one))
        (record { here = store-here h a o o' e; dead = refl }) (dying-IsOwned r)
        (λ b q d.
          let ne = dying-ne h a b o q e live d in
          (record { here = store-elsewhere h a o o' e b ne ∙ d.here; dead = d.dead }, ne))
        (λ b q ne d. record {
          here = sym (store-elsewhere h a o o' e b ne) ∙ d.here;
          dead = d.dead;
        })
        (unfold store in ground (arith, total-set alive h a (some o) (some o') e))

  Release-alive : Release h a roots
  Release-alive = go o.rc refl
    where
      go : (n : ℕ) → o.rc ≡ n → Release h a roots
      go zero r = absurd (live r)
      go (suc zero) r = Release-last r
      go (suc (suc n)) r = elim (ℕ_discrete (suc (suc n)) refcount_max) [
        | yes m ↦ Release-immortal (r ∙ m)
        | no ne ↦ Release-shared n r (ground (arith, here))
      ]

pub Release-owned :
    (h : Heap) (a : ℕ) (roots : List Value) → IsOwned h (ref a ∷ roots) → Release h a roots
Release-owned h a roots own =
    let (o, e, live) = root-alive h a roots own in Release-alive h a roots own o e live

-- The end of a teardown gives the memory back.
pub free_cell-IsOwned :
    (h : Heap) (a : ℕ) (o : Obj) (roots : List Value)
    → IsDying h a o
    → IsOwned h roots
    → (free_cell a h ≡ ok (set h a none)) × IsOwned (set h a none) roots
unfolding free_cell
free_cell-IsOwned h a o roots d own = (
  rw (load-here h a o d.here),
  set-IsOwned h roots roots a (some o) none own d.here (λ b ne. ground (arith, d.dead))
      (ground (
        arith,
        (rw d.here at (own.counted a)),
        d.dead,
        total-set (weight a) h a (some o) none d.here,
      ))
      (λ q e. cc),
)

pub free_cell-IsDying :
    (h : Heap) (a b : ℕ) (o q : Obj)
    → IsDying h a o
    → (b ≢ a → IsDying h b q → IsDying (set h a none) b q)
      × (IsDying (set h a none) b q → IsDying h b q × (b ≢ a))
free_cell-IsDying h a b o q d = (
  λ ne e. record { here = get_elem?-set_ne h none (λ p. ne (sym p)) ∙ e.here; dead = e.dead },
  λ e.
      let ne : b ≢ a = λ p.
        ground (arith, rw p at e.here, get_elem?-set_self h a none (some-lt_length h a d.here)) in
      (
        record { here = sym (get_elem?-set_ne h none (λ p. ne (sym p))) ∙ e.here; dead = e.dead },
        ne,
      ),
)

pub free_cell-alive :
    (h : Heap) (a : ℕ) (o : Obj) → IsDying h a o → alive_count (set h a none) ≤ alive_count h
free_cell-alive h a o d = ground (arith, d.dead, total-set alive h a (some o) none d.here)
