-- ===== src/Heap/Slots/Laws.antt =====
-- The operations on the slots of IORefs and arrays keep the counts of the heap right, and a slot
-- holds what was last written to it.
use idris2_rc.Prelude.{
  ℕ, zero, suc, ◌+◌, ◌<◌, ◌≡◌, sym, ◌∙◌, ap, none, some, List, [], ◌∷◌, arith, get_elem?, set,
  get_elem?-set_self, get_elem?-set_ne, some-lt_length, eq_of_some, ℕ_discrete,
}
use idris2_rc.Heap.{Value, null, imm, ref, Obj, Heap, store}
use idris2_rc.Heap.Count.{refs_in, weight, total-set, refs_from_heap, alive, alive_count}
use idris2_rc.Heap.Owned.{Counted, set-IsOwned}
use idris2_rc.Heap.Torn.{IsOwned-cong}
use idris2_rc.Heap.Drop.{IsSound}

pub refs_in_cons :
    (a : ℕ) (v : Value) (vs : List Value) → refs_in a (v ∷ vs) ≡ refs_in a (v ∷ []) + refs_in a vs
refs_in_cons a null vs = omega arith
refs_in_cons a (imm n) vs = omega arith
refs_in_cons a (ref b) vs = omega arith

pub refs_in-set :
    (a : ℕ) (vs : List Value) (i : ℕ) (old new : Value)
    → get_elem? vs i ≡ some old
    → refs_in a (set vs i new) + refs_in a (old ∷ []) ≡ refs_in a vs + refs_in a (new ∷ [])
refs_in-set a [] i old new e = ground arith
refs_in-set a (v ∷ vs) zero old new e =
    rw (eq_of_some e) (omega (arith, refs_in_cons a new vs, refs_in_cons a old vs))
refs_in-set a (v ∷ vs) (suc i) old new e =
    omega
      (arith, refs_in-set a vs i old new e, refs_in_cons a v vs, refs_in_cons a v (set vs i new))

pub refs_in-get :
    (b : ℕ) (vs : List Value) (i : ℕ) → get_elem? vs i ≡ some (ref b) → 0 < refs_in b vs
refs_in-get b [] i e = ground arith
refs_in-get b (v ∷ vs) zero e = rw (eq_of_some e) (ground arith)
refs_in-get b (v ∷ vs) (suc i) e = omega (arith, refs_in-get b vs i e, refs_in_cons b v vs)

-- Sound for another list of the same references.
pub IsSound-cong :
    (h : Heap) (rs rs' : List Value)
    → ((a : ℕ) → refs_in a rs ≡ refs_in a rs')
    → IsSound h rs
    → IsSound h rs'
IsSound-cong h rs rs' same s = record {
  owned = IsOwned-cong h rs rs' same s.owned;
  settled = s.settled;
}

-- The second reference of a list comes to the front.
pub to_front :
    (u v : Value) (rs : List Value) (h : Heap) → IsSound h (u ∷ v ∷ rs) → IsSound h (v ∷ u ∷ rs)
to_front u v rs h s =
    IsSound-cong h (u ∷ v ∷ rs) (v ∷ u ∷ rs)
      (λ a. omega (
        arith,
        refs_in_cons a u (v ∷ rs),
        refs_in_cons a v rs,
        refs_in_cons a v (u ∷ rs),
        refs_in_cons a u rs,
      ))
      s

-- A leaf has no slot.
slot_of_leaf : (vs : List Value) (i : ℕ) (v : Value) → vs ≡ [] → get_elem? vs i ≡ some v → ⊥
slot_of_leaf vs i v e f = let g : none ≡ some v = rw e at f in ground arith

module _ (h : Heap) (a i : ℕ) (o : Obj) (old new : Value) (rs : List Value)
    (e : get_elem? h a ≡ some (some o)) (at_i : get_elem? o.fields i ≡ some old) where
  abbrev pub swapped : Obj
  swapped = record o { fields = set o.fields i new }

  module _ (s : IsSound h (new ∷ rs)) where
    swap-elsewhere :
        (b : ℕ)
        → refs_in b (old ∷ rs) + weight b (some swapped) ≡ refs_in b (new ∷ rs) + weight b (some o)
    swap-elsewhere b = ground (
      arith,
      s.settled a o e,
      refs_in-set b o.fields i old new at_i,
      refs_in_cons b old rs,
      refs_in_cons b new rs,
    )

    swap-here :
        Counted
          (some (some swapped))
          (refs_in a (old ∷ rs) + refs_from_heap a (set h a (some swapped)))
    swap-here =
        let same : refs_in a (old ∷ rs) + refs_from_heap a (set h a (some swapped))
            ≡ refs_in a (new ∷ rs) + refs_from_heap a h =
          omega (arith, swap-elsewhere a, total-set (weight a) h a (some o) (some swapped) e) in
        rw same (rw e at (s.owned.counted a))

    pub swap-IsSound : IsSound (store a swapped h) (old ∷ rs)
    unfolding store
    swap-IsSound = record {
      owned =
          set-IsOwned h (new ∷ rs) (old ∷ rs) a (some o) (some swapped) s.owned e
            (λ b ne. swap-elsewhere b) swap-here
            (λ q same leaf.
              let kinds : o.kind ≡ q.kind = ap (λ (x : Obj). x.kind) (eq_of_some same) in
              absurd (slot_of_leaf o.fields i old (s.owned.shaped a o e (rw kinds leaf)) at_i));
      settled = λ b q f. elim (ℕ_discrete b a) [
        | yes p ↦
            let there : get_elem? (set h a (some swapped)) a ≡ some (some q) = rw p at f in
            let same : swapped ≡ q = eq_of_some (
              eq_of_some
                (sym (get_elem?-set_self h a (some swapped) (some-lt_length h a e)) ∙ there)) in
            let counts : o.rc ≡ q.rc = ap (λ (x : Obj). x.rc) same in
            λ z. s.settled a o e (counts ∙ z)
        | no ne ↦ s.settled b q (sym (get_elem?-set_ne h (some swapped) (λ p. ne (sym p))) ∙ f)
      ];
    }

    pub swap-alive : alive_count (store a swapped h) ≡ alive_count h
    unfolding store
    swap-alive = ground (arith, total-set alive h a (some o) (some swapped) e)
