-- ===== src/Channel/Queue.antt =====
-- The list of nodes of a channel stands for a queue of values.
use idris2_rc.Prelude.{
  ℕ, suc, ◌≤◌, ◌<◌, ◌≡◌, ◌≢◌, refl, sym, ap, ◌∙◌, true, false, List, [], ◌∷◌, ◌++◌, Option, none,
  some, ◌==◌, arith, ==_iff,
}
use idris2_rc.Channel.{Node, Channel, write}

module _ {A : Type 0} where
  -- From the node `i` with the value `v`, the nodes carry `q` and end in `last`; the names, all under
  -- `bound`, grow from node to node.
  unfoldable pub Segment :
      (nodes : ℕ → Option (Node A)) (bound last i : ℕ) (v : A) (q : List A) → Type 0
  Segment nodes bound last i v [] =
      (nodes i ≡ some (record { value = v; next = none })) × (last ≡ i) × (i < bound)
  Segment nodes bound last i v (w ∷ q) =
      (j : ℕ) × (nodes i ≡ some (record { value = v; next = some j }))
      × (i < j)
      × Segment nodes bound last j w q

  unfoldable pub IsQueue : Channel A → List A → Type 0
  unfolding Segment
  IsQueue c [] = (c.head ≡ none) × (c.tail ≡ none)
  IsQueue c (v ∷ q) =
      (i last : ℕ) × (c.head ≡ some i) × (c.tail ≡ some last) × Segment c.nodes c.names last i v q

  pub write-same : (i : ℕ) (x : Option (Node A)) (m : ℕ → Option (Node A)) → write i x m i ≡ x
  unfolding write
  write-same i x m = let same : (i == i) ≡ true = (==_iff i i).1 refl in rw same refl

  pub write-other :
      (i k : ℕ) (x : Option (Node A)) (m : ℕ → Option (Node A)) → k ≢ i → write i x m k ≡ m k
  unfolding write
  write-other i k x m ne = let other : (k == i) ≡ false = ground (arith, ne) in rw other refl

  pub Segment-le :
      (m : ℕ → Option (Node A)) (n last i : ℕ) (v : A) (q : List A)
      → Segment m n last i v q
      → (i ≤ last) × (last < n)
  unfolding Segment
  Segment-le m n last i v [] (e, l, h) = omega arith
  Segment-le m n last i v (w ∷ q) (j, e, less, s) =
      let h = Segment-le m n last j w q s in omega (arith, h.0, h.1)

  -- What is written before a segment leaves it as it is.
  pub Segment-write :
      (m : ℕ → Option (Node A)) (n last i : ℕ) (v : A) (q : List A) (k : ℕ) (x : Option (Node A))
      → k < i
      → Segment m n last i v q
      → Segment (write k x m) n last i v q
  unfolding Segment
  Segment-write m n last i v [] k x h (e, l, b) =
      (write-other k i x m (λ p. omega (arith, p)) ∙ e, l, b)
  Segment-write m n last i v (w ∷ q) k x h (j, e, less, s) = (
    j,
    write-other k i x m (λ p. omega (arith, p)) ∙ e,
    less,
    Segment-write m n last j w q k x (omega arith) s,
  )

  -- The last node of a segment.
  pub Segment-last :
      (m : ℕ → Option (Node A)) (n last i : ℕ) (v : A) (q : List A)
      → Segment m n last i v q
      → (u : A) × (m last ≡ some (record { value = u; next = none }))
  unfolding Segment
  Segment-last m n last i v [] (e, l, b) = (v, ap m l ∙ e)
  Segment-last m n last i v (w ∷ q) (j, e, less, s) = Segment-last m n last j w q s

  abbrev node_value : A → Option (Node A) → A
  node_value v none = v
  node_value v (some node) = node.value

  -- A new node behind the last one.
  pub Segment-append :
      (m : ℕ → Option (Node A)) (n last i : ℕ) (v : A) (q : List A) (u x : A)
      → Segment m n last i v q
      → m last ≡ some (record { value = u; next = none })
      → Segment
          (write last
            (some (record { value = u; next = some n }))
            (write n (some (record { value = x; next = none })) m))
          (suc n)
          n
          i
          v
          (q ++ (x ∷ []))
  unfolding Segment
  Segment-append m n last i v [] u x (e, l, b) eu =
      let same : u ≡ v = ap (node_value v) (sym eu ∙ (ap m l ∙ e)) in
      let at_last =
        ap
          (write last (some (record { value = u; next = some n }))
            (write n (some (record { value = x; next = none })) m))
          (sym l) in
      (
        n,
        at_last
            ∙ (write-same last _ _
                ∙ ap (λ (t : A). some (record { value = t; next = some n })) same),
        b,
        (
          write-other last n _ _ (λ p. omega (arith, p, l, b)) ∙ write-same n _ m,
          refl,
          omega arith,
        ),
      )
  Segment-append m n last i v (w ∷ q) u x (j, e, less, s) eu =
      let h = Segment-le m n last j w q s in
      (
        j,
        write-other last i _ _ (λ p. omega (arith, p, h.0))
            ∙ (write-other n i _ _ (λ p. omega (arith, p, h.0, h.1)) ∙ e),
        less,
        Segment-append m n last j w q u x s eu,
      )
