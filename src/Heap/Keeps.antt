-- ===== src/Heap/Keeps.antt =====
-- Dropping references changes no value that an object holds: an object that is still there afterwards
-- has the values that it had.
use idris2_rc.Prelude.{
  ℕ, zero, suc, ◌≡◌, refl, sym, ◌∙◌, ap, Bool, true, false, Option, none, some, List, [], ◌∷◌,
  arith, if◌then◌else◌, get_elem?, set, get_elem?-set_self, get_elem?-set_ne, some-lt_length,
  eq_of_some, ℕ_discrete,
}
use mathlib.Core.Path.{subst}
use idris2_rc.Prelude.Run.{Run, ok, abort, fault, out_of_fuel, eq_of_ok, ◌>>=◌}
use idris2_rc.Heap.{
  closure, constructor, ioref, lazy, array, gc_pointer, channel, Value, null, imm, ref, Kind, Obj,
  Heap, load, store, free_cell, has_children, release_last, args_loop, drop_each, children,
  teardown, drop, dup,
}

pub record Keeps (h h' : Heap) : Type 0 where
  pub kept :
      (b : ℕ) (q : Obj)
      → get_elem? h' b ≡ some (some q)
      → (o : Obj) × (get_elem? h b ≡ some (some o)) × (o.fields ≡ q.fields)

pub Keeps-refl : (h : Heap) → Keeps h h
Keeps-refl h = record { kept = λ b q e. (q, e, refl) }

pub Keeps-trans : (h g k : Heap) → Keeps h g → Keeps g k → Keeps h k
Keeps-trans h g k p q = record {
  kept = λ b x e.
      let (o, eo, same) = q.kept b x e in
      let (o', eo', same') = p.kept b o eo in (o', eo', same' ∙ same);
}

-- A write of a count, and the end of an object.
pub set-Keeps :
    (h : Heap) (a : ℕ) (o : Obj) (d : Option Obj)
    → get_elem? h a ≡ some (some o)
    → ((q : Obj) → d ≡ some q → o.fields ≡ q.fields)
    → Keeps h (set h a d)
set-Keeps h a o d e same = record {
  kept = λ b q f. elim (ℕ_discrete b a) [
    | yes p ↦
        let there : get_elem? (set h a d) a ≡ some (some q) = rw p at f in
        (
          o,
          rw p e,
          same q (eq_of_some (sym (get_elem?-set_self h a d (some-lt_length h a e)) ∙ there)),
        )
    | no ne ↦ (q, sym (get_elem?-set_ne h d (λ p. ne (sym p))) ∙ f, refl)
  ];
}

-- Each result of a run has kept what `h` has.
abbrev pub Preserves {ℓ} : {A : Type ℓ} → (A → Heap) → Heap → Run A → Type ℓ
Preserves {A} after h m = (x : A) → m ≡ ok x → Keeps h (after x)

ok-Preserves {ℓ} :
    {A : Type ℓ} (after : A → Heap) (h : Heap) (x : A)
    → Keeps h (after x)
    → Preserves after h (ok x)
ok-Preserves {A} after h x k y e = subst (λ z. Keeps h (after z)) (eq_of_ok e) k

bind-Preserves {ℓ κ} :
    {A : Type ℓ} {B : Type κ} (f : A → Heap) (g : B → Heap) (h : Heap) (m : Run A) (k : A → Run B)
    → Preserves f h m
    → ((x : A) → m ≡ ok x → Keeps h (f x) → Preserves g h (k x))
    → Preserves g h (m >>= k)
bind-Preserves f g h (ok x) k p q = q x refl (p x refl)
bind-Preserves f g h abort k p q = λ y e. cc
bind-Preserves f g h fault k p q = λ y e. cc
bind-Preserves f g h out_of_fuel k p q = λ y e. cc

if-Preserves {ℓ} :
    {A : Type ℓ} (f : A → Heap) (h : Heap) (b : Bool) (m n : Run A)
    → Preserves f h m
    → Preserves f h n
    → Preserves f h (if b then m else n)
if-Preserves f h true m n p q = p
if-Preserves f h false m n p q = q

load-eq-ok : (a : ℕ) (h : Heap) (o : Obj) → load a h ≡ ok o → get_elem? h a ≡ some (some o)
unfolding load
load-eq-ok a h o e = ground arith

store-Keeps :
    (h : Heap) (a : ℕ) (o : Obj) (n : ℕ)
    → load a h ≡ ok o
    → Keeps h (store a (record o { rc = n }) h)
unfolding store
store-Keeps h a o n e =
    set-Keeps h a o (some (record o { rc = n })) (load-eq-ok a h o e)
      (λ q s. ap (λ (x : Obj). x.fields) (eq_of_some s))

release_last-Preserves :
    (h0 h : Heap) (v : Value)
    → Keeps h0 h
    → Preserves (λ (r : Bool × Heap). r.1) h0 (release_last v h)
unfolding release_last
release_last-Preserves h0 h null k = ok-Preserves _ h0 (false, h) k
release_last-Preserves h0 h (imm n) k = ok-Preserves _ h0 (false, h) k
release_last-Preserves h0 h (ref a) k =
    bind-Preserves (λ o. h) (λ r. r.1) h0 (load a h) _ (λ o e. k)
      (λ o e k'. ok-Preserves _ h0 _ (Keeps-trans h0 h _ k (store-Keeps h a o _ e)))

abbrev TearsKeep : (ℕ → Heap → Run Heap) → Type 0
TearsKeep td = (h0 h : Heap) (a : ℕ) → Keeps h0 h → Preserves (λ x. x) h0 (td a h)

module _ (td : ℕ → Heap → Run Heap) (tdk : TearsKeep td) where
  drop_each-Preserves :
      (h0 h : Heap) (vs : List Value) → Keeps h0 h → Preserves (λ x. x) h0 (drop_each td vs h)
  unfolding drop_each
  drop_each-Preserves h0 h [] k = ok-Preserves _ h0 h k
  drop_each-Preserves h0 h (null ∷ vs) k = drop_each-Preserves h0 h vs k
  drop_each-Preserves h0 h (imm n ∷ vs) k = drop_each-Preserves h0 h vs k
  drop_each-Preserves h0 h (ref a ∷ vs) k =
      bind-Preserves (λ r. r.1) (λ x. x) h0 (release_last (ref a) h) _
        (release_last-Preserves h0 h (ref a) k)
        (λ r e k1.
          if-Preserves _ h0 r.0 _ _
            (bind-Preserves (λ x. x) (λ x. x) h0 (td a r.1) _ (tdk h0 r.1 a k1)
              (λ h2 e2 k2. drop_each-Preserves h0 h2 vs k2))
            (drop_each-Preserves h0 r.1 vs k1))

  args_loop-Preserves :
      (h0 h : Heap) (vs : List Value) (next : Option ℕ)
      → Keeps h0 h
      → Preserves (λ (r : Option ℕ × Heap). r.1) h0 (args_loop td vs next h)
  unfolding args_loop
  args_loop-Preserves h0 h [] next k = ok-Preserves _ h0 (next, h) k
  args_loop-Preserves h0 h (null ∷ vs) next k = args_loop-Preserves h0 h vs next k
  args_loop-Preserves h0 h (imm n ∷ vs) next k = args_loop-Preserves h0 h vs next k
  args_loop-Preserves h0 h (ref a ∷ vs) none k =
      bind-Preserves (λ r. r.1) (λ r. r.1) h0 (release_last (ref a) h) _
        (release_last-Preserves h0 h (ref a) k)
        (λ r e k1.
          if-Preserves _ h0 r.0 _ _
            (bind-Preserves (λ o. r.1) (λ r. r.1) h0 (load a r.1) _ (λ o e1. k1)
              (λ o e1 k1'.
                if-Preserves _ h0 (has_children o.kind) _ _
                  (args_loop-Preserves h0 r.1 vs (some a) k1)
                  (bind-Preserves (λ x. x) (λ r. r.1) h0 (td a r.1) _ (tdk h0 r.1 a k1)
                    (λ h2 e2 k2. args_loop-Preserves h0 h2 vs none k2))))
            (args_loop-Preserves h0 r.1 vs none k1))
  args_loop-Preserves h0 h (ref a ∷ vs) (some b) k =
      bind-Preserves (λ r. r.1) (λ r. r.1) h0 (release_last (ref a) h) _
        (release_last-Preserves h0 h (ref a) k)
        (λ r e k1.
          if-Preserves _ h0 r.0 _ _
            (bind-Preserves (λ x. x) (λ r. r.1) h0 (td a r.1) _ (tdk h0 r.1 a k1)
              (λ h2 e2 k2. args_loop-Preserves h0 h2 vs (some b) k2))
            (args_loop-Preserves h0 r.1 vs (some b) k1))

  each_then_none :
      (h0 h : Heap) (vs : List Value)
      → Keeps h0 h
      → Preserves
          (λ (r : Option ℕ × Heap). r.1)
          h0
          (drop_each td vs h >>= λ h1. let r : Option ℕ × Heap = (none, h1) in ok r)
  each_then_none h0 h vs k =
      bind-Preserves (λ x. x) (λ r. r.1) h0 (drop_each td vs h) _ (drop_each-Preserves h0 h vs k)
        (λ h1 e k1. ok-Preserves _ h0 _ k1)

  children-Preserves :
      (h0 h : Heap) (kind : Kind) (vs : List Value)
      → Keeps h0 h
      → Preserves (λ (r : Option ℕ × Heap). r.1) h0 (children td kind vs h)
  unfolding children
  children-Preserves h0 h closure vs k = args_loop-Preserves h0 h vs none k
  children-Preserves h0 h constructor vs k = args_loop-Preserves h0 h vs none k
  children-Preserves h0 h lazy vs k = args_loop-Preserves h0 h vs none k
  children-Preserves h0 h ioref vs k = each_then_none h0 h vs k
  children-Preserves h0 h array vs k = each_then_none h0 h vs k
  children-Preserves h0 h gc_pointer vs k = each_then_none h0 h vs k
  children-Preserves h0 h channel vs k = each_then_none h0 h vs k
  children-Preserves h0 h other vs k = ok-Preserves _ h0 (none, h) k

goto_next :
    (td : ℕ → Heap → Run Heap)
    → TearsKeep td
    → (h0 h : Heap) (next : Option ℕ) → Keeps h0 h
    → Preserves (λ x. x) h0 (elim next [ none ↦ ok h | some b ↦ td b h ])
goto_next td tdk h0 h none k = ok-Preserves _ h0 h k
goto_next td tdk h0 h (some b) k = tdk h0 h b k

free_cell-Preserves :
    (h0 h : Heap) (a : ℕ) → Keeps h0 h → Preserves (λ (x : Heap). x) h0 (free_cell a h)
unfolding free_cell
free_cell-Preserves h0 h a k =
    bind-Preserves (λ o. h) (λ x. x) h0 (load a h) _ (λ o e. k)
      (λ o e k'.
        ok-Preserves _ h0 _
          (Keeps-trans h0 h _ k (set-Keeps h a o none (load-eq-ok a h o e) (λ q s. cc))))

teardown-Preserves : (fuel : ℕ) → TearsKeep (teardown fuel)
unfolding teardown
teardown-Preserves zero h0 h a k = λ y e. cc
teardown-Preserves (suc fuel) h0 h a k =
    bind-Preserves (λ o. h) (λ x. x) h0 (load a h) _ (λ o e. k)
      (λ o e k0.
        bind-Preserves (λ r. r.1) (λ x. x) h0 (children (teardown fuel) o.kind o.fields h) _
          (children-Preserves (teardown fuel) (teardown-Preserves fuel) h0 h o.kind o.fields k)
          (λ r e1 k1.
            bind-Preserves (λ x. x) (λ x. x) h0 (free_cell a r.1) _
              (free_cell-Preserves h0 r.1 a k1)
              (λ h2 e2 k2. goto_next (teardown fuel) (teardown-Preserves fuel) h0 h2 r.0 k2)))

-- What is left of an object after a drop, or after a duplication, has the values that it had.
pub drop-Keeps : (fuel : ℕ) (v : Value) (h h' : Heap) → drop fuel v h ≡ ok h' → Keeps h h'
unfolding drop
drop-Keeps fuel null h = ok-Preserves (λ x. x) h h (Keeps-refl h)
drop-Keeps fuel (imm n) h = ok-Preserves (λ x. x) h h (Keeps-refl h)
drop-Keeps fuel (ref a) h =
    bind-Preserves (λ r. r.1) (λ x. x) h (release_last (ref a) h) _
      (release_last-Preserves h h (ref a) (Keeps-refl h))
      (λ r e k.
        if-Preserves _ h r.0 _ _ (teardown-Preserves fuel h r.1 a k) (ok-Preserves _ h r.1 k))

pub dup-Keeps : (v : Value) (h h' : Heap) → dup v h ≡ ok h' → Keeps h h'
unfolding dup
dup-Keeps null h = ok-Preserves (λ x. x) h h (Keeps-refl h)
dup-Keeps (imm n) h = ok-Preserves (λ x. x) h h (Keeps-refl h)
dup-Keeps (ref a) h =
    bind-Preserves (λ o. h) (λ x. x) h (load a h) _ (λ o e. Keeps-refl h)
      (λ o e k. ok-Preserves _ h _ (store-Keeps h a o _ e))
