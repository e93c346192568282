-- ===== src/Heap/Torn.antt =====
-- What a teardown and a drop leave behind, and the loop over the fields behind a deferred child.
use idris2_rc.Prelude.{
  ℕ, ◌≤◌, ◌<◌, ◌≡◌, ◌≢◌, refl, Bool, true, false, Option, none, some, List, [], ◌∷◌, ◌++◌, arith,
  if◌then◌else◌,
}
use idris2_rc.Prelude.Run.{Run, ok, abort, fault, out_of_fuel, ◌>>=◌}
use idris2_rc.Heap.{Value, null, imm, ref, Obj, Heap, release_last, args_loop, drop_each}
use idris2_rc.Heap.Count.{refs_in, alive_count}
use idris2_rc.Heap.Owned.{IsOwned, IsDying, IsQuiet}

pub IsOwned-cong :
    (h : Heap) (rs rs' : List Value)
    → ((a : ℕ) → refs_in a rs ≡ refs_in a rs')
    → IsOwned h rs
    → IsOwned h rs'
IsOwned-cong h rs rs' same own = record {
  counted = λ a. rw (← same a) (own.counted a);
  shaped = own.shaped;
}

pub IsQuiet-refl : (h : Heap) → IsQuiet h h
IsQuiet-refl h = record { keeps = λ b o d. d; no_new = λ b o d. d; fewer = omega arith }

pub IsQuiet-trans : (h g k : Heap) → IsQuiet h g → IsQuiet g k → IsQuiet h k
IsQuiet-trans h g k p q = record {
  keeps = λ b o d. q.keeps b o (p.keeps b o d);
  no_new = λ b o d. p.no_new b o (q.no_new b o d);
  fewer = omega (arith, p.fewer, q.fewer);
}

-- A dying object was torn down: it is gone, the values that it held were dropped, and all other
-- dying objects stand as before.
pub record Torn (run : Run Heap) (h : Heap) (a : ℕ) (roots : List Value) : Type 0 where
  pub after : Heap
  pub returns : run ≡ ok after
  pub owned : IsOwned after roots
  pub keeps : (b : ℕ) (q : Obj) → b ≢ a → IsDying h b q → IsDying after b q
  pub no_new : (b : ℕ) (q : Obj) → IsDying after b q → IsDying h b q × (b ≢ a)
  pub fewer : alive_count after ≤ alive_count h

-- References were dropped.
pub record Dropped (run : Run Heap) (h : Heap) (roots : List Value) : Type 0 where
  pub after : Heap
  pub returns : run ≡ ok after
  pub owned : IsOwned after roots
  pub quiet : IsQuiet h after

-- What the loop over the fields leaves for the caller.
pub data Looped (run : Run (Option ℕ × Heap)) (h : Heap) (roots : List Value) : Type 0 where
  done : (h' : Heap) → run ≡ ok (none, h') → IsOwned h' roots → IsQuiet h h' → Looped run h roots
  deferred :
      (b : ℕ) (ob : Obj) (h' : Heap)
      → run ≡ ok (some b, h')
      → IsDying h' b ob
      → IsOwned h' (ob.fields ++ roots)
      → ((c : ℕ) (q : Obj) → IsDying h c q → IsDying h' c q × (c ≢ b))
      → ((c : ℕ) (q : Obj) → c ≢ b → IsDying h' c q → IsDying h c q)
      → alive_count h' < alive_count h
      → Looped run h roots

abbrev pub Tears : (ℕ → Heap → Run Heap) → ℕ → Type 0
Tears td n =
    (h : Heap) (a : ℕ) (o : Obj) (roots : List Value)
    → IsDying h a o
    → IsOwned h (o.fields ++ roots)
    → alive_count h < n
    → Torn (td a h) h a roots

module _ (td : ℕ → Heap → Run Heap) (vs : List Value) (b : ℕ)
    (ih : (h : Heap)
      → args_loop td vs (some b) h ≡ (drop_each td vs h >>= λ h'. ok (some b, h'))) where
  after_teardown :
      (r : Run Heap)
      → (r >>= λ h2. args_loop td vs (some b) h2)
        ≡ ((r >>= λ h2. drop_each td vs h2) >>= λ h'. ok (some b, h'))
  after_teardown (ok h2) = ih h2
  after_teardown abort = refl
  after_teardown fault = refl
  after_teardown out_of_fuel = refl

  after_release :
      (a : ℕ) (l : Bool) (h : Heap)
      → (if l then (td a h >>= λ h2. args_loop td vs (some b) h2) else args_loop td vs (some b) h)
        ≡ ((if l then (td a h >>= λ h2. drop_each td vs h2) else drop_each td vs h) >>= λ h'.
            ok (some b, h'))
  after_release a true h = after_teardown (td a h)
  after_release a false h = ih h

-- With a child already deferred, the loop over the fields drops each of them.
pub args_loop-some :
    (td : ℕ → Heap → Run Heap) (vs : List Value) (b : ℕ) (h : Heap)
    → args_loop td vs (some b) h ≡ (drop_each td vs h >>= λ h'. ok (some b, h'))
unfolding args_loop drop_each
args_loop-some td [] b h = refl
args_loop-some td (null ∷ vs) b h = args_loop-some td vs b h
args_loop-some td (imm n ∷ vs) b h = args_loop-some td vs b h
args_loop-some td (ref a ∷ vs) b h =
    over_release _
      (λ l h1. if l then (td a h1 >>= λ h2. drop_each td vs h2) else drop_each td vs h1) _
      (release_last (ref a) h) (λ l h1. after_release td vs b (args_loop-some td vs b) a l h1)
  where
    over_release :
        (f : Bool → Heap → Run (Option ℕ × Heap)) (g : Bool → Heap → Run Heap)
        (k : Heap → Run (Option ℕ × Heap)) (r : Run (Bool × Heap))
        → ((l : Bool) (h1 : Heap) → f l h1 ≡ (g l h1 >>= k))
        → (r >>= λ p. f p.0 p.1) ≡ ((r >>= λ p. g p.0 p.1) >>= k)
    over_release f g k (ok (l, h1)) e = e l h1
    over_release f g k abort e = refl
    over_release f g k fault e = refl
    over_release f g k out_of_fuel e = refl
