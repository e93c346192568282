-- ===== src/Heap/Teardown.antt =====
-- The teardown of an object that lost its last reference: every loop returns, reads no freed
-- memory, and leaves the invariant.
use idris2_rc.Prelude.{
  ℕ, zero, suc, ◌≤◌, ◌<◌, ◌≡◌, ◌≢◌, inl, inr, refl, sym, true, Option, none, some, List, [], ◌∷◌,
  ◌++◌, arith, Bool-cases, set,
}
use idris2_rc.Prelude.Run.{Run, ok, ◌>>=◌}
use idris2_rc.Heap.{
  Value, null, imm, ref, Kind, closure, constructor, ioref, lazy, array, gc_pointer, channel, Obj,
  Heap, is_leaf, free_cell, has_children, args_loop, drop_each, children, teardown,
}
use idris2_rc.Heap.Count.{refs_in, refs_in-append, alive_count}
use idris2_rc.Heap.Owned.{
  IsOwned, IsShaped, IsDying, IsQuiet, Release, shared, last, Release-owned, load-here,
  free_cell-IsOwned, free_cell-IsDying, free_cell-alive,
}
use idris2_rc.Heap.Torn.{
  IsOwned-cong, IsQuiet-refl, IsQuiet-trans, Torn, Dropped, Looped, done, deferred, Tears,
  args_loop-some,
}

-- A reference that is owned is dropped.
module _ (td : ℕ → Heap → Run Heap) (n : ℕ) (tears : Tears td n) where
  -- After the last release of `a`, its teardown.
  pub Torn-Dropped :
      (h h1 : Heap) (a : ℕ) (o : Obj) (roots : List Value)
      → IsDying h1 a o
      → IsOwned h1 (o.fields ++ roots)
      → ((b : ℕ) (q : Obj) → IsDying h b q → IsDying h1 b q × (b ≢ a))
      → ((b : ℕ) (q : Obj) → b ≢ a → IsDying h1 b q → IsDying h b q)
      → alive_count h1 < alive_count h
      → alive_count h ≤ n
      → Dropped (td a h1) h roots
  Torn-Dropped h h1 a o roots d own keeps no_new less le =
      let t = tears h1 a o roots d own (omega arith) in
      record {
        after = t.after;
        returns = t.returns;
        owned = t.owned;
        quiet = record {
          keeps = λ b q e. let k = keeps b q e in t.keeps b q k.1 k.0;
          no_new = λ b q e. let k = t.no_new b q e in no_new b q k.1 k.0;
          fewer = omega (arith, t.fewer);
        };
      }

  drop_each-Dropped :
      (vs : List Value) (h : Heap) (roots : List Value)
      → IsOwned h (vs ++ roots)
      → alive_count h ≤ n
      → Dropped (drop_each td vs h) h roots
  unfolding drop_each
  drop_each-Dropped [] h roots own le = record {
    after = h;
    returns = refl;
    owned = own;
    quiet = IsQuiet-refl h;
  }
  drop_each-Dropped (null ∷ vs) h roots own le =
      drop_each-Dropped vs h roots (IsOwned-cong h _ (vs ++ roots) (λ a. refl) own) le
  drop_each-Dropped (imm i ∷ vs) h roots own le =
      drop_each-Dropped vs h roots (IsOwned-cong h _ (vs ++ roots) (λ a. refl) own) le
  drop_each-Dropped (ref a ∷ vs) h roots own le =
      after_release_of (Release-owned h a (vs ++ roots) own)
        (λ h' own' le'. drop_each-Dropped vs h' roots own' le')
    where
      and_then :
          (h1 : Heap) (run : Run Heap)
          → Dropped run h (vs ++ roots)
          → ((h' : Heap)
              → IsOwned h' (vs ++ roots)
              → alive_count h' ≤ n
              → Dropped (drop_each td vs h') h' roots)
          → Dropped (run >>= λ h2. drop_each td vs h2) h roots
      and_then h1 run first ih =
          let q = first.quiet in
          let second = ih first.after first.owned (omega (arith, q.fewer)) in
          record {
            after = second.after;
            returns = rw first.returns second.returns;
            owned = second.owned;
            quiet = IsQuiet-trans h first.after second.after first.quiet second.quiet;
          }

      after_release_of :
          Release h a (vs ++ roots)
          → ((h' : Heap)
              → IsOwned h' (vs ++ roots)
              → alive_count h' ≤ n
              → Dropped (drop_each td vs h') h' roots)
          → Dropped (drop_each td (ref a ∷ vs) h) h roots
      after_release_of (shared h' e own' q) ih =
          rw e (
            and_then h' (ok h') (record { after = h'; returns = refl; owned = own'; quiet = q }) ih)
      after_release_of (last h1 o e d own1 keeps no_new less) ih = rw e (
          and_then h1 (td a h1) (Torn-Dropped h h1 a o (vs ++ roots) d own1 keeps no_new less le)
            ih)

  Looped-prepend :
      (run : Run (Option ℕ × Heap)) (h h1 : Heap) (roots : List Value)
      → IsQuiet h h1
      → Looped run h1 roots
      → Looped run h roots
  Looped-prepend run h h1 roots q (done h' e own q') = done h' e own (IsQuiet-trans h h1 h' q q')
  Looped-prepend run h h1 roots q (deferred b ob h' e d own keeps no_new less) =
      deferred b ob h' e d own (λ c o k. keeps c o (q.keeps c o k))
        (λ c o ne k. q.no_new c o (no_new c o ne k)) (omega (arith, q.fewer))

  -- A dying child that can hold values waits, and the others are dropped.
  deferred-Looped :
      (vs : List Value) (h h1 : Heap) (a : ℕ) (o : Obj) (roots : List Value)
      → IsDying h1 a o
      → IsOwned h1 (o.fields ++ (vs ++ roots))
      → ((b : ℕ) (q : Obj) → IsDying h b q → IsDying h1 b q × (b ≢ a))
      → ((b : ℕ) (q : Obj) → b ≢ a → IsDying h1 b q → IsDying h b q)
      → alive_count h1 < alive_count h
      → alive_count h ≤ n
      → Looped (args_loop td vs (some a) h1) h roots
  deferred-Looped vs h h1 a o roots d own keeps no_new less le =
      let moved = IsOwned-cong h1 _ (vs ++ (o.fields ++ roots)) (λ c. swap_front c) own in
      let rest = drop_each-Dropped vs h1 (o.fields ++ roots) moved (omega arith) in
      let q = rest.quiet in
      deferred a o rest.after (rw (args_loop-some td vs a h1, rest.returns)) (q.keeps a o d)
        rest.owned (λ c r k. let m = keeps c r k in (q.keeps c r m.0, m.1))
        (λ c r ne k. no_new c r ne (q.no_new c r k)) (omega (arith, q.fewer))
    where
      swap_front :
          (c : ℕ) → refs_in c (o.fields ++ (vs ++ roots)) ≡ refs_in c (vs ++ (o.fields ++ roots))
      swap_front c = omega (
        arith,
        refs_in-append c o.fields (vs ++ roots),
        refs_in-append c vs roots,
        refs_in-append c vs (o.fields ++ roots),
        refs_in-append c o.fields roots,
      )

  Dropped-Looped :
      (run : Run Heap) (h : Heap) (roots : List Value)
      → Dropped run h roots
      → Looped (run >>= λ h1. ok (none, h1)) h roots
  Dropped-Looped run h roots d = done d.after (rw d.returns) d.owned d.quiet

  args_loop-Looped :
      (vs : List Value) (h : Heap) (roots : List Value)
      → IsOwned h (vs ++ roots)
      → alive_count h ≤ n
      → Looped (args_loop td vs none h) h roots
  unfolding args_loop
  args_loop-Looped [] h roots own le = done h refl own (IsQuiet-refl h)
  args_loop-Looped (null ∷ vs) h roots own le =
      args_loop-Looped vs h roots (IsOwned-cong h _ (vs ++ roots) (λ a. refl) own) le
  args_loop-Looped (imm i ∷ vs) h roots own le =
      args_loop-Looped vs h roots (IsOwned-cong h _ (vs ++ roots) (λ a. refl) own) le
  args_loop-Looped (ref a ∷ vs) h roots own le =
      after_release_of (Release-owned h a (vs ++ roots) own)
        (λ h' own' le'. args_loop-Looped vs h' roots own' le')
    where
      after_release_of :
          Release h a (vs ++ roots)
          → ((h' : Heap)
              → IsOwned h' (vs ++ roots)
              → alive_count h' ≤ n
              → Looped (args_loop td vs none h') h' roots)
          → Looped (args_loop td (ref a ∷ vs) none h) h roots
      after_release_of (shared h' e own' q) ih =
          rw e (Looped-prepend _ h h' roots q (ih h' own' (omega (arith, q.fewer))))
      after_release_of (last h1 o e d own1 keeps no_new less) ih =
          rw (e, load-here h1 a o d.here)
            (elim (Bool-cases (has_children o.kind)) [
              | inl waits ↦ rw waits (deferred-Looped vs h h1 a o roots d own1 keeps no_new less le)
              | inr goes ↦
                  let t = Torn-Dropped h h1 a o (vs ++ roots) d own1 keeps no_new less le in
                  let q = t.quiet in
                  rw (goes, t.returns)
                    (Looped-prepend _ h t.after roots t.quiet
                      (ih t.after t.owned (omega (arith, q.fewer))))
            ])

  children-Looped :
      (o : Obj) (h : Heap) (roots : List Value)
      → IsShaped o
      → IsOwned h (o.fields ++ roots)
      → alive_count h ≤ n
      → Looped (children td o.kind o.fields h) h roots
  unfolding is_leaf children
  children-Looped o h roots shape own le = go o.kind o.fields shape own
    where
      leaf : (vs : List Value) → vs ≡ [] → IsOwned h (vs ++ roots) → Looped (ok (none, h)) h roots
      leaf vs e own = done h refl (rw e at own) (IsQuiet-refl h)

      go :
          (k : Kind) (vs : List Value)
          → (is_leaf k ≡ true → vs ≡ [])
          → IsOwned h (vs ++ roots)
          → Looped (children td k vs h) h roots
      go closure vs s own = args_loop-Looped vs h roots own le
      go constructor vs s own = args_loop-Looped vs h roots own le
      go lazy vs s own = args_loop-Looped vs h roots own le
      go ioref vs s own = Dropped-Looped _ h roots (drop_each-Dropped vs h roots own le)
      go array vs s own = Dropped-Looped _ h roots (drop_each-Dropped vs h roots own le)
      go gc_pointer vs s own = Dropped-Looped _ h roots (drop_each-Dropped vs h roots own le)
      go channel vs s own = Dropped-Looped _ h roots (drop_each-Dropped vs h roots own le)
      go _ vs s own = leaf vs (s refl) own

-- The end of one round: the object is freed, and the child that waited is torn down.
finish_round :
    (fuel : ℕ)
    → Tears (teardown fuel) fuel
    → (run : Run (Option ℕ × Heap)) (h : Heap) (a : ℕ) (o : Obj) (roots : List Value)
    → IsDying h a o
    → alive_count h ≤ fuel
    → Looped run h roots
    → Torn
        (run >>= λ r.
          free_cell a r.1 >>= λ h2. elim r.0 [ none ↦ ok h2 | some b ↦ teardown fuel b h2 ])
        h
        a
        roots
finish_round fuel tears run h a o roots d le (done h' e own q) =
    let d' = q.keeps a o d in
    let freed = free_cell-IsOwned h' a o roots d' own in
    record {
      after = set h' a none;
      returns = rw (e, freed.0);
      owned = freed.1;
      keeps = λ b r ne k. (free_cell-IsDying h' a b o r d').0 ne (q.keeps b r k);
      no_new = λ b r k. let m = (free_cell-IsDying h' a b o r d').1 k in (q.no_new b r m.0, m.1);
      fewer = omega (arith, q.fewer, free_cell-alive h' a o d');
    }
finish_round fuel tears run h a o roots d le (deferred b ob h' e db own keeps no_new less) =
    let d' = keeps a o d in
    let a_ne_b = d'.1 in
    let freed = free_cell-IsOwned h' a o (ob.fields ++ roots) d'.0 own in
    let db' = (free_cell-IsDying h' a b o ob d'.0).0 (λ p. a_ne_b (sym p)) db in
    let t =
      tears (set h' a none) b ob roots db' freed.1 (omega (arith, free_cell-alive h' a o d'.0)) in
    record {
      after = t.after;
      returns = rw (e, freed.0, t.returns);
      owned = t.owned;
      keeps = λ c r ne k.
          let m = keeps c r k in t.keeps c r m.1 ((free_cell-IsDying h' a c o r d'.0).0 ne m.0);
      no_new = λ c r k.
          let m = t.no_new c r k in
          let f = (free_cell-IsDying h' a c o r d'.0).1 m.0 in (no_new c r m.1 f.0, f.1);
      fewer = omega (arith, t.fewer, free_cell-alive h' a o d'.0);
    }

-- Fuel above the number of living objects is enough, whatever the shape of the heap.
pub teardown-Torn : (fuel : ℕ) → Tears (teardown fuel) fuel
unfolding teardown
teardown-Torn zero h a o roots d own lt = absurd (omega arith)
teardown-Torn (suc fuel) h a o roots d own lt = rw (load-here h a o d.here) (
    finish_round fuel (teardown-Torn fuel) _ h a o roots d (omega arith) (
      children-Looped (teardown fuel) fuel (teardown-Torn fuel) o h roots (own.shaped a o d.here)
        own (omega arith)))
