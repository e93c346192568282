-- ===== src/Heap/Drop.antt =====
-- `idris2rc2_drop` and `idris2rc2_dup` on a heap whose counts are right.
use idris2_rc.Prelude.{
  ℕ, ◌≤◌, ◌≡◌, ◌≢◌, refl, some, List, ◌∷◌, arith, get_elem?, eq_of_some, sym, ap,
}
use mathlib.Core.Path.{subst}
use idris2_rc.Prelude.Run.{ok, eq_of_ok}
use idris2_rc.RefCount.{rc_dup}
use idris2_rc.Heap.{Value, null, imm, ref, Obj, Heap, store, teardown, drop, dup}
use idris2_rc.Heap.Count.{weight, total-set, alive, alive_count}
use idris2_rc.Heap.Owned.{
  IsOwned, IsShaped, Release, shared, last, Release-owned, root-alive, load-here, set-IsOwned,
  store-IsQuiet,
}
use idris2_rc.Heap.Torn.{Dropped, IsOwned-cong, IsQuiet-refl}
use idris2_rc.Heap.Teardown.{Torn-Dropped, teardown-Torn}

-- Between two operations no object is left half torn down: the references in `roots` and in the
-- objects are counted exactly, nothing refers to freed memory, and each object that is not
-- immortal is referred to.
pub record IsSound (h : Heap) (roots : List Value) : Type 0 where
  pub owned : IsOwned h roots
  pub settled : (a : ℕ) (o : Obj) → get_elem? h a ≡ some (some o) → o.rc ≢ 0

drop-Dropped :
    (fuel : ℕ) (v : Value) (h : Heap) (roots : List Value)
    → IsOwned h (v ∷ roots)
    → alive_count h ≤ fuel
    → Dropped (drop fuel v h) h roots
unfolding drop
drop-Dropped fuel null h roots own le = record {
  after = h;
  returns = refl;
  owned = IsOwned-cong h (null ∷ roots) roots (λ a. refl) own;
  quiet = IsQuiet-refl h;
}
drop-Dropped fuel (imm n) h roots own le = record {
  after = h;
  returns = refl;
  owned = IsOwned-cong h (imm n ∷ roots) roots (λ a. refl) own;
  quiet = IsQuiet-refl h;
}
drop-Dropped fuel (ref a) h roots own le = after_release (Release-owned h a roots own)
  where
    after_release : Release h a roots → Dropped (drop fuel (ref a) h) h roots
    after_release (shared h' e own' q) =
        rw e (record { after = h'; returns = refl; owned = own'; quiet = q })
    after_release (last h1 o e d own1 keeps no_new less) = rw e (
        Torn-Dropped (teardown fuel) fuel (teardown-Torn fuel) h h1 a o roots d own1 keeps no_new
          less le)

-- Dropping a reference that is held returns, whatever graph of objects hangs under it, without a
-- read of freed memory and without freeing anything twice. Afterwards the counts are right for
-- the other references, so nothing that these reach was freed, and no object without a reference
-- is left. Fuel for the number of living objects is enough.
pub drop-IsSound :
    (fuel : ℕ) (v : Value) (h : Heap) (roots : List Value)
    → IsSound h (v ∷ roots)
    → alive_count h ≤ fuel
    → (h' : Heap) × (drop fuel v h ≡ ok h') × IsSound h' roots
drop-IsSound fuel v h roots s le =
    let d = drop-Dropped fuel v h roots s.owned le in
    let q = d.quiet in
    (
      d.after,
      d.returns,
      record {
        owned = d.owned;
        settled = λ a o e z. s.settled a o (q.no_new a o (record { here = e; dead = z })).here z;
      },
    )

-- A further reference to an object that is there.
dup-ref :
    (a : ℕ) (h : Heap) (o : Obj) (rs : List Value)
    → IsSound h rs
    → get_elem? h a ≡ some (some o)
    → IsOwned (store a (record o { rc = rc_dup o.rc }) h) (ref a ∷ rs)
unfolding store rc_dup
dup-ref a h o rs s e =
    let live = s.settled a o e in
    let counted = rw e at (s.owned.counted a) in
    let o' : Obj = record o { rc = rc_dup o.rc } in
    set-IsOwned h rs (ref a ∷ rs) a (some o) (some o') s.owned e (λ b ne. ground (arith, counted))
      (ground (arith, counted, total-set (weight a) h a (some o) (some o') e))
      (λ q same. subst IsShaped (eq_of_some same) (s.owned.shaped a o e))

dup-settled :
    (a : ℕ) (h : Heap) (o o' : Obj)
    → get_elem? h a ≡ some (some o)
    → o.rc ≢ 0
    → o'.rc ≢ 0
    → ((b : ℕ) (q : Obj) → get_elem? h b ≡ some (some q) → q.rc ≢ 0)
    → (b : ℕ) (q : Obj) → get_elem? (store a o' h) b ≡ some (some q)
    → q.rc ≢ 0
dup-settled a h o o' e live live' s b q f z =
    let quiet = store-IsQuiet h a o o' e live live' in
    let d = quiet.no_new b q (record { here = f; dead = z }) in s b q d.here z

rc_dup_alive :
    (a : ℕ) (h : Heap) (o : Obj) (rs : List Value)
    → IsSound h rs
    → get_elem? h a ≡ some (some o)
    → rc_dup o.rc ≢ 0
unfolding rc_dup
rc_dup_alive a h o rs s e z = ground (arith, rw e at (s.owned.counted a), s.settled a o e)

-- What a value refers to has not been freed.
abbrev pub IsThere : Heap → Value → Type 0
IsThere h null = Unit
IsThere h (imm n) = Unit
IsThere h (ref a) = (o : Obj) × (get_elem? h a ≡ some (some o))

-- Duplicating a value, wherever the reference is that leads to it.
pub dup_there-IsSound :
    (v : Value) (h : Heap) (rs : List Value)
    → IsThere h v
    → IsSound h rs
    → (h' : Heap) × (dup v h ≡ ok h') × IsSound h' (v ∷ rs)
unfolding dup
dup_there-IsSound null h rs t s = (
  h,
  refl,
  record { owned = IsOwned-cong h rs (null ∷ rs) (λ a. refl) s.owned; settled = s.settled },
)
dup_there-IsSound (imm n) h rs t s = (
  h,
  refl,
  record { owned = IsOwned-cong h rs (imm n ∷ rs) (λ a. refl) s.owned; settled = s.settled },
)
dup_there-IsSound (ref a) h rs (o, e) s = (
  store a (record o { rc = rc_dup o.rc }) h,
  rw (load-here h a o e),
  record {
    owned = dup-ref a h o rs s e;
    settled =
        dup-settled a h o (record o { rc = rc_dup o.rc }) e (s.settled a o e)
          (rc_dup_alive a h o rs s e) s.settled;
  },
)

-- A duplication changes the number of living objects in no way.
pub dup-alive :
    (v : Value) (h h' : Heap) (rs : List Value)
    → IsSound h rs
    → IsThere h v
    → dup v h ≡ ok h'
    → alive_count h' ≡ alive_count h
unfolding dup store
dup-alive null h h' rs s t e = ap alive_count (sym (eq_of_ok e))
dup-alive (imm n) h h' rs s t e = ap alive_count (sym (eq_of_ok e))
dup-alive (ref a) h h' rs s (o, f) e =
    let same = eq_of_ok (rw (load-here h a o f) at e) in
    rw (← same) (
      ground (
        arith,
        s.settled a o f,
        rc_dup_alive a h o rs s f,
        total-set alive h a (some o) (some (record o { rc = rc_dup o.rc })) f,
      ))

pub root-IsThere : (v : Value) (h : Heap) (roots : List Value) → IsOwned h (v ∷ roots) → IsThere h v
root-IsThere null h roots own = tt
root-IsThere (imm n) h roots own = tt
root-IsThere (ref a) h roots own = let (o, e, live) = root-alive h a roots own in (o, e)

-- Duplicating a reference that is held gives a second one: the counts stay right, and a count
-- that reaches the maximum makes the object immortal instead of wrapping.
pub dup-IsSound :
    (v : Value) (h : Heap) (roots : List Value)
    → IsSound h (v ∷ roots)
    → (h' : Heap) × (dup v h ≡ ok h') × IsSound h' (v ∷ v ∷ roots)
dup-IsSound v h roots s = dup_there-IsSound v h (v ∷ roots) (root-IsThere v h roots s.owned) s
