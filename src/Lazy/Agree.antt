-- ===== src/Lazy/Agree.antt =====
-- All threads get the same value, and the closure is dropped once, by the thread that set the flag.
use idris2_rc.Prelude.{
  ℕ, suc, ◌≡◌, ◌≢◌, refl, sym, ap, ◌∙◌, inl, inr, ◌⊎◌, Bool, true, false, List, [], ◌∷◌, Option,
  none, some, ◌==◌, if◌then◌else◌, Bool-cases, ==_iff,
}
use idris2_rc.Lazy.{
  Phase, entering, evaluated, locking, running, returned, storing, flagged, unlocked, forced,
  misread, LazyState, at_phase, take_value, first_section, second_section, force_step, force_run,
  mk_lazy,
}

-- A thread that has set the flag and has not yet dropped the closure.
abbrev pub about_to_drop : Phase → Bool
about_to_drop (flagged r) = true
about_to_drop (unlocked r) = true
about_to_drop p = false

-- What holds of a thread, given the cell and the thread that has set the flag.
unfoldable Good :
    (reserved : Bool) (av lock : Option ℕ) (drops : ℕ) (setter : Option ℕ) (i : ℕ) → Phase → Type 0
Good f a k d o i entering = true ≡ true
Good f a k d o i locking = true ≡ true
Good f a k d o i running = true ≡ true
Good f a k d o i (returned r) = true ≡ true
Good f a k d o i evaluated = f ≡ true
Good f a k d o i (storing r) = (f ≡ false) × (k ≡ some i) × (a ≡ some r)
Good f a k d o i (flagged r) = (f ≡ true) × (k ≡ some i) × (a ≡ some r) × (d ≡ 0) × (o ≡ some i)
Good f a k d o i (unlocked r) = (f ≡ true) × (a ≡ some r) × (d ≡ 0) × (o ≡ some i)
Good f a k d o i (forced v) = (f ≡ true) × (a ≡ some v)
Good f a k d o i misread = true ≡ false

-- The invariant of the cell and its threads.
record IsFair (s : LazyState) : Type 0 where
  setter : Option ℕ
  written : (s.reserved ≡ false) ⊎ ((v : ℕ) × (s.av ≡ some v))
  before : s.reserved ≡ false → s.closure_drops ≡ 0
  dropped :
      s.reserved ≡ true
      → (s.closure_drops ≡ 1)
        ⊎ (s.closure_drops ≡ 0) × (i : ℕ) × (about_to_drop (s.threads i) ≡ true)
  good : (i : ℕ) → Good s.reserved s.av s.lock s.closure_drops setter i (s.threads i)

-- All threads, where one of them takes a new phase.
all_threads :
    (P : ℕ → Phase → Type 0) (i : ℕ) (p : Phase) (threads : ℕ → Phase)
    → P i p
    → ((k : ℕ) → k ≢ i → P k (threads k))
    → (k : ℕ) → P k (if k == i then p else threads k)
all_threads P i p threads here others k = elim (Bool-cases (k == i)) [
  | inl same ↦ let e : k ≡ i = (==_iff k i).0 same in rw (same, e) here
  | inr other ↦ rw other (others k (λ e. let t = (==_iff k i).1 e in cc))
]

-- Another thread that is about to drop stays so.
still_dropping :
    (i j : ℕ) (p : Phase) (threads : ℕ → Phase)
    → about_to_drop (threads i) ≡ false
    → about_to_drop (threads j) ≡ true
    → about_to_drop (if j == i then p else threads j) ≡ true
still_dropping i j p threads idle busy = elim (Bool-cases (j == i)) [
  | inl same ↦ let e : j ≡ i = (==_iff j i).0 same in absurd (let b = rw e at busy in cc)
  | inr other ↦ rw other busy
]

now_dropping :
    (i : ℕ) (p q : Phase) → about_to_drop p ≡ true → about_to_drop (if i == i then p else q) ≡ true
now_dropping i p q busy = rw ((==_iff i i).1 refl) busy

-- A thread changes its phase and nothing else.
move :
    (s : LazyState) (i : ℕ) (p : Phase) (f : IsFair s)
    → about_to_drop (s.threads i) ≡ false
    → Good s.reserved s.av s.lock s.closure_drops f.setter i p
    → IsFair (at_phase i p s)
unfolding at_phase
move s i p f idle h = record {
  setter = f.setter;
  written = f.written;
  before = f.before;
  dropped = λ set. elim (f.dropped set) [
    | inl once ↦ inl once
    | inr (never, j, busy) ↦ inr (never, j, still_dropping i j p s.threads idle busy)
  ];
  good =
      all_threads (Good s.reserved s.av s.lock s.closure_drops f.setter) i p s.threads h
        (λ k ne. f.good k);
}

entering-Good :
    (b : Bool) (a k : Option ℕ) (d : ℕ) (o : Option ℕ) (i : ℕ)
    → Good b a k d o i (if b then evaluated else locking)
unfolding Good
entering-Good true a k d o i = refl
entering-Good false a k d o i = refl

none-some : (v : ℕ) → none ≡ some v → ⊥
none-some v e =
    let t : true ≡ false = ap (λ (o : Option ℕ). elim o [ none ↦ true | some x ↦ false ]) e in cc

some_same : (v w : ℕ) → some v ≡ some w → v ≡ w
some_same v w e = ap (λ (o : Option ℕ). elim o [ none ↦ v | some x ↦ x ]) e

value-Good :
    (b : Bool) (a k : Option ℕ) (d : ℕ) (o : Option ℕ) (i : ℕ)
    → b ≡ true
    → (b ≡ false) ⊎ ((v : ℕ) × (a ≡ some v))
    → Good b a k d o i (take_value a)
unfolding Good
value-Good b none k d o i set written =
    absurd (elim written [ inl clear ↦ cc | inr w ↦ none-some _ w.1 ])
value-Good b (some v) k d o i set written = (set, refl)

locked-Good :
    (b : Bool) (a k : Option ℕ) (d : ℕ) (o : Option ℕ) (i : ℕ)
    → (b ≡ false) ⊎ ((v : ℕ) × (a ≡ some v))
    → Good b a k d o i (if b then take_value a else running)
unfolding Good
locked-Good true a k d o i written = value-Good true a k d o i refl written
locked-Good false a k d o i written = refl

locking-Good :
    (s : LazyState) (o : Option ℕ) (i : ℕ) (l : Option ℕ)
    → (s.reserved ≡ false) ⊎ ((v : ℕ) × (s.av ≡ some v))
    → Good s.reserved s.av s.lock s.closure_drops o i (first_section s l)
unfolding first_section
locking-Good s o i (some holder) written = unfold Good in refl
locking-Good s o i none written = locked-Good s.reserved s.av s.lock s.closure_drops o i written

-- What holds of the other threads when one stores its result.
stored-Good :
    (a b l : Option ℕ) (d : ℕ) (o : Option ℕ) (k : ℕ) (q : Phase)
    → Good false a none d o k q
    → Good false b l d o k q
unfolding Good
stored-Good a b l d o k entering g = refl
stored-Good a b l d o k locking g = refl
stored-Good a b l d o k running g = refl
stored-Good a b l d o k (returned r) g = refl
stored-Good a b l d o k evaluated g = absurd (cc)
stored-Good a b l d o k (storing r) g = absurd (none-some k g.1)
stored-Good a b l d o k (flagged r) g = absurd (let e = g.0 in cc)
stored-Good a b l d o k (unlocked r) g = absurd (let e = g.0 in cc)
stored-Good a b l d o k (forced v) g = absurd (let e = g.0 in cc)
stored-Good a b l d o k misread g = g

-- When it sets the flag.
set-Good :
    (a : Option ℕ) (d : ℕ) (o : Option ℕ) (i k : ℕ) (q : Phase)
    → k ≢ i
    → Good false a (some i) d o k q
    → Good true a (some i) d (some i) k q
unfolding Good
set-Good a d o i k entering ne g = refl
set-Good a d o i k locking ne g = refl
set-Good a d o i k running ne g = refl
set-Good a d o i k (returned r) ne g = refl
set-Good a d o i k evaluated ne g = refl
set-Good a d o i k (storing r) ne g = absurd (ne (some_same k i (sym g.1)))
set-Good a d o i k (flagged r) ne g = absurd (let e = g.0 in cc)
set-Good a d o i k (unlocked r) ne g = absurd (let e = g.0 in cc)
set-Good a d o i k (forced v) ne g = absurd (let e = g.0 in cc)
set-Good a d o i k misread ne g = g

-- When it unlocks, and when it drops the closure.
unlocked-Good :
    (a : Option ℕ) (d e : ℕ) (i k : ℕ) (l m : Option ℕ) (q : Phase)
    → k ≢ i
    → Good true a l d (some i) k q
    → Good true a m e (some i) k q
unfolding Good
unlocked-Good a d e i k l m entering ne g = refl
unlocked-Good a d e i k l m locking ne g = refl
unlocked-Good a d e i k l m running ne g = refl
unlocked-Good a d e i k l m (returned r) ne g = refl
unlocked-Good a d e i k l m evaluated ne g = refl
unlocked-Good a d e i k l m (storing r) ne g = absurd (let t = g.0 in cc)
unlocked-Good a d e i k l m (flagged r) ne g = absurd (ne (some_same k i (sym g.4)))
unlocked-Good a d e i k l m (unlocked r) ne g = absurd (ne (some_same k i (sym g.3)))
unlocked-Good a d e i k l m (forced v) ne g = g
unlocked-Good a d e i k l m misread ne g = g

if-IsFair :
    (b : Bool) (s t : LazyState)
    → (b ≡ true → IsFair s)
    → (b ≡ false → IsFair t)
    → IsFair (if b then s else t)
if-IsFair true s t f g = f refl
if-IsFair false s t f g = g refl

second-IsFair :
    (s : LazyState) (i r : ℕ) (l : Option ℕ)
    → s.lock ≡ l
    → about_to_drop (s.threads i) ≡ false
    → IsFair s
    → IsFair (second_section i r s l)
unfolding second_section at_phase
second-IsFair s i r (some holder) e idle f = f
second-IsFair s i r none e idle f =
    if-IsFair s.reserved _ _
      (λ set.
        move s i (take_value s.av) f idle
          (value-Good s.reserved s.av s.lock s.closure_drops f.setter i set f.written))
      stored
  where
    stored :
        s.reserved ≡ false
        → IsFair (at_phase i (storing r) (record s { av = some r; lock = some i }))
    stored clear = record {
      setter = f.setter;
      written = inl clear;
      before = f.before;
      dropped = λ set. absurd (cc);
      good =
          all_threads (Good s.reserved (some r) (some i) s.closure_drops f.setter) i (storing r)
            s.threads (unfold Good in (clear, refl, refl))
            (λ k ne. rw clear (
              stored-Good s.av (some r) (some i) s.closure_drops f.setter k (s.threads k)
                (rw (clear, e) at (f.good k))));
    }

step-IsFair :
    (s : LazyState) (i r : ℕ) (p : Phase) (f : IsFair s)
    → s.threads i ≡ p
    → Good s.reserved s.av s.lock s.closure_drops f.setter i p
    → IsFair (force_step i r p s)
unfolding force_step Good at_phase
step-IsFair s i r entering f e g =
    move s i _ f (rw e refl) (entering-Good s.reserved s.av s.lock s.closure_drops f.setter i)
step-IsFair s i r evaluated f e g =
    move s i _ f (rw e refl)
      (value-Good s.reserved s.av s.lock s.closure_drops f.setter i g f.written)
step-IsFair s i r locking f e g =
    move s i _ f (rw e refl) (locking-Good s f.setter i s.lock f.written)
step-IsFair s i r running f e g = move s i (returned r) f (rw e refl) refl
step-IsFair s i r (returned x) f e g = second-IsFair s i x s.lock refl (rw e refl) f
step-IsFair s i r (storing x) f e g = record {
  setter = some i;
  written = inr (x, g.2);
  before = λ clear. absurd (cc);
  dropped = λ set. inr (f.before g.0, i, now_dropping i (flagged x) (s.threads i) refl);
  good =
      all_threads (Good true s.av s.lock s.closure_drops (some i)) i (flagged x) s.threads
        (refl, g.1, g.2, f.before g.0, refl)
        (λ k ne. rw g.1 (
          set-Good s.av s.closure_drops f.setter i k (s.threads k) ne
            (rw (g.0, g.1) at (f.good k))));
}
step-IsFair s i r (flagged x) f e g = record {
  setter = some i;
  written = inr (x, g.2);
  before = λ clear. absurd (let t = g.0 in cc);
  dropped = λ set. inr (g.3, i, now_dropping i (unlocked x) (s.threads i) refl);
  good =
      all_threads (Good s.reserved s.av none s.closure_drops (some i)) i (unlocked x) s.threads
        (g.0, g.2, g.3, refl)
        (λ k ne. rw g.0 (
          unlocked-Good s.av s.closure_drops s.closure_drops i k s.lock none (s.threads k) ne
            (rw (g.0, g.4) at (f.good k))));
}
step-IsFair s i r (unlocked x) f e g = record {
  setter = some i;
  written = inr (x, g.1);
  before = λ clear. absurd (let t = g.0 in cc);
  dropped = λ set. inl (ap suc g.2);
  good =
      all_threads (Good s.reserved s.av s.lock (suc s.closure_drops) (some i)) i (forced x)
        s.threads (g.0, g.1)
        (λ k ne. rw g.0 (
          unlocked-Good s.av s.closure_drops (suc s.closure_drops) i k s.lock s.lock (s.threads k)
            ne (rw (g.0, g.3) at (f.good k))));
}
step-IsFair s i r (forced x) f e g = f
step-IsFair s i r misread f e g = f

run-IsFair : (schedule : List (ℕ × ℕ)) (s : LazyState) → IsFair s → IsFair (force_run schedule s)
unfolding force_run
run-IsFair [] s f = f
run-IsFair ((i, r) ∷ schedule) s f =
    run-IsFair schedule _ (step-IsFair s i r (s.threads i) f refl (f.good i))

mk_lazy-IsFair : IsFair mk_lazy
mk_lazy-IsFair = record {
  setter = none;
  written = inl refl;
  before = λ clear. refl;
  dropped = λ set. absurd (cc);
  good = λ k. unfold Good in refl;
}

-- However the steps of any number of threads interleave, and whatever value each of them would
-- compute: two threads that have forced the cell got the same value, and no thread takes the closure
-- for the value. By then the cell has dropped its closure exactly once, or not yet, and then a thread
-- that has set the flag is about to drop it.
pub force_run-agree :
    (schedule : List (ℕ × ℕ)) (i j k v w : ℕ)
    → (force_run schedule mk_lazy).threads i ≡ forced v
    → (force_run schedule mk_lazy).threads j ≡ forced w
    → (v ≡ w)
      × ((force_run schedule mk_lazy).threads k ≢ misread)
      × (((force_run schedule mk_lazy).closure_drops ≡ 1)
          ⊎ ((force_run schedule mk_lazy).closure_drops ≡ 0)
            × (n : ℕ) × (about_to_drop ((force_run schedule mk_lazy).threads n) ≡ true))
unfolding Good
force_run-agree schedule i j k v w ei ej =
    let s = force_run schedule mk_lazy in
    let f = run-IsFair schedule mk_lazy mk_lazy-IsFair in
    let (set, a) = rw ei at (f.good i) in
    let (set', b) = rw ej at (f.good j) in
    (some_same v w (sym a ∙ b), λ e. let t = rw e at (f.good k) in cc, f.dropped set)
