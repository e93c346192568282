-- ===== src/Memo/Keeps.antt =====
-- Every step, and so every run, keeps the invariant of the calls, the memos and the cleanup list.
use idris2_rc.Prelude.{
  ℕ, suc, ◌≤◌, ◌≡◌, ◌≢◌, inl, inr, refl, sym, ap, ◌∙◌, Bool, true, false, not, ◌&&◌, List, [], ◌∷◌,
  Option, none, some, arith, if◌then◌else◌, Bool-cases, ==_iff,
}
use idris2_rc.Memo.{
  Phase, entering, owning, computing, storing, loading, linking, swapping, publishing, waiting,
  returned, missing, cycle, Memo, Memos, at_call, same, take_value, memo_step, memo_run, start,
}
use idris2_rc.Memo.Tidy.{count, owns, Good, IsFair, IsTidy, owner-Good}
use idris2_rc.Memo.Steps.{move, advance, rewrite_memo}

same-eq : (a b : Option ℕ) → same a b ≡ true → a ≡ b
same-eq none none e = refl
same-eq none (some b) e = absurd (cc)
same-eq (some a) none e = absurd (cc)
same-eq (some a) (some b) e = ap (λ (x : ℕ). some x) ((==_iff a b).0 e)

both : (a b : Bool) → (a && b) ≡ true → a ≡ true
both true b e = refl
both false b e = e

take_value-Good :
    (c : Memo) (n : ℕ) (o : Option ℕ)
    → c.done ≡ true
    → c.value ≡ o
    → (v : ℕ) × (c.value ≡ some v)
    → Good c n (take_value o)
take_value-Good c n none d e (v, f) = let g : none ≡ some v = sym e ∙ f in ground arith
take_value-Good c n (some w) d e there = (d, e)

owns-take_value : (o : Option ℕ) → owns (take_value o) ≡ false
owns-take_value none = refl
owns-take_value (some v) = refl

owned-IsFair : (c : Memo) (n : ℕ) → c.claimed ≡ true → c.done ≡ false → n ≤ 1 → IsFair c n
owned-IsFair c n taken undone le = record {
  most = le;
  unclaimed = λ free. absurd (cc);
  finished = λ set. absurd (cc);
}

count_here : (m : ℕ) (l : List ℕ) → count m (m ∷ l) ≡ suc (count m l)
count_here m l = ground (arith, (==_iff m m).1 refl)

count_elsewhere : (k m : ℕ) (l : List ℕ) → k ≢ m → count k (m ∷ l) ≡ count k l
count_elsewhere k m l ne = ground arith

module _ (memo_of : ℕ → ℕ) where
  -- The invariant, for some order of the cleanup list.
  abbrev pub Kept : Memos → Type 0
  Kept s = (l : List ℕ) × IsTidy memo_of s l

  if-Kept :
      (b : Bool) (s u : Memos)
      → (b ≡ true → Kept s)
      → (b ≡ false → Kept u)
      → Kept (if b then s else u)
  if-Kept true s u f g = f refl
  if-Kept false s u f g = g refl

  module _ (s : Memos) (l : List ℕ) (t : IsTidy memo_of s l) (i : ℕ) where
    others_idle :
        owns (s.calls i) ≡ true → (j : ℕ) → j ≢ i → memo_of j ≡ memo_of i → owns (s.calls j) ≡ false
    others_idle o j ne at = elim (Bool-cases (owns (s.calls j))) [
      | inl busy ↦ absurd (ne (t.single j i busy o at))
      | inr idle ↦ idle
    ]

    unclaimed_idle :
        (s.memos (memo_of i)).claimed ≡ false
        → (j : ℕ) → j ≢ i
        → memo_of j ≡ memo_of i
        → owns (s.calls j) ≡ false
    unclaimed_idle free j ne at = elim (Bool-cases (owns (s.calls j))) [
      | inl busy ↦
          let taken =
            (owner-Good (s.memos (memo_of j)) (count (memo_of j) l) (s.calls j) busy
              (t.good j)).0 in
          absurd (let e = rw at at taken in cc)
      | inr idle ↦ idle
    ]

    abbrev c : Memo
    c = s.memos (memo_of i)

    abbrev n : ℕ
    n = count (memo_of i) l

    -- The compare-and-swap succeeds: the memo is the head of the list.
    pushed :
        (v : ℕ) (old : Option ℕ)
        → s.calls i ≡ swapping v old
        → Good c n (swapping v old)
        → s.head ≡ old
        → IsTidy memo_of
            (at_call i (publishing v) (record s { head = some (memo_of i) }))
            (memo_of i ∷ l)
    unfolding at_call
    pushed v old e g eq =
        let one : count (memo_of i) (memo_of i ∷ l) ≡ 1 =
          omega (arith, count_here (memo_of i) l, g.2) in
        advance memo_of s l t i (publishing v) s.memos (some (memo_of i)) (memo_of i ∷ l) g.1
          (others_idle (rw e refl)) (λ k ne. (refl, count_elsewhere k (memo_of i) l ne))
          (refl, rw (g.4, ← eq) t.chain) (owned-IsFair c _ g.0 g.1 (omega (arith, one)))
          (g.0, g.1, one, g.3) (λ x. inr refl)

    step-IsTidy :
        (th r : ℕ) (spurious : Bool) (p : Phase)
        → s.calls i ≡ p
        → Good c n p
        → Kept (memo_step i (memo_of i) th r spurious p s)
    unfolding memo_step
    step-IsTidy th r spurious entering e g =
        if-Kept c.claimed _ _ (λ taken. (l, move memo_of s l t i waiting (rw e refl) tt))
          (λ free.
            let (undone, absent) = (t.fair (memo_of i)).unclaimed free in
            (
              l,
              rewrite_memo memo_of s l t i owning (record c { claimed = true }) undone
                  (unclaimed_idle free) (inl refl)
                  (owned-IsFair _ n refl undone (omega (arith, absent))) (refl, undone, absent)
                  (λ one. inr refl),
            ))
    step-IsTidy th r spurious owning e g = (
      l,
      rewrite_memo memo_of s l t i computing (record c { owner = some th }) g.1
          (others_idle (rw e refl)) (inl refl) (owned-IsFair _ n g.0 g.1 (omega (arith, g.2))) g
          (λ one. inr refl),
    )
    step-IsTidy th r spurious computing e g = (l, move memo_of s l t i (storing r) (rw e refl) g)
    step-IsTidy th r spurious (storing v) e g = (
      l,
      rewrite_memo memo_of s l t i (loading v) (record c { value = some v }) g.1
          (others_idle (rw e refl)) (inl refl) (owned-IsFair _ n g.0 g.1 (omega (arith, g.2)))
          (g.0, g.1, g.2, refl) (λ one. inr refl),
    )
    step-IsTidy th r spurious (loading v) e g =
        (l, move memo_of s l t i (linking v s.head) (rw e refl) g)
    step-IsTidy th r spurious (linking v old) e g = (
      l,
      rewrite_memo memo_of s l t i (swapping v old) (record c { cleanup_next = old }) g.1
          (others_idle (rw e refl)) (inr g.2) (owned-IsFair _ n g.0 g.1 (omega (arith, g.2)))
          (g.0, g.1, g.2, g.3, refl) (λ one. inr refl),
    )
    step-IsTidy th r spurious (swapping v old) e g =
        if-Kept (same s.head old && not spurious) _ _
          (λ won. (memo_of i ∷ l, pushed v old e g (same-eq s.head old (both _ _ won))))
          (λ lost. (l, move memo_of s l t i (linking v s.head) (rw e refl) (g.0, g.1, g.2, g.3)))
    step-IsTidy th r spurious (publishing v) e g = (
      l,
      rewrite_memo memo_of s l t i (returned v) (record c { done = true }) g.1
          (others_idle (rw e refl)) (inl refl)
          (record {
            most = omega (arith, g.2);
            unclaimed = λ free. absurd (let u = g.0 in cc);
            finished = λ set. (g.2, (v, g.3));
          })
          (refl, g.3) (λ one. inl refl),
    )
    step-IsTidy th r spurious waiting e g =
        if-Kept c.done _ _
          (λ set. (
            l,
            move memo_of s l t i (take_value c.value) (rw (e, owns-take_value) refl)
                (take_value-Good c n c.value set refl ((t.fair (memo_of i)).finished set).1),
          ))
          (λ clear.
            if-Kept (same c.owner (some th)) _ _
              (λ own. (l, move memo_of s l t i cycle (rw e refl) tt)) (λ other. (l, t)))
    step-IsTidy th r spurious (returned v) e g = (l, t)
    step-IsTidy th r spurious missing e g = (l, t)
    step-IsTidy th r spurious cycle e g = (l, t)

  module _ (thread_of : ℕ → ℕ) where
    pub run-IsTidy :
        (schedule : List (ℕ × ℕ × Bool)) (s : Memos)
        → Kept s
        → Kept (memo_run memo_of thread_of schedule s)
    unfolding memo_run
    run-IsTidy [] s k = k
    run-IsTidy ((i, r, spurious) ∷ schedule) s (l, t) =
        run-IsTidy schedule _
          (step-IsTidy s l t i (thread_of i) r spurious (s.calls i) refl (t.good i))

    pub start-IsTidy : Kept start
    start-IsTidy = (
      [],
      record {
        chain = refl;
        fair = λ m. record {
          most = omega arith;
          unclaimed = λ free. (refl, refl);
          finished = λ set. absurd (cc);
        };
        good = λ i. tt;
        single = λ i j oi. absurd (cc);
        linked = λ m one. absurd (omega arith);
      },
    )
