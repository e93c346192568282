-- ===== src/Memo/Laws.antt =====
-- What the invariant of every run says of the values and of the cleanup list.
use idris2_rc.Prelude.{
  ℕ, suc, ◌+◌, ◌≡◌, ◌≢◌, ◌⊎◌, inl, inr, refl, sym, ap, ◌∙◌, Bool, false, List, [], ◌∷◌, Option,
  none, some, arith, if◌then◌else◌, Bool-cases, length, eq_of_some, zero-add, suc-add, ℕ_discrete,
}
use idris2_rc.Memo.{computing, returned, missing, Memo, memo_run, start, drop_all}
use idris2_rc.Memo.Tidy.{count, owns, Chain}
use idris2_rc.Memo.Keeps.{run-IsTidy, start-IsTidy}

drop_all-Chain :
    (memos : ℕ → Memo) (head : Option ℕ) (l : List ℕ) (extra : ℕ)
    → Chain memos head l
    → drop_all (length l + suc extra) memos head ≡ some l
unfolding drop_all
drop_all-Chain memos head [] extra e = rw (zero-add, e)
drop_all-Chain memos head (m ∷ l) extra (e, c) =
    rw (suc-add, e)
      (ap (λ (o : Option (List ℕ)). elim o [ none ↦ none | some ms ↦ some (m ∷ ms) ])
        (drop_all-Chain memos (memos m).cleanup_next l extra c))

module _ (memo_of : ℕ → ℕ) (thread_of : ℕ → ℕ) where
  -- However the steps of the calls interleave, and whatever value each of them would compute: two
  -- calls of one memo that have returned got the same value, and no call finds a memo that is done
  -- and has no value.
  pub memo_run-agree :
      (schedule : List (ℕ × ℕ × Bool)) (i j k v w : ℕ)
      → memo_of i ≡ memo_of j
      → (memo_run memo_of thread_of schedule start).calls i ≡ returned v
      → (memo_run memo_of thread_of schedule start).calls j ≡ returned w
      → (v ≡ w) × ((memo_run memo_of thread_of schedule start).calls k ≢ missing)
  memo_run-agree schedule i j k v w at ei ej =
      let (l, t) = run-IsTidy memo_of thread_of schedule start (start-IsTidy memo_of thread_of) in
      let (set, a) = rw ei at (t.good i) in
      let (set', b) = rw ej at (t.good j) in
      (eq_of_some (sym a ∙ rw at b), λ e. let g = rw e at (t.good k) in cc)

  -- While a call evaluates a memo, no other call of the memo evaluates it, has a result that it is
  -- about to store or to publish, or has returned.
  pub memo_run-once :
      (schedule : List (ℕ × ℕ × Bool)) (i j : ℕ)
      → memo_of i ≡ memo_of j
      → (memo_run memo_of thread_of schedule start).calls i ≡ computing
      → (i ≡ j)
        ⊎ (owns ((memo_run memo_of thread_of schedule start).calls j) ≡ false)
          × ((w : ℕ) → (memo_run memo_of thread_of schedule start).calls j ≢ returned w)
  memo_run-once schedule i j at ei =
      let (l, t) = run-IsTidy memo_of thread_of schedule start (start-IsTidy memo_of thread_of) in
      let s = memo_run memo_of thread_of schedule start in
      elim (Bool-cases (owns (s.calls j))) [
        | inl busy ↦ inl (t.single i j (rw ei refl) busy at)
        | inr idle ↦ inr (
          idle,
          λ w e.
              let undone = (rw ei at (t.good i)).1 in
              let set = (rw e at (t.good j)).0 in absurd (let set' = rw (← at) at set in cc),
        )
      ]

  -- When all calls are over: the walk that drops the values ends within a fuel of the memos on the
  -- list and one, and it drops the value of each memo that is done once and of no other memo.
  pub memo_run-drop_all :
      (schedule : List (ℕ × ℕ × Bool)) (extra : ℕ)
      → ((i : ℕ) → owns ((memo_run memo_of thread_of schedule start).calls i) ≡ false)
      → (dropped : List ℕ) × (drop_all
            (length dropped + suc extra)
            (memo_run memo_of thread_of schedule start).memos
            (memo_run memo_of thread_of schedule start).head
          ≡ some dropped)
        × ((m : ℕ)
            → count m dropped
              ≡ (if ((memo_run memo_of thread_of schedule start).memos m).done then 1 else 0))
  memo_run-drop_all schedule extra over =
      let (l, t) = run-IsTidy memo_of thread_of schedule start (start-IsTidy memo_of thread_of) in
      let s = memo_run memo_of thread_of schedule start in
      (
        l,
        drop_all-Chain s.memos s.head l extra t.chain,
        λ m. elim (Bool-cases (s.memos m).done) [
          | inl set ↦ rw set ((t.fair m).finished set).0
          | inr clear ↦ rw clear (elim (ℕ_discrete (count m l) 1) [
            | yes one ↦ elim (t.linked m one) [
              | inl set ↦ absurd (cc)
              | inr (j, at, busy) ↦ let idle = over j in absurd (cc)
            ]
            | no ne ↦ let le = (t.fair m).most in omega arith
          ])
        ],
      )
