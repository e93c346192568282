-- ===== src/Memo/Examples.antt =====
-- Two calls of one memo and one of another, with a compare-and-swap that fails and is tried again.
use idris2_rc.Prelude.{
  ℕ, zero, suc, ◌+◌, ◌≡◌, ◌≢◌, ◌⊎◌, refl, Bool, true, false, List, [], ◌∷◌, some, arith, ◌==◌,
  if◌then◌else◌, length,
}
use idris2_rc.Memo.{
  computing, returned, missing, cycle, start, at_call, at_memo, memo_step, memo_run, drop_all,
}
use idris2_rc.Memo.Tidy.{count, owns}
use idris2_rc.Memo.Laws.{memo_run-agree, memo_run-once, memo_run-drop_all}

abbrev memo_of : ℕ → ℕ
memo_of k = if k == 2 then 1 else 0

abbrev thread_of : ℕ → ℕ
thread_of k = k

abbrev won : ℕ
won = 5

-- Up to the evaluation of the first memo, and on to the end.
abbrev opening : List (ℕ × ℕ × Bool)
opening = (0, 0, false) ∷ (1, 0, false) ∷ (0, 0, false) ∷ []

abbrev race : List (ℕ × ℕ × Bool)
race =
    (0, 0, false)
    ∷ (1, 0, false)
    ∷ (0, 0, false)
    ∷ (2, 0, false)
    ∷ (0, 5, false)
    ∷ (2, 0, false)
    ∷ (2, 9, false)
    ∷ (2, 0, false)
    ∷ (0, 0, false)
    ∷ (0, 0, false)
    ∷ (2, 0, false)
    ∷ (2, 0, false)
    ∷ (2, 0, false)
    ∷ (0, 0, false)
    ∷ (0, 0, false)
    ∷ (0, 0, false)
    ∷ (0, 0, true)
    ∷ (0, 0, false)
    ∷ (0, 0, false)
    ∷ (1, 0, false)
    ∷ (0, 0, false)
    ∷ (1, 0, false)
    ∷ (2, 0, false)
    ∷ []

first_gets : (memo_run memo_of thread_of race start).calls 0 ≡ returned won
unfolding memo_run memo_step at_call at_memo
first_gets = refl

second_gets : (memo_run memo_of thread_of race start).calls 1 ≡ returned won
unfolding memo_run memo_step at_call at_memo
second_gets = refl

evaluates : (memo_run memo_of thread_of opening start).calls 0 ≡ computing
unfolding memo_run memo_step at_call at_memo
evaluates = refl

-- A value that depends on itself: the second call is within the first, on the same thread.
within_itself : (memo_run (λ k. 0) (λ k. 0) ((1, 0, false) ∷ opening) start).calls 0 ≡ cycle
unfolding memo_run memo_step at_call at_memo
within_itself = refl

drops :
    drop_all 3
      (memo_run memo_of thread_of race start).memos
      (memo_run memo_of thread_of race start).head
    ≡ some (0 ∷ 1 ∷ [])
unfolding memo_run memo_step at_call at_memo drop_all
drops = refl

-- The first call alone.
abbrev alone : List (ℕ × ℕ × Bool)
alone =
    (0, 0, false)
    ∷ (0, 0, false)
    ∷ (0, 5, false)
    ∷ (0, 0, false)
    ∷ (0, 0, false)
    ∷ (0, 0, false)
    ∷ (0, 0, false)
    ∷ (0, 0, false)
    ∷ []

alone_over : (i : ℕ) → owns ((memo_run memo_of thread_of alone start).calls i) ≡ false
unfolding memo_run memo_step at_call at_memo
alone_over zero = refl
alone_over (suc i) = ground arith

memo_run-agree_example : (won ≡ won) × ((memo_run memo_of thread_of race start).calls 2 ≢ missing)
memo_run-agree_example =
    memo_run-agree memo_of thread_of race 0 1 2 won won refl first_gets second_gets

memo_run-once_example :
    (◌≡◌ {A = ℕ} 0 1)
    ⊎ (owns ((memo_run memo_of thread_of opening start).calls 1) ≡ false)
      × ((w : ℕ) → (memo_run memo_of thread_of opening start).calls 1 ≢ returned w)
memo_run-once_example = memo_run-once memo_of thread_of opening 0 1 refl evaluates

memo_run-drop_all_example :
    (dropped : List ℕ) × (drop_all
        (length dropped + 1)
        (memo_run memo_of thread_of alone start).memos
        (memo_run memo_of thread_of alone start).head
      ≡ some dropped)
    × ((m : ℕ)
        → count m dropped
          ≡ (if ((memo_run memo_of thread_of alone start).memos m).done then 1 else 0))
memo_run-drop_all_example = memo_run-drop_all memo_of thread_of alone 0 alone_over
