-- ===== src/Memo.antt =====
-- rc2/support/rc2/idris2rc2_caf_memoize.c and the boxed part of its header: top-level values that
-- are computed once, by whichever call claims them, and the list of them that the end of the
-- program drops. A call evaluates one memo on one thread; a thread can have several calls, one within
-- another. A step is what a call does between two points where another can come in. The result of
-- the evaluation, and whether a weak compare-and-swap fails with no reason, may be any. The counts of
-- the values are left out.
pub mod Tidy
pub mod Steps
pub mod Keeps
pub mod Laws
mod Examples
use idris2_rc.Prelude.{
  ℕ, zero, suc, Bool, true, false, not, ◌&&◌, List, [], ◌∷◌, Option, none, some, ◌==◌,
  if◌then◌else◌,
}

-- Where a call is: before the test-and-set of `claimed`; with the claim, before it leaves its mark;
-- in the evaluation; with the result, before it is stored; then in the push on the cleanup list, before
-- the head is read, before `cleanup_next` is written and before the compare-and-swap; before `done` is
-- set; in the busy-wait; and back with a value, with no value to take, or with the message that the
-- value depends on itself.
pub data Phase : Type 0 where
  entering owning computing : Phase
  storing loading : ℕ → Phase
  linking swapping : ℕ → Option ℕ → Phase
  publishing : ℕ → Phase
  waiting : Phase
  returned : ℕ → Phase
  missing cycle : Phase

-- `idris2rc2_memo_boxed`. A mark is the thread's name, and a memo's address is its name.
pub record Memo : Type 0 where
  pub claimed : Bool
  pub done : Bool
  pub owner : Option ℕ
  pub value : Option ℕ
  pub cleanup_next : Option ℕ

-- The memos, `idris2rc2_memo_boxed_cleanupHead`, and where each call is.
pub record Memos : Type 0 where
  pub memos : ℕ → Memo
  pub head : Option ℕ
  pub calls : ℕ → Phase

-- Two pointers are the same.
abbrev pub same : Option ℕ → Option ℕ → Bool
same none none = true
same (some a) (some b) = a == b
same a b = false

abbrev pub take_value : Option ℕ → Phase
take_value none = missing
take_value (some v) = returned v

-- `IDRIS2RC2_MEMO_BOXED_INIT`, and the start of the program.
abbrev pub fresh : Memo
fresh = record { claimed = false; done = false; owner = none; value = none; cleanup_next = none }

abbrev pub start : Memos
start = record { memos = λ m. fresh; head = none; calls = λ i. entering }

unfoldable pub at_call : ℕ → Phase → Memos → Memos
at_call i p s = record s { calls = λ k. if k == i then p else s.calls k }

unfoldable pub at_memo : ℕ → Memo → Memos → Memos
at_memo m c s = record s { memos = λ k. if k == m then c else s.memos k }

-- `idris2rc2_memo_boxed_claim`, up to the mark.
unfoldable pub claim : (i m : ℕ) → Memos → Memos
unfolding at_call at_memo
claim i m s =
    let c = s.memos m in
    if c.claimed
    then at_call i waiting s
    else at_call i owning (at_memo m (record c { claimed = true }) s)

-- A round of the loop of `idris2rc2_memo_boxed_wait`.
unfoldable pub wait_round : (i m t : ℕ) → Memos → Memos
unfolding at_call
wait_round i m t s =
    let c = s.memos m in
    if c.done
    then at_call i (take_value c.value) s
    else if same c.owner (some t)
    then at_call i cycle s
    else s

-- The compare-and-swap of the push: if it fails, it has read the head anew.
unfoldable pub exchange : (i m r : ℕ) → Option ℕ → (spurious : Bool) → Memos → Memos
unfolding at_call
exchange i m r old spurious s =
    if same s.head old && not spurious
    then at_call i (publishing r) (record s { head = some m })
    else at_call i (linking r s.head) s

-- The call `i` of the memo `m`, on the thread `t`, takes its next step.
unfoldable pub memo_step : (i m t result : ℕ) (spurious : Bool) → Phase → Memos → Memos
unfolding at_call at_memo claim wait_round exchange
memo_step i m t result spurious entering s = claim i m s
memo_step i m t result spurious owning s =
    let c = s.memos m in at_call i computing (at_memo m (record c { owner = some t }) s)
memo_step i m t result spurious computing s = at_call i (storing result) s
memo_step i m t result spurious (storing r) s =
    let c = s.memos m in at_call i (loading r) (at_memo m (record c { value = some r }) s)
memo_step i m t result spurious (loading r) s = at_call i (linking r s.head) s
memo_step i m t result spurious (linking r old) s =
    let c = s.memos m in at_call i (swapping r old) (at_memo m (record c { cleanup_next = old }) s)
memo_step i m t result spurious (swapping r old) s = exchange i m r old spurious s
memo_step i m t result spurious (publishing r) s =
    let c = s.memos m in at_call i (returned r) (at_memo m (record c { done = true }) s)
memo_step i m t result spurious waiting s = wait_round i m t s
memo_step i m t result spurious (returned r) s = s
memo_step i m t result spurious missing s = s
memo_step i m t result spurious cycle s = s

-- An interleaving: the call that moves at each point in time, the result it would give, and whether
-- its compare-and-swap fails with no reason. `memo_of` and `thread_of` say which memo a call
-- evaluates, and where.
unfoldable pub memo_run : (memo_of thread_of : ℕ → ℕ) → List (ℕ × ℕ × Bool) → Memos → Memos
memo_run memo_of thread_of [] s = s
memo_run memo_of thread_of ((i, r, spurious) ∷ schedule) s =
    memo_run memo_of thread_of schedule
      (memo_step i (memo_of i) (thread_of i) r spurious (s.calls i) s)

-- `idris2rc2_memo_boxed_dropAll`: the memos whose value is dropped, in this order.
unfoldable pub drop_all : (fuel : ℕ) → (ℕ → Memo) → Option ℕ → Option (List ℕ)
drop_all zero memos head = none
drop_all (suc fuel) memos none = some []
drop_all (suc fuel) memos (some m) = elim (drop_all fuel memos (memos m).cleanup_next) [
  | none ↦ none
  | some ms ↦ some (m ∷ ms)
]
