-- ===== src/Lazy.antt =====
-- `idris2rc2_force` of rc2/support/rc2/idris2rc2_rt.c on one lazy cell, by any number of threads at
-- once, each of which forces the cell from outside of its own closure. A step is what a thread does
-- between two points where another can come in: the two reads before the lock, each section under the
-- lock, and the run of the closure, whose result may be another value in each thread. A thread that
-- finds the lock taken tries again. The stores of the result and of the flag, the unlock and the drop of
-- the cell's closure are steps of their own, since the first read takes no lock.
pub mod Agree
mod Examples
use idris2_rc.Prelude.{
  ℕ, zero, suc, Bool, true, false, List, [], ◌∷◌, Option, none, some, ◌==◌, if◌then◌else◌,
}

-- Where a thread is: before the first read of the flag; behind it, with the flag set or not; while
-- the closure runs; with its result; behind the store of the result, and behind that of the flag, both
-- under the lock; behind the unlock, before the drop of the cell's closure; and back with a value, or
-- with the closure taken for one.
pub data Phase : Type 0 where
  entering : Phase
  evaluated : Phase
  locking : Phase
  running : Phase
  returned : ℕ → Phase
  storing : ℕ → Phase
  flagged : ℕ → Phase
  unlocked : ℕ → Phase
  forced : ℕ → Phase
  misread : Phase

-- The cell: `reserved`, `av` (`none` is the closure), the lock with its holder, and how often the
-- cell's reference to the closure has been dropped.
pub record LazyState : Type 0 where
  pub reserved : Bool
  pub av : Option ℕ
  pub lock : Option ℕ
  pub closure_drops : ℕ
  pub threads : ℕ → Phase

unfoldable pub at_phase : ℕ → Phase → LazyState → LazyState
at_phase i p s = record s { threads = λ k. if k == i then p else s.threads k }

-- The value of the cell, for a thread that has seen the flag.
abbrev pub take_value : Option ℕ → Phase
take_value none = misread
take_value (some v) = forced v

-- The first section under the lock, and the second.
unfoldable pub first_section : LazyState → Option ℕ → Phase
first_section s none = if s.reserved then take_value s.av else running
first_section s (some holder) = locking

unfoldable pub second_section : ℕ → ℕ → LazyState → Option ℕ → LazyState
unfolding at_phase
second_section i r s none =
    if s.reserved
    then at_phase i (take_value s.av) s
    else at_phase i (storing r) (record s { av = some r; lock = some i })
second_section i r s (some holder) = s

-- The thread `i` takes its next step; if its closure runs, it gives `result`.
unfoldable pub force_step : (i result : ℕ) → Phase → LazyState → LazyState
unfolding at_phase first_section second_section
force_step i result entering s = at_phase i (if s.reserved then evaluated else locking) s
force_step i result evaluated s = at_phase i (take_value s.av) s
force_step i result locking s = at_phase i (first_section s s.lock) s
force_step i result running s = at_phase i (returned result) s
force_step i result (returned r) s = second_section i r s s.lock
force_step i result (storing r) s = at_phase i (flagged r) (record s { reserved = true })
force_step i result (flagged r) s = at_phase i (unlocked r) (record s { lock = none })
force_step i result (unlocked r) s =
    at_phase i (forced r) (record s { closure_drops = suc s.closure_drops })
force_step i result (forced v) s = s
force_step i result misread s = s

-- An interleaving: the thread that moves and the result it would give, at each point in time.
unfoldable pub force_run : List (ℕ × ℕ) → LazyState → LazyState
force_run [] s = s
force_run ((i, r) ∷ schedule) s = force_run schedule (force_step i r (s.threads i) s)

-- A new cell, which every thread is about to force.
abbrev pub mk_lazy : LazyState
mk_lazy = record {
  reserved = false;
  av = none;
  lock = none;
  closure_drops = 0;
  threads = λ k. entering;
}
