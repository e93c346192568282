-- ===== src/Closure.antt =====
-- rc2/support/rc2/idris2rc2_rt.c: the application of closures. A value is a closure or anything
-- else, without counts: what `idris2rc2_isUnique` answers is the parameter `unique`, and the
-- dups and drops that go with each answer are not part of this model. The compiled functions,
-- which the backend generates, are the parameter `call`. Fuel counts the calls of such functions.
pub mod Laws
mod Examples
use idris2_rc.Prelude.{ℕ, zero, suc, ◌+◌, ◌-◌, Bool, ◌&&◌, not, u8, ltb, leb, ◌==◌, if◌then◌else◌}
use idris2_rc.Prelude.Run.{Run, ok, fault, out_of_fuel, ◌>>=◌}

mutual
  -- `closure fn arity args`: as many arguments are `filled` as the list has.
  pub data Val : Type 0 where
    other : ℕ → Val
    closure : (fn arity : ℕ) → Vals → Val

  pub data Vals : Type 0 where
    none_left : Vals
    arg : Val → Vals → Vals

unfoldable pub count : Vals → ℕ
count none_left = 0
count (arg v vs) = suc (count vs)

unfoldable pub append : Vals → Vals → Vals
append none_left ws = ws
append (arg v vs) ws = arg v (append vs ws)

-- The first `n` items of an array.
unfoldable pub first : ℕ → Vals → Vals
first zero vs = none_left
first (suc n) none_left = none_left
first (suc n) (arg v vs) = arg v (first n vs)

abbrev pub one : Val → Vals
one v = arg v none_left

-- In place there is room for `arity` arguments; the copy has the same room.
unfoldable pub tailcall_apply_closure : Val → Val → Run Val
tailcall_apply_closure (other n) v = fault
tailcall_apply_closure (closure fn arity args) v =
    if ltb (count args) arity then ok (closure fn arity (append args (one v))) else fault

module _ (call : ℕ → Vals → Val) where
  -- The cases of the `switch` pass `xs[0]` up to `xs[arity - 1]`, and the default passes the
  -- array, of which the function reads as many.
  unfoldable pub dispatch_fn : (fn arity : ℕ) → Vals → Val
  dispatch_fn fn arity xs = call fn (first arity xs)

  -- `idris2rc2_dispatchWithExtra`: `c->args[0]` up to `c->args[arity - 2]`, then `arg`.
  unfoldable pub dispatch_with_extra : (fn arity : ℕ) (xs : Vals) → Val → Val
  dispatch_with_extra fn arity xs v = call fn (append (first (arity - 1) xs) (one v))

  unfoldable pub trampoline : ℕ → Val → Run Val
  trampoline fuel (other n) = ok (other n)
  trampoline zero (closure fn arity args) =
      if ltb (count args) arity then ok (closure fn arity args) else out_of_fuel
  trampoline (suc fuel) (closure fn arity args) =
      let rest = trampoline fuel (dispatch_fn fn arity args) in
      if ltb (count args) arity then ok (closure fn arity args) else rest

  unfoldable pub run_with_extra : (fuel fn arity : ℕ) (xs : Vals) → Val → Run Val
  run_with_extra zero fn arity xs v = out_of_fuel
  run_with_extra (suc fuel) fn arity xs v = trampoline fuel (dispatch_with_extra fn arity xs v)

  unfoldable pub run_with_all : (fuel fn arity : ℕ) → Vals → Run Val
  run_with_all zero fn arity xs = out_of_fuel
  run_with_all (suc fuel) fn arity xs = trampoline fuel (dispatch_fn fn arity xs)

module _ (call : ℕ → Vals → Val) (unique : Val → Bool) where
  unfoldable pub apply_closure : ℕ → Val → Val → Run Val
  apply_closure fuel (other n) v = fault
  apply_closure fuel (closure fn arity args) v =
      if not (unique (closure fn arity args))
        && arity - count args == 1
        && leb 1 arity
        && leb arity 20
      then run_with_extra call fuel fn arity args v
      else tailcall_apply_closure (closure fn arity args) v >>= λ it. trampoline call fuel it

  -- The last loop of `idris2rc2_applyClosureN`.
  unfoldable pub apply_loop : ℕ → Val → Vals → Run Val
  apply_loop fuel it none_left = ok it
  apply_loop fuel it (arg v vs) = apply_closure fuel it v >>= λ it'. apply_loop fuel it' vs

  -- `n` is the number of the new arguments.
  unfoldable pub apply_closure_n : ℕ → Val → Vals → Run Val
  apply_closure_n fuel (other n) new = fault
  apply_closure_n fuel (closure fn arity args) new =
      let remaining = u8 (arity + 256 - count args) in
      if count new == remaining && leb 1 arity && leb arity 20
      then run_with_all call fuel fn arity (append args new)
      else if ltb (count new) remaining
      then ok (closure fn arity (append args new))
      else apply_loop fuel (closure fn arity args) new
