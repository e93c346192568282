-- ===== src/Closure/Examples.antt =====
-- A closure of two arguments that is applied to three.
use idris2_rc.Prelude.{ℕ, zero, suc, ◌≡◌, refl, true, false, arith}
use idris2_rc.Prelude.Run.{ok}
use idris2_rc.Closure.{
  Val, Vals, other, closure, none_left, arg, count, one, append, first, dispatch_fn,
  dispatch_with_extra, trampoline, run_with_all, apply_loop, apply_closure_n, apply_closure,
  tailcall_apply_closure, run_with_extra,
}
use idris2_rc.Closure.Laws.{apply_closure_n-loop}

-- Function 0 gives a closure of function 1 that waits for one argument; any other function gives
-- the first argument.
head_or : Vals → Val
head_or none_left = other 0
head_or (arg v vs) = v

abbrev call : ℕ → Vals → Val
call zero vs = closure 1 1 none_left
call (suc n) vs = head_or vs

abbrev two_three : Vals
two_three = arg (other 2) (one (other 3))

three_args :
    apply_closure_n call (λ c. false) 5 (closure 0 2 none_left) (arg (other 1) two_three)
    ≡ ok (other 3)
unfolding apply_closure_n apply_loop apply_closure tailcall_apply_closure run_with_extra trampoline
    dispatch_fn dispatch_with_extra run_with_all count append first head_or
three_args = refl

apply_closure_n-loop_example :
    apply_closure_n call (λ c. true) 5 (closure 0 2 none_left) (arg (other 1) two_three)
    ≡ apply_loop call (λ c. false) 5 (closure 0 2 none_left) (arg (other 1) two_three)
apply_closure_n-loop_example =
    apply_closure_n-loop call (λ c. true) (λ c. false) 5 0 2 none_left (arg (other 1) two_three)
      (omega arith) (unfold count in omega arith)
