-- ===== src/Closure/Laws.antt =====
-- Applying a closure to several arguments at once, against one argument after another.
use idris2_rc.Prelude.{
  ℕ, zero, suc, ◌+◌, ◌-◌, ◌≤◌, ◌<◌, ◌≡◌, refl, sym, ap, ◌∙◌, inl, inr, Bool, true, false, not, ◌&&◌,
  arith, ltb, leb, ◌==◌, u8, Bool-cases,
}
use idris2_rc.Prelude.Run.{Run, ok, out_of_fuel, fault, ◌>>=◌}
use idris2_rc.Closure.{
  Val, Vals, other, closure, none_left, arg, count, append, first, one, dispatch_fn,
  dispatch_with_extra, trampoline, tailcall_apply_closure, run_with_extra, apply_closure,
  apply_loop, run_with_all, apply_closure_n,
}

count-arg : (v : Val) (vs : Vals) → count (arg v vs) ≡ suc (count vs)
unfolding count
count-arg v vs = refl

count-one : (vs : Vals) (v : Val) → count (append vs (one v)) ≡ suc (count vs)
unfolding count append
count-one none_left v = refl
count-one (arg w vs) v = ap suc (count-one vs v)

append_assoc : (us vs ws : Vals) → append (append us vs) ws ≡ append us (append vs ws)
unfolding append
append_assoc none_left vs ws = refl
append_assoc (arg u us) vs ws = ap (λ t. arg u t) (append_assoc us vs ws)

append-nothing : (vs : Vals) → append vs none_left ≡ vs
unfolding append
append-nothing none_left = refl
append-nothing (arg v vs) = ap (λ t. arg v t) (append-nothing vs)

first-count : (n : ℕ) (vs : Vals) → n ≡ count vs → first n vs ≡ vs
unfolding first count
first-count zero none_left h = refl
first-count zero (arg v vs) h = absurd (omega arith)
first-count (suc n) none_left h = refl
first-count (suc n) (arg v vs) h = ap (λ t. arg v t) (first-count n vs (omega arith))

module _ (call : ℕ → Vals → Val) where
  trampoline-full :
      (fuel fn arity : ℕ) (args : Vals)
      → arity ≤ count args
      → trampoline call fuel (closure fn arity args) ≡ run_with_all call fuel fn arity args
  unfolding trampoline run_with_all
  trampoline-full zero fn arity args h = rw (full_lem (count args) arity h)
    where
      full_lem : (n m : ℕ) → m ≤ n → ltb n m ≡ false
      full_lem n m h = ground arith
  trampoline-full (suc fuel) fn arity args h = rw (full_lem (count args) arity h)
    where
      full_lem : (n m : ℕ) → m ≤ n → ltb n m ≡ false
      full_lem n m h = ground arith

  trampoline-partial :
      (fuel fn arity : ℕ) (args : Vals)
      → count args < arity
      → trampoline call fuel (closure fn arity args) ≡ ok (closure fn arity args)
  unfolding trampoline
  trampoline-partial zero fn arity args h =
      let partial : ltb (count args) arity ≡ true = ground arith in rw partial
  trampoline-partial (suc fuel) fn arity args h =
      let partial : ltb (count args) arity ≡ true = ground arith in rw partial

  run_with_extra-all :
      (fuel fn arity : ℕ) (args : Vals) (v : Val)
      → suc (count args) ≡ arity
      → run_with_extra call fuel fn arity args v
        ≡ run_with_all call fuel fn arity (append args (one v))
  unfolding run_with_extra run_with_all dispatch_with_extra dispatch_fn
  run_with_extra-all zero fn arity args v h = refl
  run_with_extra-all (suc fuel) fn arity args v h = rw (
    first-count (arity - 1) args (omega arith),
    first-count arity (append args (one v)) (omega (arith, count-one args v)),
  )

  -- What one application does, whatever `isUnique` answers: it runs the function when the last
  -- argument arrives, and grows the closure before.
  apply_closure-last :
      (unique : Val → Bool) (fuel fn arity : ℕ) (args : Vals) (v : Val)
      → suc (count args) ≡ arity
      → apply_closure call unique fuel (closure fn arity args) v
        ≡ run_with_all call fuel fn arity (append args (one v))
  unfolding apply_closure tailcall_apply_closure
  apply_closure-last unique fuel fn arity args v h =
      let room : ltb (count args) arity ≡ true = ground arith in
      elim (Bool-cases (
        not (unique (closure fn arity args))
        && arity - count args == 1
        && leb 1 arity
        && leb arity 20)) [
          | inl direct ↦ rw direct (run_with_extra-all fuel fn arity args v h)
          | inr grown ↦
              rw (grown, room)
                (trampoline-full fuel fn arity (append args (one v))
                  (omega (arith, count-one args v)))
        ]

  apply_closure-grows :
      (unique : Val → Bool) (fuel fn arity : ℕ) (args : Vals) (v : Val)
      → suc (count args) < arity
      → apply_closure call unique fuel (closure fn arity args) v
        ≡ ok (closure fn arity (append args (one v)))
  unfolding apply_closure tailcall_apply_closure
  apply_closure-grows unique fuel fn arity args v h =
      let room : ltb (count args) arity ≡ true = ground arith in
      elim (Bool-cases (
        not (unique (closure fn arity args))
        && arity - count args == 1
        && leb 1 arity
        && leb arity 20)) [
          | inl direct ↦ absurd (ground arith)
          | inr grown ↦
              rw (grown, room)
                (trampoline-partial fuel fn arity (append args (one v))
                  (omega (arith, count-one args v)))
        ]

  apply_closure_unique :
      (unique unique' : Val → Bool) (fuel : ℕ) (c v : Val)
      → apply_closure call unique fuel c v ≡ apply_closure call unique' fuel c v
  unfolding apply_closure tailcall_apply_closure
  apply_closure_unique unique unique' fuel (other n) v = refl
  apply_closure_unique unique unique' fuel (closure fn arity args) v =
      elim (Bool-cases (suc (count args) == arity)) [
        | inl last ↦
            apply_closure-last unique fuel fn arity args v (ground arith)
            ∙ sym (apply_closure-last unique' fuel fn arity args v (ground arith))
        | inr more ↦
            let not_last : (arity - count args == 1) ≡ false = ground arith in
            rw (
              not_last,
              and-false (not (unique (closure fn arity args))),
              and-false (not (unique' (closure fn arity args))),
            )
      ]
    where
      and-false : (b : Bool) → (b && false) ≡ false
      and-false true = refl
      and-false false = refl

  bind-cong : (r : Run Val) (f g : Val → Run Val) → ((x : Val) → f x ≡ g x) → (r >>= f) ≡ (r >>= g)
  bind-cong (ok x) f g h = h x
  bind-cong Run.abort f g h = refl
  bind-cong fault f g h = refl
  bind-cong out_of_fuel f g h = refl

  bind-ok : (r : Run Val) → (r >>= λ x. ok x) ≡ r
  bind-ok (ok x) = refl
  bind-ok Run.abort = refl
  bind-ok fault = refl
  bind-ok out_of_fuel = refl

  apply_loop_unique :
      (unique unique' : Val → Bool) (fuel : ℕ) (new : Vals) (it : Val)
      → apply_loop call unique fuel it new ≡ apply_loop call unique' fuel it new
  unfolding apply_loop
  apply_loop_unique unique unique' fuel none_left it = refl
  apply_loop_unique unique unique' fuel (arg v vs) it =
      rw (apply_closure_unique unique unique' fuel it v) (
        bind-cong (apply_closure call unique' fuel it v) _ _
          (λ x. apply_loop_unique unique unique' fuel vs x))

  module _ (unique : Val → Bool) (fuel fn arity : ℕ) where
    apply_loop-short :
        (new args : Vals)
        → count args + count new < arity
        → apply_loop call unique fuel (closure fn arity args) new
          ≡ ok (closure fn arity (append args new))
    unfolding apply_loop count
    apply_loop-short none_left args h = rw (append-nothing args) refl
    apply_loop-short (arg v vs) args h =
        rw (apply_closure-grows unique fuel fn arity args v (omega arith)) (
          apply_loop-short vs (append args (one v)) (omega (arith, count-one args v))
          ∙ ap (λ t. ok (closure fn arity t)) (unfold append in append_assoc args (one v) vs))

    apply_loop-exact :
        (v : Val) (vs args : Vals)
        → count args + suc (count vs) ≡ arity
        → apply_loop call unique fuel (closure fn arity args) (arg v vs)
          ≡ run_with_all call fuel fn arity (append args (arg v vs))
    unfolding apply_loop count
    apply_loop-exact v none_left args h =
        rw (apply_closure-last unique fuel fn arity args v (omega arith)) (bind-ok _)
    apply_loop-exact v (arg w ws) args h =
        rw (apply_closure-grows unique fuel fn arity args v (omega arith)) (
          apply_loop-exact w ws (append args (one v)) (omega (arith, count-one args v))
          ∙ ap (λ t. run_with_all call fuel fn arity t)
              (unfold append in append_assoc args (one v) (arg w ws)))

  -- Applying a closure that waits for arguments to several at once does what applying it, and then
  -- each result, to one after another does: too few arguments, exactly enough or too many, with
  -- the same calls of compiled functions, and whatever `idris2rc2_isUnique` answers on the way.
  pub apply_closure_n-loop :
      (unique unique' : Val → Bool) (fuel fn arity : ℕ) (args new : Vals)
      → arity < 256
      → count args < arity
      → apply_closure_n call unique fuel (closure fn arity args) new
        ≡ apply_loop call unique' fuel (closure fn arity args) new
  unfolding apply_closure_n
  apply_closure_n-loop unique unique' fuel fn arity args none_left h waits =
      let fewer : (0 == u8 (arity + 256 - count args)) ≡ false = ground arith in
      let some_left : ltb 0 (u8 (arity + 256 - count args)) ≡ true = ground arith in
      unfold count in rw (fewer, some_left, append-nothing args) (unfold apply_loop in refl)
  apply_closure_n-loop unique unique' fuel fn arity args (arg v vs) h waits =
      let left : u8 (arity + 256 - count args) ≡ arity - count args = omega arith in
      rw left
        (elim (Bool-cases (count (arg v vs) == arity - count args && leb 1 arity && leb arity 20)) [
          | inl whole ↦ rw whole (
              sym
                (apply_loop-exact unique' fuel fn arity v vs args (ground (arith, count-arg v vs))))
          | inr other_way ↦
              rw other_way (elim (Bool-cases (ltb (count (arg v vs)) (arity - count args))) [
                | inl short ↦
                    rw short
                      (sym (apply_loop-short unique' fuel fn arity (arg v vs) args (ground arith)))
                | inr long ↦
                    rw long
                      (apply_loop_unique unique unique' fuel (arg v vs) (closure fn arity args))
              ])
        ])
