-- ===== src/RefCount/Examples.antt =====
-- Interleavings of `idris2rc2_dup` on a shared count.
use idris2_rc.Prelude.{ℕ, ◌+◌, ◌≡◌, refl, List, [], ◌∷◌, arith}
use idris2_rc.RefCount.Threads.{State, loading, finished, step, run, pending, run-exact}

abbrev shared : ℕ → State
shared c = record { ref_count = c; threads = loading ∷ loading ∷ [] }

abbrev together : List ℕ
together = 0 ∷ 1 ∷ 0 ∷ 1 ∷ []

-- Both threads pass the test before either of them adds, and the count wraps to 0.
both_pass :
    run together (shared 65534) ≡ record { ref_count = 0; threads = finished ∷ finished ∷ [] }
unfolding run step
both_pass = refl

run-exact_example :
    (run together (shared 65533)).ref_count + pending (run together (shared 65533)).threads
    ≡ 65533 + pending (loading ∷ loading ∷ [])
run-exact_example = run-exact together (shared 65533) (unfold pending in omega arith)
