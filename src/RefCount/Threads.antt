-- ===== src/RefCount/Threads.antt =====
-- `idris2rc2_dup` once the program has several threads: a relaxed load, a test, and an atomic add
-- are two separate steps, between which other threads run. Each thread duplicates the object once.
use idris2_rc.Prelude.{
  ℕ, zero, suc, ◌+◌, ◌≤◌, ◌≡◌, refl, ◌∙◌, false, List, [], ◌∷◌, arith, u16, ◌==◌, if◌then◌else◌,
}
use idris2_rc.RefCount.{refcount_max}

-- A thread before the load, between the load and the add, and after its `idris2rc2_dup`.
pub data Thread : Type 0 where
  loading adding finished : Thread

pub record State : Type 0 where
  pub ref_count : ℕ
  pub threads : List Thread

-- The thread at the index takes its next step.
unfoldable pub step : (i c : ℕ) → List Thread → State
step i c [] = record { ref_count = c; threads = [] }
step zero c (loading ∷ ts) = record {
  ref_count = c;
  threads = (if c == refcount_max then finished else adding) ∷ ts;
}
step zero c (adding ∷ ts) = record { ref_count = u16 (c + 1); threads = finished ∷ ts }
step zero c (finished ∷ ts) = record { ref_count = c; threads = finished ∷ ts }
step (suc i) c (t ∷ ts) = let s = step i c ts in record s { threads = t ∷ s.threads }

-- An interleaving: the index of the thread that moves, at each point in time.
unfoldable pub run : (schedule : List ℕ) → State → State
run [] s = s
run (i ∷ is) s = run is (step i s.ref_count s.threads)

unfoldable pub pending : List Thread → ℕ
pending [] = 0
pending (loading ∷ ts) = suc (pending ts)
pending (adding ∷ ts) = suc (pending ts)
pending (finished ∷ ts) = pending ts

step-exact :
    (i c : ℕ) (ts : List Thread)
    → c + pending ts ≤ refcount_max
    → (step i c ts).ref_count + pending (step i c ts).threads ≡ c + pending ts
unfolding step pending
step-exact i c [] h = refl
step-exact zero c (loading ∷ ts) h =
    let below : (c == refcount_max) ≡ false = ground arith in rw below
step-exact zero c (adding ∷ ts) h = omega arith
step-exact zero c (finished ∷ ts) h = refl
step-exact (suc i) c (loading ∷ ts) h = omega (arith, step-exact i c ts (omega arith))
step-exact (suc i) c (adding ∷ ts) h = omega (arith, step-exact i c ts (omega arith))
step-exact (suc i) c (finished ∷ ts) h = omega (arith, step-exact i c ts h)

-- While the count and the threads that are not done stay within the maximum, no interleaving of
-- the steps loses a duplication or wraps the count: the count and the threads that are still to
-- finish always make the same sum.
pub run-exact :
    (schedule : List ℕ) (s : State)
    → s.ref_count + pending s.threads ≤ refcount_max
    → (run schedule s).ref_count + pending (run schedule s).threads
      ≡ s.ref_count + pending s.threads
unfolding run
run-exact [] s h = refl
run-exact (i ∷ is) s h =
    let e = step-exact i s.ref_count s.threads h in
    run-exact is (step i s.ref_count s.threads) (omega (arith, e)) ∙ e
