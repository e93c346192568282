-- ===== src/RefCount/Batch.antt =====
-- `idris2rc2_dup_n` against repeated `idris2rc2_dup`.
use idris2_rc.Prelude.{ℕ, zero, suc, ◌+◌, ◌≤◌, ◌≡◌, arith}
use idris2_rc.RefCount.{refcount_max, rc_dup, rc_dup_n}

pub dup_times : ℕ → ℕ → ℕ
dup_times zero c = c
dup_times (suc n) c = dup_times n (rc_dup c)

-- A batched increment has the effect of so many single ones: it never wraps, and it stops at the
-- count of an immortal object.
pub rc_dup_n-dup_times : (c n : ℕ) → c ≤ refcount_max → rc_dup_n c n ≡ dup_times n c
unfolding rc_dup_n dup_times rc_dup
rc_dup_n-dup_times c zero h = ground arith
rc_dup_n-dup_times c (suc n) h =
    ground (arith, rc_dup_n-dup_times (c + 1) n, rc_dup_n-dup_times c n)
