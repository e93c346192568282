-- ===== src/RefCount.antt =====
-- rc2/support/rc2/idris2rc2_memory.h: the updates of a reference count, a `uint16_t` in the
-- header of each heap object, while the program has one thread.
pub mod Batch
pub mod Threads
mod Examples
use idris2_rc.Prelude.{
  ℕ, suc, ◌+◌, ◌-◌, ◌<◌, ◌≡◌, refl, arith, Bool, true, false, u16, ltb, ◌==◌, if◌then◌else◌,
}

-- `IDRIS2RC2_REFCOUNT_MAX`, the count of an immortal object.
abbrev pub refcount_max : ℕ
refcount_max = 65535

-- What `idris2rc2_rc_release` leaves in the header, and what it returns.
pub record Released : Type 0 where
  pub rc : ℕ
  pub last : Bool

unfoldable pub rc_release : ℕ → Released
rc_release c =
    if c == refcount_max
    then record { rc = c; last = false }
    else record { rc = u16 (c + 65535); last = c == 1 }

unfoldable pub rc_dup : ℕ → ℕ
rc_dup c = if c == refcount_max then c else u16 (c + 1)

-- `cur > IDRIS2RC2_REFCOUNT_MAX - n` compares as `int`, so no side wraps.
unfoldable pub rc_dup_n : ℕ → ℕ → ℕ
rc_dup_n c n =
    if c == refcount_max then c else if ltb refcount_max (c + n) then refcount_max else u16 (c + n)

pub rc_release-max : rc_release refcount_max ≡ record { rc = refcount_max; last = false }
unfolding rc_release
rc_release-max = refl

pub rc_release_shared :
    (n : ℕ)
    → suc (suc n) < refcount_max
    → rc_release (suc (suc n)) ≡ record { rc = suc n; last = false }
unfolding rc_release
rc_release_shared n h = ground arith

pub rc_release-one : rc_release 1 ≡ record { rc = 0; last = true }
unfolding rc_release
rc_release-one = refl
