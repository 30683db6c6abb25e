-- ===== src/Latch.antt =====
-- corelib/JacksLatch.c: a one-bit latch under a mutex and a condition variable. Here are the calls
-- made by one thread alone; `Threads` has the calls of many threads, a shared access at a time.
pub mod Threads
pub mod Invariant
pub mod Safety
pub mod Refinement
mod Tests
use jacks.Prelude.{ℕ, suc, ◌≡◌, Bool, Option, none, some, ◌==◌, if◌then◌else◌, ℤ, pos}
use jacks.Memory.{Fault, assert_failed, Outcome, ok, fault, ◌>>=◌, Ptr, Store, load, save, release}

abbrev pub not_posted : ℕ
not_posted = 0

abbrev pub posted : ℕ
posted = 1

-- `struct JacksLatch`; its mutex and condition variable are free between two calls of one thread.
pub record Latch : Type 0 where
  pub status : ℕ

-- `JacksLatch_new`; the argument says whether malloc succeeds.
unfoldable pub new : Bool → Option Latch
new room = if room then some (record { status = not_posted }) else none

-- `JacksLatch_get`. `none`: the thread stays in `pthread_cond_wait`.
unfoldable pub get : Latch → Option (ℤ × Latch)
get l = if l.status == posted then some (pos 0, record l { status = not_posted }) else none

-- `JacksLatch_post`
unfoldable pub post : Ptr → Store Latch → Outcome (ℤ × Store Latch)
post p m = do l ← load m p; m' ← save m p (record l { status = posted }); ok (pos 0, m')

-- `JacksLatch_free`
unfoldable pub free : Ptr → Store Latch → Outcome (Store Latch)
free p m = elim p [ none ↦ fault assert_failed | some a ↦ release m (some a) ]
