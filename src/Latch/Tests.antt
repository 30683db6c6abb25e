-- ===== src/Latch/Tests.antt =====
-- JacksLatch.c: a run in which a thread sleeps, and another posts.
use jacks.Prelude.{ℕ, ◌≡◌, refl, true, none, some, arith, pos, ◌⊎◌}
use jacks.Memory.{fault, assert_failed, null_pointer, empty}
use jacks.Latch.{posted, not_posted, get, post, free}
use jacks.Latch.Threads.{
  System, call_get, call_post, lock_get, lock_post, test_wait, set, Reach, start, later, alert,
  goto, woken, post_leave, signal, in_post,
}
use jacks.Latch.Safety.{mutual_exclusion, Reach-IsAttended}
use jacks.Latch.Refinement.{Same, Move, seen, latch-Refines}

-- Thread 0 sleeps in `JacksLatch_get`; thread 1 has posted and is about to signal.
abbrev sleeper : (s : System) × Reach s
sleeper = (
  _,
  later
      (later
        (later
          (later (later (later start (call_get 0 refl)) (lock_get 0 refl refl))
            (test_wait 0 refl (λ e. omega arith)))
          (call_post 1 refl))
        (lock_post 1 refl refl))
      (set 1 refl),
)

get_waits : get (record { status = not_posted }) ≡ none
unfolding get
get_waits = refl

get_takes : get (record { status = posted }) ≡ some (pos 0, record { status = not_posted })
unfolding get
get_takes = refl

post_null : post none empty ≡ fault null_pointer
unfolding post
post_null = refl

free_null : free none empty ≡ fault assert_failed
unfolding free
free_null = refl

mutual_exclusion_example : ◌≡◌ {A = ℕ} 1 1
mutual_exclusion_example = mutual_exclusion sleeper.1 1 1 refl refl

Reach-IsAttended_example : (j : ℕ) × (alert (sleeper.0.pc j) ≡ true)
Reach-IsAttended_example = Reach-IsAttended sleeper.1 refl 0 refl

-- The signal of thread 1 wakes thread 0, which cannot be seen.
abbrev woken_up : System
woken_up = record (sleeper.0) { pc = goto (goto sleeper.0.pc 0 woken) 1 post_leave }

latch-Refines_example :
    Same (seen sleeper.0) (seen woken_up) ⊎ Move (seen sleeper.0) (seen woken_up)
latch-Refines_example = latch-Refines sleeper.1 (signal 1 0 in_post refl)
