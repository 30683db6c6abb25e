-- ===== src/Latch/Threads.antt =====
-- JacksLatch.c: any number of threads inside `JacksLatch_get` and `JacksLatch_post`, interleaved at
-- their accesses to the mutex, the condition variable and the status.
use jacks.Prelude.{ℕ, suc, ◌≡◌, ◌≢◌, Bool, true, false, Option, none, some, ◌==◌, if◌then◌else◌}
use jacks.Latch.{not_posted, posted}

-- Where a thread stands. It holds the mutex from `test` to `get_leave`, and from `set` to
-- `post_leave`; `waiting` and `woken` are inside `pthread_cond_wait`.
pub data Pc : Type 0 where
  idle get_enter test waiting woken taking get_notify get_leave : Pc
  post_enter setting post_notify post_leave : Pc

-- `posts` and `gets` count the two assignments to `status`.
pub record System : Type 0 where
  pub status : ℕ
  pub owner : Option ℕ
  pub pc : ℕ → Pc
  pub posts : ℕ
  pub gets : ℕ

abbrev pub initial : System
initial = record { status = not_posted; owner = none; pc = λ _. idle; posts = 0; gets = 0 }

abbrev pub goto : (ℕ → Pc) → ℕ → Pc → ℕ → Pc
goto pc i p j = if i == j then p else pc j

-- From the call of `pthread_cond_signal` to the one of `pthread_mutex_unlock`.
pub data Notify : Pc → Pc → Type 0 where
  in_get : Notify get_notify get_leave
  in_post : Notify post_notify post_leave

pub data Leave : Pc → Type 0 where
  from_get : Leave get_leave
  from_post : Leave post_leave

pub data Step (s : System) : System → Type 0 where
  call_get : (i : ℕ) → s.pc i ≡ idle → Step s (record s { pc = goto s.pc i get_enter })
  call_post : (i : ℕ) → s.pc i ≡ idle → Step s (record s { pc = goto s.pc i post_enter })
  lock_get :
      (i : ℕ)
      → s.pc i ≡ get_enter
      → s.owner ≡ none
      → Step s (record s { owner = some i; pc = goto s.pc i test })
  lock_post :
      (i : ℕ)
      → s.pc i ≡ post_enter
      → s.owner ≡ none
      → Step s (record s { owner = some i; pc = goto s.pc i setting })
  -- The loop ends, or the thread gives the mutex up and sleeps.
  test_posted :
      (i : ℕ) → s.pc i ≡ test → s.status ≡ posted → Step s (record s { pc = goto s.pc i taking })
  test_wait :
      (i : ℕ)
      → s.pc i ≡ test
      → s.status ≢ posted
      → Step s (record s { owner = none; pc = goto s.pc i waiting })
  -- POSIX allows a wakeup with no signal.
  spurious : (i : ℕ) → s.pc i ≡ waiting → Step s (record s { pc = goto s.pc i woken })
  relock :
      (i : ℕ)
      → s.pc i ≡ woken
      → s.owner ≡ none
      → Step s (record s { owner = some i; pc = goto s.pc i test })
  take :
      (i : ℕ)
      → s.pc i ≡ taking
      → Step s (record s { status = not_posted; pc = goto s.pc i get_notify; gets = suc s.gets })
  set :
      (i : ℕ)
      → s.pc i ≡ setting
      → Step s (record s { status = posted; pc = goto s.pc i post_notify; posts = suc s.posts })
  -- A signal wakes a sleeping thread if there is one.
  signal :
      (i j : ℕ) {q : Pc}
      → Notify (s.pc i) q
      → s.pc j ≡ waiting
      → Step s (record s { pc = goto (goto s.pc j woken) i q })
  signal_none :
      (i : ℕ) {q : Pc}
      → Notify (s.pc i) q
      → ((j : ℕ) → s.pc j ≢ waiting)
      → Step s (record s { pc = goto s.pc i q })
  unlock : (i : ℕ) → Leave (s.pc i) → Step s (record s { owner = none; pc = goto s.pc i idle })

pub data Reach : System → Type 0 where
  start : Reach initial
  later : {s t : System} → Reach s → Step s t → Reach t

-- Between locking and unlocking the mutex.
abbrev pub critical : Pc → Bool
critical test = true
critical taking = true
critical get_notify = true
critical get_leave = true
critical setting = true
critical post_notify = true
critical post_leave = true
critical _ = false

-- A thread that will see a posted latch, or is about to wake one that will.
abbrev pub alert : Pc → Bool
alert test = true
alert woken = true
alert taking = true
alert post_notify = true
alert _ = false
