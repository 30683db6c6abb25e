-- ===== src/Latch/Safety.antt =====
-- JacksLatch.c: what callers rely on, in every reachable state of the threads.
pub mod Drain
use jacks.Prelude.{
  ℕ, suc, ◌+◌, ◌≤◌, ◌≡◌, ◌≢◌, refl, sym, Bool, true, false, Option, none, some, ◌==◌, if◌then◌else◌,
  arith, Option-cases, inl, inr, ◌∙◌, ap,
}
use jacks.Latch.{not_posted, posted}
use jacks.Latch.Threads.{
  Pc, idle, get_enter, test, waiting, woken, taking, get_notify, get_leave, post_enter, setting,
  post_notify, post_leave, System, initial, goto, Notify, in_get, in_post, Leave, from_get,
  from_post, Step, call_get, call_post, lock_get, lock_post, test_posted, test_wait, spurious,
  relock, take, set, signal, signal_none, unlock, Reach, start, later, critical, alert,
}
use jacks.Latch.Invariant.{Inv, Reach-Inv}
use Drain.{Steps, drain}

-- Two threads are never between locking and unlocking the mutex together.
pub mutual_exclusion :
    {s : System} → Reach s → (i j : ℕ) → critical (s.pc i) ≡ true → critical (s.pc j) ≡ true → i ≡ j
mutual_exclusion r i j hi hj =
    let oi = (Reach-Inv r).owns i hi in let oj = (Reach-Inv r).owns j hj in ground arith

-- A post frees at most one `JacksLatch_get`, and a post on a posted latch frees none: the gets that
-- took the latch, with the one that a posted latch still allows, are no more than the posts.
gets-le-posts : {s : System} → Reach s → (s.gets + s.status ≤ s.posts) × (s.status ≤ 1)
gets-le-posts r = ((Reach-Inv r).counted, (Reach-Inv r).bit)

-- While the latch is posted and a thread sleeps, some thread is alert.
abbrev pub IsAttended : System → Type 0
IsAttended s = s.status ≡ posted → (i : ℕ) → s.pc i ≡ waiting → (j : ℕ) × (alert (s.pc j) ≡ true)

Notify-awake : {p q : Pc} → Notify p q → (p ≢ waiting) × (q ≢ waiting)
Notify-awake in_get = ground arith
Notify-awake in_post = ground arith

woken_stays :
    (pc : ℕ → Pc) (i j : ℕ) {q : Pc}
    → Notify (pc i) q
    → pc j ≡ waiting
    → alert (goto (goto pc j woken) i q j) ≡ true
woken_stays pc i j n e = ground (arith, Notify-awake n)

Leave-dull : {p : Pc} → Leave p → alert p ≡ false
Leave-dull from_get = refl
Leave-dull from_post = refl

was_waiting :
    (pc : ℕ → Pc) (i : ℕ) (p : Pc) (k : ℕ) → p ≢ waiting → goto pc i p k ≡ waiting → pc k ≡ waiting
was_waiting pc i p k ne h = ground arith

alert_stays :
    (pc : ℕ → Pc) (i : ℕ) (p : Pc) (j : ℕ)
    → alert (pc i) ≡ false
    → alert (pc j) ≡ true
    → alert (goto pc i p j) ≡ true
alert_stays pc i p j dull h = ground arith

Step-IsAttended : {s t : System} → Step s t → IsAttended s → IsAttended t
Step-IsAttended (call_get i e) a p k w = let (j, h) = a p k (ground arith) in (j, ground arith)
Step-IsAttended (call_post i e) a p k w = let (j, h) = a p k (ground arith) in (j, ground arith)
Step-IsAttended (lock_get i e f) a p k w = (i, ground arith)
Step-IsAttended (lock_post i e f) a p k w = let (j, h) = a p k (ground arith) in (j, ground arith)
Step-IsAttended (test_posted i e q) a p k w = (i, ground arith)
Step-IsAttended (test_wait i e q) a p k w = absurd (q p)
Step-IsAttended (spurious i e) a p k w = (i, ground arith)
Step-IsAttended (relock i e f) a p k w = (i, ground arith)
Step-IsAttended (take i e) a p k w = absurd (omega arith)
Step-IsAttended (set i e) a p k w = (i, ground arith)
Step-IsAttended {s} (signal i j n e) a p k w = (j, woken_stays s.pc i j n e)
Step-IsAttended {s} (signal_none i n none_waits) a p k w =
    absurd (none_waits k (was_waiting s.pc i _ k (Notify-awake n).1 w))
Step-IsAttended {s} (unlock i l) a p k w =
    let (j, h) = a p k (was_waiting s.pc i idle k (λ e. cc) w) in
    (j, alert_stays s.pc i idle j (Leave-dull l) h)

-- No wakeup is lost: in every reachable state with a posted latch and a sleeping thread, some
-- thread is at the test, woken, past the test, or about to signal.
pub Reach-IsAttended : {s : System} → Reach s → IsAttended s
Reach-IsAttended start = λ p i w. cc
Reach-IsAttended (later r st) = Step-IsAttended st (Reach-IsAttended r)

-- So a posted latch with a sleeper is taken without outside help: from such a state there is a run
-- of the threads already inside, with no new call and no spurious wakeup, in which one more
-- `JacksLatch_get` takes the latch.
posted_is_taken :
    {s : System}
    → Reach s
    → s.status ≡ posted
    → (i : ℕ) → s.pc i ≡ waiting
    → (t : System) × Steps s t × (t.gets ≡ suc s.gets)
posted_is_taken r p i w = drain (Reach-Inv r) p i w (Reach-IsAttended r p i w)
