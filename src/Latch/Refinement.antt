-- ===== src/Latch/Refinement.antt =====
-- JacksLatch.c: the threads, seen from outside, are the users of a binary semaphore.
use jacks.Prelude.{
  ℕ, ◌≡◌, refl, sym, ap, ◌∙◌, Bool, true, false, ◌==◌, if◌then◌else◌, arith, ◌⊎◌, inl, inr,
}
use jacks.Latch.{posted}
use jacks.Latch.Threads.{
  Pc, idle, get_enter, test, waiting, woken, taking, get_notify, get_leave, post_enter, setting,
  post_notify, post_leave, System, goto, Notify, in_get, in_post, Leave, from_get, from_post, Step,
  call_get, call_post, lock_get, lock_post, test_posted, test_wait, spurious, relock, take, set,
  signal, signal_none, unlock, Reach,
}
use jacks.Latch.Invariant.{Inv, Reach-Inv}

-- A thread is outside, wants to pass, has passed, wants to open, or has opened.
pub data Phase : Type 0 where
  outside wants_pass passed wants_open opened : Phase

pub record Semaphore : Type 0 where
  pub is_open : Bool
  pub phase : ℕ → Phase

abbrev put_phase : (ℕ → Phase) → ℕ → Phase → ℕ → Phase
put_phase f i p j = if i == j then p else f j

-- What a binary semaphore promises: a thread passes only while it is open, and closes it behind it;
-- opening it is possible at any time, and opens it for one.
pub data Move (a : Semaphore) (b : Semaphore) : Type 0 where
  ask_pass :
      (i : ℕ)
      → a.phase i ≡ outside
      → b.is_open ≡ a.is_open
      → ((j : ℕ) → b.phase j ≡ put_phase a.phase i wants_pass j)
      → Move a b
  ask_open :
      (i : ℕ)
      → a.phase i ≡ outside
      → b.is_open ≡ a.is_open
      → ((j : ℕ) → b.phase j ≡ put_phase a.phase i wants_open j)
      → Move a b
  pass :
      (i : ℕ)
      → a.phase i ≡ wants_pass
      → a.is_open ≡ true
      → b.is_open ≡ false
      → ((j : ℕ) → b.phase j ≡ put_phase a.phase i passed j)
      → Move a b
  open_up :
      (i : ℕ)
      → a.phase i ≡ wants_open
      → b.is_open ≡ true
      → ((j : ℕ) → b.phase j ≡ put_phase a.phase i opened j)
      → Move a b
  go_out :
      (i : ℕ)
      → (a.phase i ≡ passed) ⊎ (a.phase i ≡ opened)
      → b.is_open ≡ a.is_open
      → ((j : ℕ) → b.phase j ≡ put_phase a.phase i outside j)
      → Move a b

-- Nothing that can be seen from outside.
abbrev pub Same : Semaphore → Semaphore → Type 0
Same a b = (b.is_open ≡ a.is_open) × ((j : ℕ) → b.phase j ≡ a.phase j)

abbrev phase_of : Pc → Phase
phase_of idle = outside
phase_of get_enter = wants_pass
phase_of test = wants_pass
phase_of waiting = wants_pass
phase_of woken = wants_pass
phase_of taking = wants_pass
phase_of get_notify = passed
phase_of get_leave = passed
phase_of post_enter = wants_open
phase_of setting = wants_open
phase_of post_notify = opened
phase_of post_leave = opened

abbrev pub seen : System → Semaphore
seen s = record { is_open = s.status == posted; phase = λ j. phase_of (s.pc j) }

moved :
    (pc : ℕ → Pc) (i : ℕ) (p : Pc) (j : ℕ)
    → phase_of (goto pc i p j) ≡ put_phase (λ k. phase_of (pc k)) i (phase_of p) j
moved pc i p j = ground arith

stays :
    (pc : ℕ → Pc) (i : ℕ) (p : Pc)
    → phase_of p ≡ phase_of (pc i)
    → (j : ℕ) → phase_of (goto pc i p j) ≡ phase_of (pc j)
stays pc i p e j = ground arith

Notify-phase : {p q : Pc} → Notify p q → phase_of q ≡ phase_of p
Notify-phase in_get = refl
Notify-phase in_post = refl

Leave-phase : {p : Pc} → Leave p → (phase_of p ≡ passed) ⊎ (phase_of p ≡ opened)
Leave-phase from_get = inl refl
Leave-phase from_post = inr refl

Step-Move : {s t : System} → Inv s → Step s t → Same (seen s) (seen t) ⊎ Move (seen s) (seen t)
Step-Move {s} v (call_get i e) = inr (ask_pass i (ap phase_of e) refl (moved s.pc i get_enter))
Step-Move {s} v (call_post i e) = inr (ask_open i (ap phase_of e) refl (moved s.pc i post_enter))
Step-Move {s} v (lock_get i e f) = inl (refl, stays s.pc i test (sym (ap phase_of e)))
Step-Move {s} v (lock_post i e f) = inl (refl, stays s.pc i setting (sym (ap phase_of e)))
Step-Move {s} v (test_posted i e q) = inl (refl, stays s.pc i taking (sym (ap phase_of e)))
Step-Move {s} v (test_wait i e q) = inl (refl, stays s.pc i waiting (sym (ap phase_of e)))
Step-Move {s} v (spurious i e) = inl (refl, stays s.pc i woken (sym (ap phase_of e)))
Step-Move {s} v (relock i e f) = inl (refl, stays s.pc i test (sym (ap phase_of e)))
Step-Move {s} v (take i e) =
    inr (pass i (ap phase_of e) (ground (arith, v.armed i e)) refl (moved s.pc i get_notify))
Step-Move {s} v (set i e) = inr (open_up i (ap phase_of e) refl (moved s.pc i post_notify))
Step-Move {s} v (signal i j {q} n e) = inl (
  refl,
  λ k.
      stays (goto s.pc j woken) i q
        (Notify-phase n ∙ sym (stays s.pc j woken (sym (ap phase_of e)) i)) k
      ∙ stays s.pc j woken (sym (ap phase_of e)) k,
)
Step-Move {s} v (signal_none i {q} n w) = inl (refl, stays s.pc i q (Notify-phase n))
Step-Move {s} v (unlock i l) = inr (go_out i (Leave-phase l) refl (moved s.pc i idle))

-- The latch refines a binary semaphore: between any threads and at any interleaving, each step from
-- a reachable state is one move of the semaphore, or changes nothing that can be seen.
pub latch-Refines :
    {s t : System} → Reach s → Step s t → Same (seen s) (seen t) ⊎ Move (seen s) (seen t)
latch-Refines r st = Step-Move (Reach-Inv r) st
