-- ===== src/Latch/Invariant.antt =====
-- JacksLatch.c: what holds in every reachable state of the threads.
use jacks.Prelude.{ℕ, ◌+◌, ◌≤◌, ◌≡◌, ◌≢◌, refl, true, some, arith}
use jacks.Latch.{posted}
use jacks.Latch.Threads.{
  Pc, taking, System, Notify, in_get, in_post, Leave, from_get, from_post, Step, call_get,
  call_post, lock_get, lock_post, test_posted, test_wait, spurious, relock, take, set, signal,
  signal_none, unlock, Reach, start, later, critical,
}

pub record Inv (s : System) : Type 0 where
  pub bit : s.status ≤ 1
  pub owns : (i : ℕ) → critical (s.pc i) ≡ true → s.owner ≡ some i
  pub held : (i : ℕ) → s.owner ≡ some i → critical (s.pc i) ≡ true
  pub armed : (i : ℕ) → s.pc i ≡ taking → s.status ≡ posted
  pub counted : s.gets + s.status ≤ s.posts

Notify-critical :
    {p q : Pc}
    → Notify p q
    → (critical p ≡ true) × (critical q ≡ true) × (p ≢ taking) × (q ≢ taking)
Notify-critical in_get = ground arith
Notify-critical in_post = ground arith

Leave-critical : {p : Pc} → Leave p → critical p ≡ true
Leave-critical from_get = refl
Leave-critical from_post = refl

Step-owns :
    {s t : System} → Step s t → Inv s → (j : ℕ) → critical (t.pc j) ≡ true → t.owner ≡ some j
Step-owns (call_get i e) v j h = ground (arith, v.owns j)
Step-owns (call_post i e) v j h = ground (arith, v.owns j)
Step-owns (lock_get i e f) v j h = ground (arith, v.owns j)
Step-owns (lock_post i e f) v j h = ground (arith, v.owns j)
Step-owns (test_posted i e p) v j h = ground (arith, v.owns j, v.owns i)
Step-owns (test_wait i e p) v j h = ground (arith, v.owns j, v.owns i)
Step-owns (spurious i e) v j h = ground (arith, v.owns j)
Step-owns (relock i e f) v j h = ground (arith, v.owns j)
Step-owns (take i e) v j h = ground (arith, v.owns j, v.owns i)
Step-owns (set i e) v j h = ground (arith, v.owns j, v.owns i)
Step-owns (signal i k n w) v j h = ground (arith, v.owns j, v.owns i, Notify-critical n)
Step-owns (signal_none i n w) v j h = ground (arith, v.owns j, v.owns i, Notify-critical n)
Step-owns (unlock i l) v j h = ground (arith, v.owns j, v.owns i, Leave-critical l)

Step-held :
    {s t : System} → Step s t → Inv s → (j : ℕ) → t.owner ≡ some j → critical (t.pc j) ≡ true
Step-held (call_get i e) v j h = ground (arith, v.held j)
Step-held (call_post i e) v j h = ground (arith, v.held j)
Step-held (lock_get i e f) v j h = ground arith
Step-held (lock_post i e f) v j h = ground arith
Step-held (test_posted i e p) v j h = ground (arith, v.held j)
Step-held (test_wait i e p) v j h = cc
Step-held (spurious i e) v j h = ground (arith, v.held j)
Step-held (relock i e f) v j h = ground arith
Step-held (take i e) v j h = ground (arith, v.held j)
Step-held (set i e) v j h = ground (arith, v.held j)
Step-held (signal i k n w) v j h = ground (arith, v.held j, Notify-critical n)
Step-held (signal_none i n w) v j h = ground (arith, v.held j, Notify-critical n)
Step-held (unlock i l) v j h = cc

Step-armed : {s t : System} → Step s t → Inv s → (j : ℕ) → t.pc j ≡ taking → t.status ≡ posted
Step-armed (call_get i e) v j h = ground (arith, v.armed j)
Step-armed (call_post i e) v j h = ground (arith, v.armed j)
Step-armed (lock_get i e f) v j h = ground (arith, v.armed j)
Step-armed (lock_post i e f) v j h = ground (arith, v.armed j)
Step-armed (test_posted i e p) v j h = ground (arith, v.armed j)
Step-armed (test_wait i e p) v j h = ground (arith, v.armed j)
Step-armed (spurious i e) v j h = ground (arith, v.armed j)
Step-armed (relock i e f) v j h = ground (arith, v.armed j)
Step-armed (take i e) v j h = ground (arith, v.owns j, v.owns i)
Step-armed (set i e) v j h = refl
Step-armed (signal i k n w) v j h = ground (arith, v.armed j, Notify-critical n)
Step-armed (signal_none i n w) v j h = ground (arith, v.armed j, Notify-critical n)
Step-armed (unlock i l) v j h = ground (arith, v.armed j)

Step-counted : {s t : System} → Step s t → Inv s → t.gets + t.status ≤ t.posts
Step-counted (take i e) v = omega (arith, v.armed i e)
Step-counted (set i e) v = omega arith
Step-counted (call_get i e) v = v.counted
Step-counted (call_post i e) v = v.counted
Step-counted (lock_get i e f) v = v.counted
Step-counted (lock_post i e f) v = v.counted
Step-counted (test_posted i e p) v = v.counted
Step-counted (test_wait i e p) v = v.counted
Step-counted (spurious i e) v = v.counted
Step-counted (relock i e f) v = v.counted
Step-counted (signal i k n w) v = v.counted
Step-counted (signal_none i n w) v = v.counted
Step-counted (unlock i l) v = v.counted

Step-bit : {s t : System} → Step s t → s.status ≤ 1 → t.status ≤ 1
Step-bit (take i e) v = omega arith
Step-bit (set i e) v = omega arith
Step-bit _ v = v

-- Every step keeps the invariant.
pub Step-Inv : {s t : System} → Step s t → Inv s → Inv t
Step-Inv st v = record {
  bit = Step-bit st v.bit;
  owns = Step-owns st v;
  held = Step-held st v;
  armed = Step-armed st v;
  counted = Step-counted st v;
}

pub Reach-Inv : {s : System} → Reach s → Inv s
Reach-Inv start = record {
  bit = omega arith;
  owns = λ i h. cc;
  held = λ i h. cc;
  armed = λ i h. cc;
  counted = omega arith;
}
Reach-Inv (later r st) = Step-Inv st (Reach-Inv r)
