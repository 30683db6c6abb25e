-- ===== src/Latch/Safety/Drain.antt =====
-- JacksLatch.c: the threads inside take a posted latch by themselves.
use jacks.Prelude.{
  ℕ, suc, ◌≡◌, ◌≢◌, refl, sym, Bool, true, false, none, some, arith, Option-cases, inl, inr, ◌∙◌,
  ap, subst, ◌⊎◌,
}
use jacks.Latch.{posted}
use jacks.Latch.Threads.{
  Pc, idle, get_enter, test, waiting, woken, taking, get_notify, get_leave, post_enter, setting,
  post_notify, post_leave, System, goto, Notify, in_get, in_post, Leave, from_get, from_post, Step,
  call_get, call_post, test_posted, spurious, relock, take, set, signal, unlock, critical, alert,
}
use jacks.Latch.Invariant.{Inv}

-- A new call, or a wakeup with no signal.
abbrev pub helped : {s t : System} → Step s t → Bool
helped (call_get i e) = true
helped (call_post i e) = true
helped (spurious i e) = true
helped _ = false

pub data Steps : System → System → Type 0 where
  here : {s : System} → Steps s s
  more : {s t u : System} (st : Step s t) → helped st ≡ false → Steps t u → Steps s u

-- A run of the threads inside that takes the latch once.
abbrev pub Takes : System → Type 0
Takes s = (t : System) × Steps s t × (t.gets ≡ suc s.gets)

after : {s t : System} (st : Step s t) → helped st ≡ false → t.gets ≡ s.gets → Takes t → Takes s
after st h e (u, run, g) = (u, more st h run, g ∙ ap suc e)

at_taking : {s : System} (j : ℕ) → s.pc j ≡ taking → Takes s
at_taking {s} j e = (_, more (take j e) refl here, refl)

at_test : {s : System} (j : ℕ) → s.status ≡ posted → s.pc j ≡ test → Takes s
at_test {s} j p e = after (test_posted j e p) refl refl (at_taking j (ground arith))

at_woken : {s : System} (j : ℕ) → s.status ≡ posted → s.owner ≡ none → s.pc j ≡ woken → Takes s
at_woken {s} j p free e = after (relock j e free) refl refl (at_test j p (ground arith))

at_leave :
    {s : System} (o j : ℕ) → s.status ≡ posted → Leave (s.pc o) → s.pc j ≡ woken → o ≢ j → Takes s
at_leave {s} o j p l e ne = after (unlock o l) refl refl (at_woken j p refl (ground arith))

at_notify :
    {s : System} (o i : ℕ) {q : Pc}
    → s.status ≡ posted
    → Notify (s.pc o) q
    → Leave q
    → s.pc i ≡ waiting
    → o ≢ i
    → Takes s
at_notify {s} o i {q} p n l w ne =
    after (signal o i n w) refl refl (at_leave o i p (subst Leave at_q l) (ground arith) ne)
  where
    at_q : q ≡ goto (goto s.pc i woken) o q o
    at_q = ground arith

at_set : {s : System} (o i : ℕ) → s.pc o ≡ setting → s.pc i ≡ waiting → o ≢ i → Takes s
at_set {s} o i e w ne =
    after (set o e) refl refl (
      at_notify o i refl (subst (λ p. Notify p post_leave) at_p in_post) from_post (ground arith)
        ne)
  where
    at_p : post_notify ≡ goto s.pc o post_notify o
    at_p = ground arith

-- Where the owner of the mutex stands.
data Place : Pc → Type 0 where
  in_test : Place test
  in_taking : Place taking
  in_setting : Place setting
  in_notify : {p q : Pc} → Notify p q → Leave q → Place p
  in_leave : {p : Pc} → Leave p → Place p

place : (p : Pc) → critical p ≡ true → Place p
place test h = in_test
place taking h = in_taking
place get_notify h = in_notify in_get from_get
place get_leave h = in_leave from_get
place setting h = in_setting
place post_notify h = in_notify in_post from_post
place post_leave h = in_leave from_post
place idle h = cc
place get_enter h = cc
place waiting h = cc
place woken h = cc
place post_enter h = cc

alert-cases : (p : Pc) → alert p ≡ true → (p ≡ woken) ⊎ (critical p ≡ true)
alert-cases p h = ground arith

Leave-dull : {p : Pc} → Leave p → alert p ≡ false
Leave-dull from_get = refl
Leave-dull from_post = refl

module _ {s : System} (v : Inv s) (p : s.status ≡ posted) (i j : ℕ) (w : s.pc i ≡ waiting)
    (a : alert (s.pc j) ≡ true) where
  drain_free : s.owner ≡ none → Takes s
  drain_free free = elim (alert-cases (s.pc j) a) [
    | inl e ↦ at_woken j p free e
    | inr h ↦ absurd (ground (arith, v.owns j h))
  ]

  drain_leave : (o : ℕ) → s.owner ≡ some o → Leave (s.pc o) → Takes s
  drain_leave o held l = elim (alert-cases (s.pc j) a) [
    | inl e ↦ at_leave o j p l e (ground (arith, Leave-dull l))
    | inr h ↦ absurd (ground (arith, v.owns j h, Leave-dull l))
  ]

  drain_place : (o : ℕ) (q : Pc) → s.owner ≡ some o → s.pc o ≡ q → Place q → Takes s
  drain_place o q held e in_test = at_test o p e
  drain_place o q held e in_taking = at_taking o e
  drain_place o q held e in_setting = at_set o i e w (ground arith)
  drain_place o q held e (in_notify {q = r} n l) =
      at_notify o i p (subst (λ x. Notify x r) (sym e) n) l w (ground (arith, v.held o held))
  drain_place o q held e (in_leave l) = drain_leave o held (subst Leave (sym e) l)

pub drain :
    {s : System}
    → Inv s
    → s.status ≡ posted
    → (i : ℕ) → s.pc i ≡ waiting
    → ((j : ℕ) × (alert (s.pc j) ≡ true))
    → Takes s
drain {s} v p i w (j, a) = elim (Option-cases s.owner) [
  | inl free ↦ drain_free v p i j w a free
  | inr (o, held) ↦ drain_place v p i j w a o (s.pc o) held refl (place (s.pc o) (v.held o held))
]
