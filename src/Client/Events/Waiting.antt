-- ===== src/Client/Events/Waiting.antt =====
-- JacksRbClient.c: what `JacksRbClient_get_event` does while no other thread moves.
use jacks.Prelude.{
  ℕ, zero, suc, ◌-◌, ◌≤◌, ◌<◌, ◌≡◌, refl, List, [], ◌∷◌, some, ◌==◌, arith, ◌≢◌, false, ℕ_discrete,
}
use jacks.Memory.{ok, Ptr}
use jacks.Libraries.{Libs}
use jacks.Client.State.{World}
use jacks.Client.Events.{get_event, delivered, waits, no_fuel}

module _ (L : Libs) where
  open L.queues use {Queue, entries, dequeue, dequeue_some, dequeue_empty}

  -- The world with another queue.
  abbrev pub requeued : World L → Queue → World L
  requeued w q = record w { self = record (w.self) { event_queue = some q } }

  -- With an event in the queue, the oldest is delivered at once. It is taken off, the others stay in
  -- order, and the semaphore and all else stay as they were.
  pub get_event-delivers :
      (f : ℕ) (w : World L) (q : Queue) (e : Ptr) (es : List Ptr)
      → 0 < f
      → w.self.event_queue ≡ some q
      → entries q ≡ e ∷ es
      → (q' : Queue) × (get_event L f w ≡ ok (delivered e (requeued w q'))) × (entries q' ≡ es)
  unfolding get_event
  get_event-delivers zero w q e es pos has held = absurd (omega arith)
  get_event-delivers (suc f) w q e es pos has held =
      let taken = dequeue_some q e es held in ((dequeue q).2, rw (has, taken.0, taken.1), taken.2)

  count_up : (w : World L) → w.self.mutex ≢ 0 → (w.self.mutex == 0) ≡ false
  count_up w n = ground arith

  -- The world after a round that found the queue empty and took a post.
  abbrev after_round : World L → Queue → World L
  after_round w q = record w {
    self = record (w.self) { event_queue = some (dequeue q).2; mutex = w.self.mutex - 1 };
  }

  sleeps :
      (f : ℕ) (w : World L) (q : Queue)
      → w.self.mutex < f
      → w.self.event_queue ≡ some q
      → entries q ≡ []
      → (q' : Queue) × (get_event L f w
          ≡ ok (waits (record w { self = record (w.self) { event_queue = some q'; mutex = 0 } })))
        × (entries q' ≡ [])
  unfolding get_event
  sleeps zero w q room has held = absurd (omega arith)
  sleeps (suc f) w q room has held = elim (ℕ_discrete w.self.mutex 0) [
    | yes z ↦ ((dequeue q).2, rw (has, (dequeue_empty q held).0, z), (dequeue_empty q held).2)
    | no n ↦
        let (q', e, h) =
          sleeps f (after_round w q) (dequeue q).2 (omega arith) refl (dequeue_empty q held).2 in
        (q', rw (has, (dequeue_empty q held).0, count_up w n) e, h)
  ]

  falls_short :
      (g : ℕ) (w : World L) (q : Queue)
      → g ≤ w.self.mutex
      → w.self.event_queue ≡ some q
      → entries q ≡ []
      → get_event L g w ≡ ok no_fuel
  unfolding get_event
  falls_short zero w q less has held = refl
  falls_short (suc g) w q less has held =
      rw (has, (dequeue_empty q held).0, count_up w (λ z. omega arith))
        (falls_short g (after_round w q) (dequeue q).2 (omega arith) refl (dequeue_empty q held).2)

  -- With an empty queue the call goes round once for each post that no earlier call waited for, so
  -- that fuel for no more rounds than posts is too little, and then, in one round more, sleeps on the
  -- semaphore, at count 0, with the queue still empty: it neither returns nor spins for ever.
  pub get_event-waits :
      (f g : ℕ) (w : World L) (q : Queue)
      → w.self.mutex < f
      → g ≤ w.self.mutex
      → w.self.event_queue ≡ some q
      → entries q ≡ []
      → (q' : Queue) × (get_event L f w
          ≡ ok (waits (record w { self = record (w.self) { event_queue = some q'; mutex = 0 } })))
        × (entries q' ≡ [])
        × (get_event L g w ≡ ok no_fuel)
  get_event-waits f g w q room less has held =
      let (q', e, h) = sleeps f w q room has held in (q', e, h, falls_short g w q less has held)
