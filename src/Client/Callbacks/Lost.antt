-- ===== src/Client/Callbacks/Lost.antt =====
-- JacksRbClient.c: the callbacks that ignore the result of `queue_enqueue`.
use jacks.Prelude.{ℕ, suc, ◌≤◌, ◌<◌, ◌≡◌, [], ◌∷◌, ◌++◌, some, length, pos}
use jacks.Memory.{ok}
use jacks.Libraries.{Libs}
use jacks.Client.State.{World, enqueue_event, post_mutex}
use jacks.Client.Callbacks.{announce, shutdown_cb, sample_rate_change_cb}

module _ (L : Libs) where
  open L.queues use {Queue, entries, limit, enqueue, enqueue_room, enqueue_full}

  -- The world with its queue changed and the semaphore posted.
  abbrev pub announced : World L → Queue → World L
  announced w q = record w {
    self = record (w.self) { event_queue = some q; mutex = suc w.self.mutex };
  }

  -- With room in the queue, the shutdown and the sample rate callback put their event at its end
  -- and post the semaphore.
  announce_room :
      (w : World L) (q : Queue) (nframes : ℕ)
      → w.self.event_queue ≡ some q
      → length (entries q) < limit q
      → (s r : Queue) × (shutdown_cb L w ≡ ok (announced w s))
        × (entries s ≡ entries q ++ (w.self.shutdown_event ∷ []))
        × (sample_rate_change_cb L nframes w ≡ ok (pos 0, announced w r))
        × (entries r ≡ entries q ++ (w.self.sample_rate_event ∷ []))
  unfolding shutdown_cb sample_rate_change_cb announce enqueue_event post_mutex
  announce_room w q nframes has room = (
    (enqueue q w.self.shutdown_event).1,
    (enqueue q w.self.sample_rate_event).1,
    rw has,
    (enqueue_room q w.self.shutdown_event room).1,
    rw has,
    (enqueue_room q w.self.sample_rate_event room).1,
  )

  -- With a full queue both report success all the same: the semaphore is posted, and the event is
  -- not in the queue, so the program never hears of it.
  pub announce_full :
      (w : World L) (q : Queue) (nframes : ℕ)
      → w.self.event_queue ≡ some q
      → limit q ≤ length (entries q)
      → (s r : Queue) × (shutdown_cb L w ≡ ok (announced w s))
        × (entries s ≡ entries q)
        × (sample_rate_change_cb L nframes w ≡ ok (pos 0, announced w r))
        × (entries r ≡ entries q)
  unfolding shutdown_cb sample_rate_change_cb announce enqueue_event post_mutex
  announce_full w q nframes has full = (
    (enqueue q w.self.shutdown_event).1,
    (enqueue q w.self.sample_rate_event).1,
    rw has,
    (enqueue_full q w.self.shutdown_event full).1,
    rw has,
    (enqueue_full q w.self.sample_rate_event full).1,
  )
