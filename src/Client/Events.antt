-- ===== src/Client/Events.antt =====
-- JacksRbClient.c: `JacksRbClient_get_event`, by which the program waits for an event.
pub mod Waiting
use jacks.Prelude.{ℕ, zero, suc, ◌-◌, Option, none, some, ◌==◌, if◌then◌else◌}
use jacks.Memory.{Outcome, ok, ◌>>=◌, Ptr}
use jacks.Libraries.{Libs}
use jacks.Client.State.{World, the_queue}

module _ (L : Libs) where
  -- `queue_dequeue(_this_->event_queue, &je)`: its result, `je`, and the client.
  unfoldable pub dequeue_event : World L → Outcome (ℕ × Ptr × World L)
  dequeue_event w = do
    q ← the_queue L w.self.event_queue
    let got = L.queues.dequeue q
    ok (got.0, got.1, record w { self = record (w.self) { event_queue = some got.2 } })

  -- `sem_wait(&_this_->mutex)`; `none`: the thread sleeps.
  unfoldable pub wait_mutex : World L → Option (World L)
  wait_mutex w =
      if w.self.mutex == 0
      then none
      else some (record w { self = record (w.self) { mutex = w.self.mutex - 1 } })

  -- An event; a wait in `sem_wait` with the count at 0; or the model's fuel ran out.
  pub data Polled : Type 0 where
    delivered : Ptr → World L → Polled
    waits : World L → Polled
    no_fuel : Polled

  -- The loop, run while no other thread moves. Its argument `timeout` is not used.
  unfoldable pub get_event : ℕ → World L → Outcome Polled
  unfolding dequeue_event
  get_event zero w = ok no_fuel
  get_event (suc f) w = do
    got ← dequeue_event w
    let again =
        get_event f (record (got.2) { self = record (got.2.self) { mutex = got.2.self.mutex - 1 } })
    if got.0 == 0
        then (if got.2.self.mutex == 0 then ok (waits got.2) else again)
        else ok (delivered got.1 got.2)
