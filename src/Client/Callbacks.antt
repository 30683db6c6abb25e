-- ===== src/Client/Callbacks.antt =====
-- JacksRbClient.c: the functions that JACK's threads call.
pub mod Live
pub mod Process
pub mod Wired
pub mod Session
pub mod Lost
use jacks.Prelude.{
  ℕ, zero, suc, ◌+◌, List, [], ◌∷◌, Bool, Option, none, some, ℤ, pos, minus_one, nonzero, ◌==◌,
  if◌then◌else◌, get_elem?,
}
use jacks.Memory.{
  Fault, null_pointer, out_of_bounds, Outcome, ok, fault, ◌>>=◌, Ptr, Store, load, save,
}
use jacks.Libraries.{Libs}
use jacks.Latch
use jacks.Event.{set_data, complete}
use jacks.Port.{write_to_ringbuffer}
use jacks.Client.State.{
  World, Objects, called, session_reply, session_event_free, enqueue_event, post_mutex,
}

-- `ports[i]`
abbrev pub port_at : Option (List Ptr) → ℕ → Outcome Ptr
port_at none i = fault null_pointer
port_at (some ports) i = elim (get_elem? ports i) [ none ↦ fault out_of_bounds | some p ↦ ok p ]

module _ (L : Libs) where
  -- One round of the loop of `_process_cb`, up to the call of `queue_enqueue`.
  unfoldable pub write_port : ℕ → ℕ → World L → Outcome (ℤ × World L)
  write_port nframes i w = do
    a ← port_at w.self.ports i
    p ← load w.objects.rb_ports a
    done ← write_to_ringbuffer L.rings L.jack w.objects.server p nframes
    m ← save w.objects.rb_ports a done.1
    ok (done.0, record w { objects = record (w.objects) { rb_ports = m } })

  -- The loop from round `i` on, with `k` rounds left.
  unfoldable pub process_from : ℕ → ℕ → ℕ → World L → Outcome (ℤ × World L)
  process_from nframes zero i w = ok (pos 0, w)
  process_from nframes (suc k) i w = do
    wrote ← write_port nframes i w
    if nonzero wrote.0 then ok (minus_one, wrote.1) else (do
      put ← enqueue_event L wrote.1 wrote.1.self.process_event
      if put.0 == 1
          then process_from nframes k (i + 1) (post_mutex L put.1)
          else ok (minus_one, put.1))

  -- `_process_cb`
  unfoldable pub process_cb : ℕ → World L → Outcome (ℤ × World L)
  unfolding process_from
  process_cb nframes w = process_from nframes w.self.nports 0 w

  -- `queue_enqueue` with its result ignored, and `sem_post`: the tail of the callbacks below.
  unfoldable pub announce : World L → Ptr → Outcome (World L)
  announce w e = do put ← enqueue_event L w e; ok (post_mutex L put.1)

  -- `JacksEvent_set_data(e, data)`
  unfoldable pub put_data : World L → Ptr → Ptr → Outcome (World L)
  put_data w a payload = do
    e ← load w.objects.events a
    m ← save w.objects.events a (set_data e payload)
    ok (record w { objects = record (w.objects) { events = m } })

  -- `_session_cb` up to its call of `JacksLatch_get`.
  unfoldable pub session_begin : Ptr → World L → Outcome (World L)
  unfolding announce put_data
  session_begin event w = do
    w' ← put_data w w.self.session_event event
    announce w' w'.self.session_event

  -- What follows `JacksLatch_get`: nothing yet, or the rest of `_session_cb`.
  unfoldable pub session_reply_to :
      Ptr → World L → Option (ℤ × Latch.Latch) → Outcome (Option (World L))
  unfolding put_data
  session_reply_to event w none = ok none
  session_reply_to event w (some got) = do
    m ← save w.objects.latches w.self.session_latch got.1
    w' ←
        put_data (record w { objects = record (w.objects) { latches = m } }) w.self.session_event
          none
    ok (
        some (record w' {
          objects = called L w'.objects (session_reply event ∷ session_event_free event ∷ []);
        }))

  -- `_session_cb` from its call of `JacksLatch_get` on. `none`: the thread waits in that call.
  unfoldable pub session_end : Ptr → World L → Outcome (Option (World L))
  unfolding session_reply_to
  session_end event w = do
    l ← load w.objects.latches w.self.session_latch
    session_reply_to event w (Latch.get l)

  -- `_shutdown_cb`
  unfoldable pub shutdown_cb : World L → Outcome (World L)
  unfolding announce
  shutdown_cb w = announce w w.self.shutdown_event

  -- `_sample_rate_change_cb`
  unfoldable pub sample_rate_change_cb : ℕ → World L → Outcome (ℤ × World L)
  unfolding announce
  sample_rate_change_cb nframes w = do w' ← announce w w.self.sample_rate_event; ok (pos 0, w')

  -- `JacksEvent_complete` at an address, which the program calls.
  unfoldable pub complete_at : Ptr → World L → Outcome (World L)
  complete_at a w = do
    e ← load w.objects.events a
    m ← complete e w.objects.latches
    ok (record w { objects = record (w.objects) { latches = m } })
