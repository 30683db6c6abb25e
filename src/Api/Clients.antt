-- ===== src/Api/Clients.antt =====
-- modules/Jacks.i: `JsClient`, and who frees the events of a client.
use jacks.Prelude.{ℕ, ◌≡◌, refl, List, [], ◌∷◌, Option, none, some, ℤ, nonzero, arith}
use jacks.Memory.{dangling_pointer, Outcome, ok, fault, ◌>>=◌, Ptr, Store, load, alloc}
use jacks.Memory.Access.{IsAt, released, release_lem, release_twice}
use jacks.Libraries.{Libs, Malloc}
use jacks.Exceptions.{Exceptions}
use jacks.Event
use jacks.Port
use jacks.Client.State.{Objects, World, JsEvent, yes_int, no_int}
use jacks.Client.Setup
use jacks.Client.Setup.{Rooms}
use jacks.Client.Setup.Life.{HasEvents}
use jacks.Client.Events.{get_event, delivered}
use jacks.Client.Events.Waiting.{requeued, get_event-delivers}
use jacks.Api.Ports.{throw_if}

-- "can not recompute total latency"
abbrev pub recompute_message : List ℕ
recompute_message =
    b'c' ∷ b'a' ∷ b'n' ∷ b' ' ∷ b'n' ∷ b'o' ∷ b't' ∷ b' ' ∷ b'r' ∷ b'e' ∷ b'c' ∷ b'o' ∷ b'm' ∷ b'p'
    ∷ b'u' ∷ b't' ∷ b'e' ∷ b' ' ∷ b't' ∷ b'o' ∷ b't' ∷ b'a' ∷ b'l' ∷ b' ' ∷ b'l' ∷ b'a' ∷ b't'
    ∷ b'e' ∷ b'n' ∷ b'c' ∷ b'y' ∷ []

module _ (L : Libs) where
  -- `JsClient`, with the memory around its client.
  pub record JsClient : Type 0 where
    pub impl : World L
    pub process_audio : ℕ

  -- `JsClient::JsClient`
  unfoldable pub new_client : Rooms → Ptr → ℕ → Objects L → Outcome JsClient
  new_client r handle rb_size o = do
    j ← Setup.new L r handle rb_size o
    ok (record { impl = j; process_audio = no_int })

  -- `~JsClient`
  unfoldable pub delete_client : JsClient → Outcome (Objects L)
  delete_client c = Setup.free L c.impl

  -- `JsClient::registerPort`
  unfoldable pub register_js_port : Malloc → ℕ → List ℕ → ℕ → JsClient → Outcome (Ptr × JsClient)
  register_js_port m address name options c = do
    got ← Setup.register_port L m address name options c.impl
    ok (got.0, record { impl = got.1; process_audio = yes_int })

  -- `JsClient::getPort`; `found` is what `jack_port_by_name` gives. The port is not the client's: it
  -- does not enter the array of the ports that `_process_cb` serves.
  unfoldable pub look_up_port : Malloc → ℕ → Option (List ℕ) → Ptr → JsClient → Ptr × JsClient
  look_up_port m address none found c = (none, c)
  look_up_port m address (some name) none c = (none, c)
  look_up_port m address (some name) (some jport) c =
      let (a, ports) =
        alloc c.impl.objects.rb_ports
          (Port.new L.rings m (some jport) (some address) (Setup.get_rb_size L c.impl.self)) in
      (
        a,
        record c {
          impl = record (c.impl) { objects = record (c.impl.objects) { rb_ports = ports } };
        },
      )

  -- `JsClient::activate`
  unfoldable pub activate_js : ℤ → JsClient → ℤ × JsClient
  activate_js rc c =
      let (r, w) = Setup.activate L c.process_audio rc c.impl in (r, record c { impl = w })

  -- `JsClient::recomputeLatencies`; `rc` is what JACK answers.
  unfoldable pub recompute_latencies : ℤ → Exceptions → Exceptions
  recompute_latencies rc e = throw_if (nonzero rc) recompute_message e

  -- `~JsEvent`
  unfoldable pub delete_event : Ptr → World L → Outcome (World L)
  delete_event p w = do
    m ← Event.free p w.objects.events
    ok (record w { objects = record (w.objects) { events = m } })

  event_free_some :
      (m : Store JsEvent) (p : Ptr) (a : JsEvent)
      → IsAt m p a
      → (Event.free p m ≡ ok (released m p))
        × (Event.free p (released m p) ≡ fault dangling_pointer)
        × (load (released m p) p ≡ fault dangling_pointer)
  unfolding Event.free
  event_free_some m none a h = cc
  event_free_some m (some p) a h = (
    release_lem m (some p) a h,
    (release_twice m (some p) a h).1,
    (release_twice m (some p) a h).0,
  )

  -- The script's event object frees the event that the client keeps for all rounds. With two process
  -- events in the queue, and the object of the first deleted, the second `getEvent` delivers a
  -- pointer to freed memory, and freeing the client frees that event a second time.
  pub deleted_event_dangles :
      (w : World L) (q : L.queues.Queue) (es : List Ptr)
      → HasEvents L w
      → w.self.event_queue ≡ some q
      → L.queues.entries q ≡ w.self.process_event ∷ w.self.process_event ∷ es
      → (w1 w2 w3 : World L) × (get_event L 1 w ≡ ok (delivered w.self.process_event w1))
        × (delete_event w.self.process_event w1 ≡ ok w2)
        × (get_event L 1 w2 ≡ ok (delivered w.self.process_event w3))
        × (load w3.objects.events w.self.process_event ≡ fault dangling_pointer)
        × (Setup.free L w3 ≡ fault dangling_pointer)
  unfolding delete_event Setup.free
  deleted_event_dangles w q es h has held =
      let (q1, first, rest) =
        get_event-delivers L 1 w q w.self.process_event (w.self.process_event ∷ es) (omega arith)
          has held in
      let w1 : World L = requeued L w q1 in
      let freed = event_free_some w.objects.events w.self.process_event _ h.on_process in
      let w2 : World L = record w1 {
        objects = record (w1.objects) { events = released w.objects.events w.self.process_event };
      } in
      let (q2, second, _) =
        get_event-delivers L 1 w2 q1 w.self.process_event es (omega arith) refl rest in
      (w1, w2, requeued L w2 q2, first, rw (freed.0), second, freed.2, rw (freed.1))
