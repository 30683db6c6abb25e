-- ===== src/Client/Setup.antt =====
-- JacksRbClient.c: a client's life, from `JacksRbClient_new` to `JacksRbClient_free`.
pub mod Life
pub mod Register
pub mod Free
use jacks.Prelude.{
  ℕ, suc, ◌+◌, Bool, List, [], ◌∷◌, ◌++◌, Option, none, some, ℤ, minus_one, ltb, ◌==◌,
  if◌then◌else◌,
}
use jacks.Memory.{
  Fault, null_pointer, out_of_bounds, assert_failed, exited, Outcome, ok, fault, ◌>>=◌, Ptr, Store,
  alloc,
}
use jacks.Libraries.{Libs, Malloc}
use jacks.Latch
use jacks.Event
use jacks.Port
use jacks.Client.State.{
  event_code, process, session, sample_rate_change, shutdown, max_ports, default_rb_size, yes_int,
  no_int, Call, on_shutdown, set_sample_rate_callback, set_session_callback, set_error_function,
  set_process_callback, activate_client, client_close, JsEvent, Client, Objects, World, called,
}

-- Which of the constructor's calls of malloc succeed.
pub record Rooms : Type 0 where
  pub client_room : Bool
  pub ports_room : Bool
  pub process_room : Bool
  pub latch_room : Bool
  pub session_room : Bool
  pub sample_rate_room : Bool
  pub shutdown_room : Bool

module _ (L : Libs) where
  abbrev pub with_event : Objects L → Option JsEvent → Ptr × Objects L
  with_event o e = let (a, m) = alloc o.events e in (a, record o { events = m })

  abbrev pub with_latch : Objects L → Option Latch.Latch → Ptr × Objects L
  with_latch o l = let (a, m) = alloc o.latches l in (a, record o { latches = m })

  -- `JacksRbClient_new`. `handle` is what `jack_client_open` gives; where that is NULL the process
  -- exits. The messages on stderr, and the status bits that only choose among them, are left out.
  unfoldable pub new : Rooms → Ptr → ℕ → Objects L → Outcome (World L)
  new r handle rb_size o =
      if r.client_room
      then (let size = if rb_size == 0 then default_rb_size else rb_size in
          let (process_event, o1) =
            with_event o (Event.new r.process_room (event_code process) none none) in
          let (latch, o2) = with_latch o1 (Latch.new r.latch_room) in
          let (session_event, o3) =
            with_event o2 (Event.new r.session_room (event_code session) (some Latch.post) latch) in
          let (sample_rate_event, o4) =
            with_event o3
              (Event.new r.sample_rate_room (event_code sample_rate_change) none none) in
          let (shutdown_event, o5) =
            with_event o4 (Event.new r.shutdown_room (event_code shutdown) none none) in
          elim handle [
            | none ↦ fault exited
            | some h ↦ ok (record {
              self = record {
                ports = if r.ports_room then some [] else none;
                nports = 0;
                rb_size = size;
                client = some h;
                event_queue = L.queues.queue_new size;
                mutex = 1;
                process_event = process_event;
                session_event = session_event;
                session_latch = latch;
                sample_rate_event = sample_rate_event;
                shutdown_event = shutdown_event;
                activated = no_int;
              };
              objects = called L o5 (
                  on_shutdown ∷ set_sample_rate_callback ∷ set_session_callback ∷ set_error_function
                  ∷ []);
            })
          ])
      else fault null_pointer

  -- `JacksRbClient_registerPort`: the address of the new port, and the client.
  unfoldable pub register_port : Malloc → ℕ → List ℕ → ℕ → World L → Outcome (Ptr × World L)
  register_port m address name options w =
      let (port, server) =
        Port.new_port L.rings L.jack (λ _. w.self.client) m w.objects.server name options
          (some address) w.self.rb_size in
      let (a, ports) = alloc w.objects.rb_ports port in
      elim a [
        | none ↦ fault assert_failed
        | some p ↦ elim w.self.ports [
          | none ↦ fault null_pointer
          | some array ↦
              if ltb w.self.nports max_ports
              then ok (
                some p,
                record {
                  self = record (w.self) {
                    ports = some (array ++ (some p ∷ []));
                    nports = suc w.self.nports;
                  };
                  objects = record (w.objects) { rb_ports = ports; server = server };
                },
              )
              else fault out_of_bounds
        ]
      ]

  -- `JacksRbClient_activate`; `rc` is what `jack_activate` answers.
  unfoldable pub activate : ℕ → ℤ → World L → ℤ × World L
  activate process_audio rc w =
      if w.self.activated == yes_int
      then (minus_one, w)
      else if process_audio == yes_int
      then (
        rc,
        record {
          self = record (w.self) { activated = yes_int };
          objects = called L w.objects (set_process_callback ∷ activate_client ∷ []);
        },
      )
      else (rc, record w { objects = called L w.objects (activate_client ∷ []) })

  unfoldable pub get_rb_size : Client L → ℕ
  get_rb_size c = c.rb_size

  unfoldable pub get_client : Client L → Ptr
  get_client c = c.client

  -- `JacksRbClient_free`, after its assertion. The queue, the array of ports, the ports and the
  -- semaphore are not freed.
  unfoldable pub free : World L → Outcome (Objects L)
  free w = do
    let o = called L w.objects (client_close ∷ [])
    e1 ← Event.free w.self.process_event o.events
    l ← Latch.free w.self.session_latch o.latches
    e2 ← Event.free w.self.session_event e1
    e3 ← Event.free w.self.sample_rate_event e2
    e4 ← Event.free w.self.shutdown_event e3
    ok (record o { events = e4; latches = l })
