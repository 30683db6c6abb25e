-- ===== src/Lua/Started.antt =====
-- corelib/JacksRbClient.c behind modules/lua/Jacks_lua_wrap.c: a script's client once it has a port and is
-- active.
use jacks.Prelude.{ℕ, ◌*◌, ◌%◌, ◌^◌, ◌<◌, ◌≡◌, refl, ◌∙◌, true, false, List, [], ◌∷◌, some, arith}
use jacks.Memory.{ok, Ptr, alloc}
use jacks.Memory.Access.{IsAt, load-saved, load-alloc_self}
use jacks.Libraries.{Libs}
use jacks.Latch.{not_posted}
use jacks.Port
use jacks.Port.{Port, no_fds, jacks_sample_size}
use jacks.Client.State.{Objects, World, yes_int, set_process_callback, activate_client, called}
use jacks.Client.Setup.{register_port}
use jacks.Client.Setup.Life.{bare_event, session_event, size_of}
use jacks.Client.Setup.Register.{new-room}
use jacks.Lua.Values.{LuaLib}
use jacks.Lua.Machine.{Machine, Env}
use jacks.Lua.Opening.{IsOpened, after_call}
use jacks.Lua.Cycle.{IsRunning}
use jacks.Lua.Saving.{IsResponsive}

module _ (L : Libs) where
  -- The world of a client after it was activated.
  abbrev pub active : World L → World L
  active w = record {
    self = record (w.self) { activated = yes_int };
    objects = called L w.objects (set_process_callback ∷ activate_client ∷ []);
  }

module _ (L : Libs) (E : Env L) where
  open L.rings use {Ring, create}

  -- A port of JACK's, with its ring and its array.
  abbrev pub new_port_of : World L → ℕ → List ℕ → ℕ → Ring → List ℕ → Port Ring
  new_port_of w address name options ring buffer = record {
    playback_lat_cb_fd = no_fds;
    capture_lat_cb_fd = no_fds;
    lat_cb_is_init = false;
    rb_size = w.self.rb_size;
    jport = (L.jack.port_register w.objects.server w.self.client name options).0;
    jackclient = some address;
    rb = some ring;
    framebuf = some buffer;
    overruns = E.memory.leftover;
  }

  -- The world of a client after it registered its first port.
  abbrev pub first_port : World L → ℕ → List ℕ → ℕ → Ring → List ℕ → World L
  first_port w address name options ring buffer = record {
    self = record (w.self) { ports = some (some w.objects.rb_ports.fresh ∷ []); nports = 1 };
    objects = record (w.objects) {
      rb_ports =
          (alloc w.objects.rb_ports (some (new_port_of w address name options ring buffer))).1;
      server = (L.jack.port_register w.objects.server w.self.client name options).1;
    };
  }

  pub register_port-first :
      (w : World L) (address : ℕ) (name : List ℕ) (options : ℕ) (ring : Ring) (buffer : List ℕ)
      → w.self.ports ≡ some []
      → w.self.nports ≡ 0
      → E.memory.room ≡ true
      → E.memory.bytes w.self.rb_size ≡ some buffer
      → create (jacks_sample_size * w.self.rb_size % 2 ^ 64) ≡ some ring
      → register_port L E.memory address name options w
        ≡ ok (some w.objects.rb_ports.fresh, first_port w address name options ring buffer)
  unfolding register_port Port.new_port
  register_port-first w address name options ring buffer h1 h2 h3 h4 h5 =
      let jport : Ptr = (L.jack.port_register w.objects.server w.self.client name options).0 in
      let port_made : Port.new L.rings E.memory jport (some address) w.self.rb_size
          ≡ some (new_port_of w address name options ring buffer) =
        new-room L.rings E.memory jport (some address) w.self.rb_size h3 ∙ (rw (h4, h5)) in
      simp (register_port, port_made, h1, h2)

module _ (L : Libs) (Q : LuaLib) (E : Env L) where
  open L.rings use {Ring, create, create_empty}
  open L.queues use {Queue, queue_new, new_empty, new_limit}

  size_small : (n : ℕ) → n < 2 ^ 32 → size_of L n < 2 ^ 32
  size_small n h = ground arith

  queue_room : (n : ℕ) (q : Queue) → queue_new (size_of L n) ≡ some q → 0 < L.queues.limit q
  queue_room n q h = rw (new_limit (size_of L n) h) (ground arith)

  -- The memory after registering and activating: the client waits for a cycle.
  pub IsRunning-started :
      (m : Machine L) (c p address : ℕ) (w : World L) (name : List ℕ) (options : ℕ) (ring : Ring)
      (buffer : List ℕ) {h n : ℕ} {o : Objects L} {q : Queue}
      → IsOpened L h n o q w
      → queue_new (size_of L n) ≡ some q
      → E.memory.bytes (size_of L n) ≡ some buffer
      → create (jacks_sample_size * size_of L n % 2 ^ 64) ≡ some ring
      → n < 2 ^ 32
      → let w1 : World L = first_port L E w address name options ring buffer in
        IsAt m.boxes (some c) (record { impl = some address; process_audio = yes_int })
        → IsAt m.ports
            (some p)
            (record { impl = some w.objects.rb_ports.fresh; clientimpl = some address })
        → IsAt m.clients (some address) w1.self
        → (r : IsRunning L Q E (after_call L Q E m address (active L w1)) c p) × (r.here.rb_size
            ≡ size_of L n)
          × (r.ready.ring ≡ ring)
          × (r.here.jport ≡ (L.jack.port_register w.objects.server w.self.client name options).0)
  IsRunning-started m c p address w name options ring buffer {n = n} {q = q} v made bytes rung small
        box_at port_at client_at =
      let w1 : World L = first_port L E w address name options ring buffer in
      let here : Port Ring = new_port_of L E w address name options ring buffer in
      (
        record {
          box = record { impl = some address; process_audio = yes_int };
          self = (active L w1).self;
          port_box = record { impl = some w.objects.rb_ports.fresh; clientimpl = some address };
          address = w.objects.rb_ports.fresh;
          here = here;
          event = bare_event 0;
          queue = q;
          ready = record {
            ring = ring;
            buffer = buffer;
            has_ring = refl;
            has_buffer = refl;
            sized = E.memory.bytes_length w.self.rb_size (rw v.sized bytes);
            small = rw v.sized (size_small n small);
          };
          box_live = box_at;
          client_live = load-saved m.clients (some address) w1.self (active L w1).self client_at;
          port_box_live = port_at;
          port_addressed = refl;
          port_live = load-alloc_self w.objects.rb_ports here;
          event_live = v.on_process;
          process_type = refl;
          one_port = refl;
          counted = refl;
          has_queue = v.has_queue;
          queue_empty = new_empty (size_of L n) made;
          queue_room = queue_room n q made;
          ring_empty = create_empty (jacks_sample_size * size_of L n % 2 ^ 64) rung;
        },
        v.sized,
        refl,
        refl,
      )

  -- It waits for a session event as well.
  pub IsResponsive-started :
      (m : Machine L) (c address : ℕ) (w : World L) (name : List ℕ) (options : ℕ) (ring : Ring)
      (buffer : List ℕ) {h n : ℕ} {o : Objects L} {q : Queue}
      → IsOpened L h n o q w
      → queue_new (size_of L n) ≡ some q
      → let w1 : World L = first_port L E w address name options ring buffer in
        IsAt m.boxes (some c) (record { impl = some address; process_audio = yes_int })
        → IsAt m.clients (some address) w1.self
        → IsResponsive L Q E (after_call L Q E m address (active L w1)) c
  IsResponsive-started m c address w name options ring buffer {n = n} {q = q} v made box_at
        client_at =
      let w1 : World L = first_port L E w address name options ring buffer in
      record {
        box = record { impl = some address; process_audio = yes_int };
        self = (active L w1).self;
        wired = record {
          event = session_event w.self.session_latch;
          latch = record { status = not_posted };
          queue = q;
          event_live = v.on_session;
          latch_live = v.on_latch;
          token = refl;
          target = refl;
          has_queue = v.has_queue;
        };
        box_live = box_at;
        client_live = load-saved m.clients (some address) w1.self (active L w1).self client_at;
        right_type = refl;
        unanswered = refl;
        queue_empty = new_empty (size_of L n) made;
        queue_room = queue_room n q made;
      }
