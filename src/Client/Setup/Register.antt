-- ===== src/Client/Setup/Register.antt =====
-- JacksRbClient.c: `JacksRbClient_registerPort`.
use jacks.Prelude.{
  ℕ, zero, suc, ◌*◌, ◌%◌, ◌^◌, ◌≤◌, ◌<◌, ◌≡◌, ◌∙◌, refl, true, false, List, [], ◌∷◌, ◌++◌, some,
  lt→ltb, le→ltb, arith, length, length-append, get_elem?,
}
use jacks.Memory.{out_of_bounds, ok, fault, Ptr, Store, alloc}
use jacks.Memory.Access.{IsAt, IsFresh, alloc-IsFresh, load-alloc, load-alloc_self}
use jacks.Libraries.{Libs, RingLib, Malloc}
use jacks.Port
use jacks.Port.{Port, IsRegistered, no_fds, jacks_sample_size}
use jacks.Port.Stream.{IsReady}
use jacks.Client.State.{World, max_ports}
use jacks.Client.Setup.{register_port}
use jacks.Client.Callbacks.Live.{IsLive, AllReady}

pub new-room :
    (R : RingLib) (m : Malloc) (jport jackclient : Ptr) (n : ℕ)
    → m.room ≡ true
    → Port.new R m jport jackclient n
      ≡ some (record {
        playback_lat_cb_fd = no_fds;
        capture_lat_cb_fd = no_fds;
        lat_cb_is_init = false;
        rb_size = n;
        jport = jport;
        jackclient = jackclient;
        rb = R.create (jacks_sample_size * n % 2 ^ 64);
        framebuf = m.bytes n;
        overruns = m.leftover;
      })
unfolding Port.new
new-room R m jport jackclient n h = rw h

module _ (L : Libs) where
  open L.rings use {Ring, create}

  AllReady-alloc :
      (m : Store (Port Ring)) (p : Port Ring) (array : List Ptr)
      → IsFresh m
      → AllReady L m array
      → AllReady L (alloc m (some p)).1 array
  AllReady-alloc m p [] f v = tt
  AllReady-alloc m p (a ∷ rest) f v =
      ((v.0.0, load-alloc m p v.0.0 a f v.0.1, v.0.2, v.0.3), AllReady-alloc m p rest f v.1)

  AllReady-append :
      (m : Store (Port Ring)) (array : List Ptr) (a : Ptr) (p : Port Ring)
      → AllReady L m array
      → IsAt m a p
      → IsReady L.rings p
      → IsRegistered p
      → AllReady L m (array ++ (a ∷ []))
  AllReady-append m [] a p v h r g = ((p, h, r, g), tt)
  AllReady-append m (b ∷ rest) a p v h r g = (v.0, AllReady-append m rest a p v.1 h r g)

  get_elem?-append :
      (array : List Ptr) (a : Ptr) (n : ℕ)
      → length array ≡ n
      → get_elem? (array ++ (a ∷ [])) n ≡ some a
  get_elem?-append [] a zero h = refl
  get_elem?-append [] a (suc n) h = absurd (omega arith)
  get_elem?-append (x ∷ rest) a zero h = absurd (omega arith)
  get_elem?-append (x ∷ rest) a (suc n) h = get_elem?-append rest a n (omega arith)

  -- What registering a port in a live client gives.
  pub record Registered (m : Malloc) (address : ℕ) (name : List ℕ) (options : ℕ) (w : World L)
      (v : IsLive L w) : Type 0 where
    pub port : Ptr
    pub after : World L
    pub live : IsLive L after
    pub returns : register_port L m address name options w ≡ ok (port, after)
    pub stored : get_elem? live.array w.self.nports ≡ some port
    pub counted : after.self.nports ≡ suc w.self.nports
    pub same_queue : after.self.event_queue ≡ w.self.event_queue
    pub same_activated : after.self.activated ≡ w.self.activated
    pub same_calls : after.objects.calls ≡ w.objects.calls
    pub fresh : IsFresh after.objects.rb_ports
    pub appended : live.array ≡ v.array ++ (port ∷ [])
    pub undisturbed :
        (a : Ptr) (p : Port Ring) → IsAt w.objects.rb_ports a p → IsAt after.objects.rb_ports a p
    pub same_rest :
        after.self ≡ record (w.self) { ports = some live.array; nports = suc w.self.nports }

  -- With memory, room in the array, and a port from JACK, a live client stays live: the new port has
  -- its ring and its frame buffer and is entered behind the others. The entries of the others, their
  -- structs and all else of the client stay as they were.
  pub register_port_lem :
      (m : Malloc) (address : ℕ) (name : List ℕ) (options : ℕ) (w : World L) (v : IsLive L w)
      {buffer : List ℕ} {ring : Ring} {j : ℕ}
      → IsFresh w.objects.rb_ports
      → m.room ≡ true
      → m.bytes w.self.rb_size ≡ some buffer
      → create (jacks_sample_size * w.self.rb_size % 2 ^ 64) ≡ some ring
      → w.self.rb_size < 2 ^ 32
      → w.self.nports < max_ports
      → (L.jack.port_register w.objects.server w.self.client name options).0 ≡ some j
      → Registered m address name options w v
  unfolding register_port Port.new_port
  register_port_lem m address name options w v {buffer} {ring} {j} f room bytes made small below
        given =
      record {
        port = some w.objects.rb_ports.fresh;
        after = record {
          self = record (w.self) { ports = some array'; nports = suc w.self.nports };
          objects = record (w.objects) { rb_ports = ports'; server = reg.1 };
        };
        live = record {
          queue = v.queue;
          array = array';
          has_queue = v.has_queue;
          has_array = refl;
          counted =
              omega (arith, length-append v.array (some w.objects.rb_ports.fresh ∷ []), v.counted);
          ready =
              AllReady-append ports' v.array (some w.objects.rb_ports.fresh) port
                (AllReady-alloc w.objects.rb_ports port v.array f v.ready)
                (load-alloc_self w.objects.rb_ports port)
                (record {
                  ring = ring;
                  buffer = buffer;
                  has_ring = refl;
                  has_buffer = refl;
                  sized = m.bytes_length w.self.rb_size bytes;
                  small = small;
                })
                (j, given);
        };
        returns =
            simp (register_port, port_made, v.has_array, lt→ltb w.self.nports max_ports below);
        stored = get_elem?-append v.array (some w.objects.rb_ports.fresh) w.self.nports v.counted;
        counted = refl;
        same_queue = refl;
        same_activated = refl;
        same_calls = refl;
        fresh = alloc-IsFresh w.objects.rb_ports port f;
        appended = refl;
        undisturbed = λ a p h. load-alloc w.objects.rb_ports port p a f h;
        same_rest = refl;
      }
    where
      reg : Ptr × L.jack.Server
      reg = L.jack.port_register w.objects.server w.self.client name options

      port : Port Ring
      port = record {
        playback_lat_cb_fd = no_fds;
        capture_lat_cb_fd = no_fds;
        lat_cb_is_init = false;
        rb_size = w.self.rb_size;
        jport = reg.0;
        jackclient = some address;
        rb = some ring;
        framebuf = some buffer;
        overruns = m.leftover;
      }

      port_made : Port.new L.rings m reg.0 (some address) w.self.rb_size ≡ some port
      port_made = new-room L.rings m reg.0 (some address) w.self.rb_size room ∙ (rw (bytes, made))

      ports' : Store (Port Ring)
      ports' = (alloc w.objects.rb_ports (some port)).1

      array' : List Ptr
      array' = v.array ++ (some w.objects.rb_ports.fresh ∷ [])

  -- Nothing guards the array: in a live client that has its 999 ports, registering one more, with
  -- memory for it, writes behind the end of the array.
  register_port_overflow :
      (m : Malloc) (address : ℕ) (name : List ℕ) (options : ℕ) (w : World L)
      → IsLive L w
      → m.room ≡ true
      → max_ports ≤ w.self.nports
      → register_port L m address name options w ≡ fault out_of_bounds
  unfolding register_port Port.new_port
  register_port_overflow m address name options w v room over =
      rw
        (
          register_port,
          new-room L.rings m (L.jack.port_register w.objects.server w.self.client name options).0
              (some address) w.self.rb_size room,
        )
        (rw v.has_array (rw (le→ltb w.self.nports max_ports over)))
