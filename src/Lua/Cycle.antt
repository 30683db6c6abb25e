-- ===== src/Lua/Cycle.antt =====
-- modules/lua/Jacks_lua_wrap.c over corelib/JacksRbClient.c and corelib/JacksRbPort.c: a cycle of JACK, from
-- the process callback to the script.
use jacks.Prelude.{
  subst, ℕ, suc, ◌*◌, ◌^◌, ◌≤◌, ◌<◌, ◌≡◌, refl, ◌∙◌, ap, Bool, false, List, [], ◌∷◌, ◌++◌, some,
  pos, length, take, min, arith, take_all,
}
use jacks.Memory.{ok, Ptr}
use jacks.Memory.Access.{IsAt, saved, load-saved, load-alloc_self}
use jacks.Libraries.{Libs}
use jacks.Exceptions.{clear_exception}
use jacks.Port.{Port, write_to_ringbuffer}
use jacks.Port.Stream.{IsReady}
use jacks.Port.Write.{write-fits}
use jacks.Port.Flow.{refilled}
use jacks.Client.State.{Client, World, JsEvent, EventType, event_code, enqueue_event, post_mutex}
use jacks.Client.Callbacks.{process_cb, process_from}
use jacks.Client.Callbacks.Live.{write_port_lem}
use jacks.Client.Events.Waiting.{requeued}
use jacks.Lua.Values.{LuaLib, number, userdata, client, event, port, port_buffer, Method}
use jacks.Lua.Act.{ret}
use jacks.Lua.Machine.{Machine, Env, ClientBox, PortBox, put_world, buffer_at}
use jacks.Lua.Delivery.{handed, stored_world, get_event-stored_world}
use jacks.Lua.Dispatch.{call}
use jacks.Lua.Constants.{Constant, constant_value, get_type_lem}
use jacks.Lua.Buffers.{get_buffer_lem}

smaller :
    (xs : List ℕ) (n size : ℕ) → length xs ≡ 4 * n → 4 * n ≤ size → min (length xs) size ≡ 4 * n
smaller xs n size e h = omega arith

module _ (L : Libs) where
  open L.queues use {Queue, entries, limit, enqueue, enqueue_room}

  -- The client after a cycle, and the world around it.
  abbrev pub signalled : Client L → Queue → Client L
  signalled self q = record self {
    event_queue = some (enqueue q self.process_event).1;
    mutex = suc self.mutex;
  }

  abbrev pub cycled : World L → Queue → Ptr → Port L.rings.Ring → World L
  cycled w q a p = record {
    self = signalled w.self q;
    objects = record (w.objects) { rb_ports = saved w.objects.rb_ports a p };
  }

  -- A cycle that one port has room for, and the queue too.
  one_cycle :
      (w : World L) (nframes : ℕ) (q : Queue) (a : Ptr) (here : Port L.rings.Ring)
      (r' : L.rings.Ring)
      → w.self.ports ≡ some (a ∷ [])
      → w.self.nports ≡ 1
      → w.self.event_queue ≡ some q
      → length (entries q) < limit q
      → IsAt w.objects.rb_ports a here
      → write_to_ringbuffer L.rings L.jack w.objects.server here nframes
        ≡ ok (pos 0, record here { rb = some r' })
      → process_cb L nframes w ≡ ok (pos 0, cycled w q a (record here { rb = some r' }))
  unfolding process_cb process_from enqueue_event post_mutex
  one_cycle w nframes q a here r' h1 h2 h3 h4 h5 h6 =
      ap (λ k. process_from L nframes k 0 w) h2
      ∙ rw
          (
            write_port_lem L nframes 0 w (a ∷ []) a here (record here { rb = some r' }) (pos 0) h1
                refl h5 h6,
            h3,
            (enqueue_room q w.self.process_event h4).0,
          )
          refl

module _ (L : Libs) (Q : LuaLib) (E : Env L) where
  -- A ring that holds just the samples of a cycle, read into an array with room for them.
  get_buffer-samples :
      (m : Machine L) (p a nframes : ℕ) (own : Bool) (i : Ptr) (here : Port L.rings.Ring)
      (v : IsReady L.rings here) (samples : List ℕ)
      → IsAt m.ports (some p) (record { impl = some a; clientimpl = i })
      → IsAt m.objects.rb_ports (some a) here
      → L.rings.contents v.ring ≡ samples
      → length samples ≡ 4 * nframes
      → 4 * nframes ≤ here.rb_size
      → (n : Machine L) × (b k : ℕ) × (bytes : List ℕ) × (call L Q E Method.get_buffer
            (userdata port p own ∷ [])
            m
          ≡ ret (userdata port_buffer b false ∷ []) n)
        × (buffer_at L n (some b) ≡ ok (record { framebuf = some bytes; len = k }))
        × (k ≡ 4 * nframes)
        × (take k bytes ≡ samples)
  get_buffer-samples m p a nframes own i here v samples h1 h2 h3 h4 h5 =
      let (b, _, n, _, one, _, k, _, given, _, _, shown, _, _, count, bytes, _) =
        get_buffer_lem L Q E m p a own i here v h1 h2 in
      (
        n,
        b,
        k,
        one,
        given,
        shown,
        count ∙ smaller (L.rings.contents v.ring) nframes here.rb_size (ap length h3 ∙ h4) h5,
        bytes ∙ (ap (take here.rb_size) h3 ∙ take_all here.rb_size samples (omega (arith, h4, h5))),
      )

  -- A client of a script, at `c`, that waits for a cycle: one port, which the script has at `p`, an
  -- empty ring, an empty queue with room, and a process event of the right type.
  pub record IsRunning (m : Machine L) (c p : ℕ) : Type 0 where
    pub box : ClientBox
    pub self : Client L
    pub port_box : PortBox
    pub address : ℕ
    pub here : Port L.rings.Ring
    pub event : JsEvent
    pub queue : L.queues.Queue
    pub ready : IsReady L.rings here
    pub box_live : IsAt m.boxes (some c) box
    pub client_live : IsAt m.clients box.impl self
    pub port_box_live : IsAt m.ports (some p) port_box
    pub port_addressed : port_box.impl ≡ some address
    pub port_live : IsAt m.objects.rb_ports (some address) here
    pub event_live : IsAt m.objects.events self.process_event event
    pub process_type : event.etype ≡ event_code EventType.process
    pub one_port : self.ports ≡ some (some address ∷ [])
    pub counted : self.nports ≡ 1
    pub has_queue : self.event_queue ≡ some queue
    pub queue_empty : L.queues.entries queue ≡ []
    pub queue_room : 0 < L.queues.limit queue
    pub ring_empty : L.rings.contents ready.ring ≡ []

  -- From JACK to the script, for a client that waits for a cycle and whose port JACK registered, in a
  -- cycle for which there is room
  -- in the ring of its port and in the array of a read: `_process_cb` returns 0. The script's
  -- `c:getEvent()` then gives an event, `e:getType()` pushes the constant PROCESS, and
  -- `p:getBuffer()` gives a buffer with four bytes for each frame, which are the bytes that JACK had
  -- in the port in that cycle.
  pub cycle_reaches_script :
      (m : Machine L) (c p nframes j : ℕ) (own own' : Bool) (x : Q.Number) (r : IsRunning m c p)
      → r.here.jport ≡ some j
      → nframes < 2 ^ 32
      → 4 * nframes ≤ L.rings.capacity r.ready.ring
      → 4 * nframes ≤ r.here.rb_size
      → (w : World L) × (m' n n' n'' : Machine L) × (e b k : ℕ) × (bytes : List ℕ) × (process_cb L
            nframes
            (record { self = r.self; objects = m.objects })
          ≡ ok (pos 0, w))
        × (put_world L r.box.impl w m ≡ ok m')
        × (call L Q E Method.get_event (userdata client c own ∷ number x ∷ []) m'
            ≡ ret (userdata event e false ∷ []) n)
        × (call L Q E Method.get_type (userdata event e false ∷ []) n
            ≡ ret (number (Q.of_int (pos (constant_value Constant.process))) ∷ []) n')
        × (call L Q E Method.get_buffer (userdata port p own' ∷ []) n'
            ≡ ret (userdata port_buffer b false ∷ []) n'')
        × (buffer_at L n'' (some b) ≡ ok (record { framebuf = some bytes; len = k }))
        × (k ≡ 4 * nframes)
        × (take k bytes ≡ L.jack.port_get_buffer m.objects.server j nframes)
  cycle_reaches_script m c p nframes j own own' x r given small fits fits_array =
      let w : World L = record { self = r.self; objects = m.objects } in
      let a : ℕ = r.address in
      let samples : List ℕ = L.jack.port_get_buffer m.objects.server j nframes in
      let room : length (L.queues.entries r.queue) < L.queues.limit r.queue =
        omega (arith, ap length r.queue_empty, r.queue_room) in
      let (ring, wrote, held, _) =
        write-fits L.rings L.jack m.objects.server r.here j nframes given r.ready.has_ring small
          (omega (arith, ap length r.ring_empty)) in
      let next : Port L.rings.Ring = record r.here { rb = some ring } in
      let w' : World L = cycled L w r.queue (some a) next in
      let (q', put, got) =
        get_event-stored_world L Q E m c own x r.box r.self w' r.queue r.self.process_event
          r.box_live r.client_live refl r.queue_empty r.queue_room in
      let n : Machine L =
        handed L Q E (stored_world L Q E m r.box.impl w') r.box.impl r.self.process_event
          (requeued L w' q') in
      let n' : Machine L = record n { errors = clear_exception n.errors } in
      let (n'', b, k, bytes, given, shown, count, same) =
        get_buffer-samples n' p a nframes own' r.port_box.clientimpl next
          (refilled L.rings L.jack r.here r.ready ring r.here.overruns) samples
          (subst
            (λ (i : Ptr).
              IsAt m.ports (some p) (record { impl = i; clientimpl = r.port_box.clientimpl }))
            r.port_addressed r.port_box_live)
          (load-saved m.objects.rb_ports (some a) r.here next r.port_live)
          (held ∙ ap (λ t. t ++ samples) r.ring_empty)
          (L.jack.port_get_buffer_length m.objects.server j nframes) fits_array in
      (
        w',
        stored_world L Q E m r.box.impl w',
        n,
        n',
        n'',
        m.events.fresh,
        b,
        k,
        bytes,
        one_cycle L w nframes r.queue (some a) r.here ring r.one_port r.counted r.has_queue room
            r.port_live wrote,
        put,
        got,
        get_type_lem L Q E n m.events.fresh false (record { impl = r.self.process_event }) r.event
            EventType.process (load-alloc_self m.events (record { impl = r.self.process_event }))
            r.event_live r.process_type,
        given,
        shown,
        count,
        same,
      )
