-- ===== src/Lua/Functions/Ports.antt =====
-- modules/lua/Jacks_lua_wrap.c: `JsPort`.
use jacks.Prelude.{
  ℕ, List, [], ◌∷◌, ◌++◌, Bool, not, ◌&&◌, if◌then◌else◌, Option, none, some, ℤ, nonzero,
}
use jacks.Memory.{ok, Ptr, load, save, release, alloc}
use jacks.Libraries.{Libs}
use jacks.Port.{Port, get_port, Fds, wakeup_latency_callbacks, raise_sigusr2}
use jacks.Port
use jacks.Client.State.{Client}
use jacks.Api.Ports.{connect, init_capture_listener, init_playback_listener, init_listener}
use jacks.Lua.Values.{is_some, int_of, unsigned_of}
use jacks.Lua.Act.{Act, ret, pure, gets, read, modify, update_with, ◌>>=◌, ◌>>◌}
use jacks.Lua.Machine.{Machine, Env, into, jack, with_jack}

-- A listener registers the port's callback: its socket is new, the pair was made, and the callback
-- is not registered yet.
abbrev pub registers : Fds → Option Fds → Bool → Bool
registers fds pair done = not (nonzero fds.far) && is_some pair && not done

module _ (L : Libs) where
  -- The port struct behind a script's port, its address, and the client struct that it names.
  unfoldable pub port_of : Ptr → Act ⊥ (Machine L) (Ptr × Port L.rings.Ring)
  port_of self = do
    b ← read (λ m. load m.ports self)
    p ← read (λ m. load m.objects.rb_ports b.impl)
    pure (b.impl, p)

  unfoldable pub client_of_port : Port L.rings.Ring → Act ⊥ (Machine L) (Client L)
  client_of_port p = read (λ m. load m.clients p.jackclient)

  -- The client's handle, which is read only where the listener is registered.
  unfoldable pub handle_if : Bool → Port L.rings.Ring → Act ⊥ (Machine L) Ptr
  handle_if b p =
      read (λ m. if b then into (load m.clients p.jackclient) (λ c. c.client) else ok none)

  -- The port struct after a call.
  unfoldable pub put_port : Ptr → Port L.rings.Ring → Act ⊥ (Machine L) (Unit {0})
  put_port a p = update_with (λ m.
      into (save m.objects.rb_ports a p)
        (λ s. record m { objects = record (m.objects) { rb_ports = s } }))

  unfoldable pub delete_js_port : Ptr → Act ⊥ (Machine L) (Unit {0})
  unfolding Port.free
  delete_js_port self = do
    b ← read (λ m. load m.ports self)
    update_with (λ m.
        into (Port.free b.impl m.objects.rb_ports)
          (λ s. record m { objects = record (m.objects) { rb_ports = s } }))
    update_with (λ m. into (release m.ports self) (λ s. record m { ports = s }))

  -- The buffer object points into the port.
  unfoldable pub js_port_get_buffer : Ptr → Act ⊥ (Machine L) Ptr
  unfolding port_of put_port
  js_port_get_buffer self = do
    p ← port_of self
    got ← read (λ m. Port.read_from_ringbuffer L.rings p.1)
    put_port p.0 got.2
    holder ← gets (λ m. alloc m.buffers (some (record { framebuf = p.0; len = got.1 })))
    modify (λ m. record m { buffers = holder.1 })
    pure holder.0

  unfoldable pub js_port_name : Ptr → Act ⊥ (Machine L) (List ℕ)
  unfolding port_of
  js_port_name self = do p ← port_of self; gets (λ m. L.jack.port_name (jack L m) (get_port p.1))

  unfoldable pub js_port_connect : Ptr → Ptr → Act ⊥ (Machine L) ℤ
  unfolding port_of client_of_port
  js_port_connect self that = do
    a ← port_of self
    b ← port_of that
    c ← client_of_port a.1
    done ← gets (λ m. connect L.rings L.jack (λ _. c.client) (jack L m) a.1 b.1 m.errors)
    modify (λ m. record (with_jack L m done.0.1) { errors = done.1 })
    pure done.0.0

  unfoldable pub js_port_wakeup_latency_callbacks : Ptr → Act ⊥ (Machine L) (Unit {0})
  unfolding port_of
  js_port_wakeup_latency_callbacks self = do
    p ← port_of self
    modify (λ m. record m { wakeups = m.wakeups ++ wakeup_latency_callbacks p.1 })

  unfoldable pub js_port_wakeup_sig_latency_callback : Ptr → Act ⊥ (Machine L) (Unit {0})
  js_port_wakeup_sig_latency_callback self = do
    b ← read (λ m. load m.ports self)
    modify (λ m. record m { wakeups = m.wakeups ++ (raise_sigusr2 ∷ []) })

  unfoldable pub calloc_js_port : Act ⊥ (Machine L) Ptr
  calloc_js_port m =
      let (p, s) = alloc m.ports (some (record { impl = none; clientimpl = none })) in
      ret p (record m { ports = s })

  module _ (E : Env L) where
    unfoldable pub js_port_get_latency_range : Ptr → ℤ → Act ⊥ (Machine L) Ptr
    unfolding port_of
    js_port_get_latency_range self mode = do
      p ← port_of self
      range ← gets (λ m. E.latency_range (jack L m) (get_port p.1) mode)
      holder ←
          gets
            (λ m. alloc m.ranges (some (record { rmin = int_of range.0; rmax = int_of range.1 })))
      modify (λ m. record m { ranges = holder.1 })
      pure holder.0

    unfoldable pub js_port_set_latency_range : Ptr → ℤ → ℤ → ℤ → Act ⊥ (Machine L) (Unit {0})
    unfolding port_of
    js_port_set_latency_range self mode rmin rmax = do
      p ← port_of self
      modify (λ m.
          with_jack L m
            (E.set_latency (jack L m) (get_port p.1) mode (unsigned_of rmin) (unsigned_of rmax)))

    unfoldable pub js_port_init_capture_latency_listener : Ptr → Act ⊥ (Machine L) ℤ
    unfolding port_of handle_if put_port
    js_port_init_capture_latency_listener self = do
      p ← port_of self
      pair ← gets (λ m. E.socket_pair (jack L m))
      handle ← handle_if (registers p.1.capture_lat_cb_fd pair p.1.lat_cb_is_init) p.1
      done ←
          gets (λ m.
            init_capture_listener L.rings L.jack (λ _. handle) (jack L m) p.0 p.1 pair m.errors)
      put_port p.0 done.0.1
      modify (λ m. record (with_jack L m done.0.2) { errors = done.1 })
      pure done.0.0

    unfoldable pub js_port_init_playback_latency_listener : Ptr → Act ⊥ (Machine L) ℤ
    unfolding port_of handle_if put_port
    js_port_init_playback_latency_listener self = do
      p ← port_of self
      pair ← gets (λ m. E.socket_pair (jack L m))
      handle ← handle_if (registers p.1.playback_lat_cb_fd pair p.1.lat_cb_is_init) p.1
      done ← gets (λ m.
          init_playback_listener L.rings L.jack (λ _. handle) (jack L m) p.0 p.1 pair m.errors)
      put_port p.0 done.0.1
      modify (λ m. record (with_jack L m done.0.2) { errors = done.1 })
      pure done.0.0

    unfoldable pub js_port_init_latency_listener : Ptr → Act ⊥ (Machine L) ℤ
    unfolding port_of client_of_port
    js_port_init_latency_listener self = do
      p ← port_of self
      c ← client_of_port p.1
      done ← gets (λ m. init_listener L.rings L.jack (λ _. c.client) (jack L m) p.0 p.1 m.errors)
      modify (λ m. record (with_jack L m done.0.1) { errors = done.1 })
      pure done.0.0
