-- ===== src/Lua/Startup.antt =====
-- modules/lua/Jacks_lua_wrap.c over corelib/JacksRbClient.c: a script that opens a client, registers
-- a port and activates.
use jacks.Prelude.{
  ℕ, ◌*◌, ◌%◌, ◌^◌, ◌<◌, ◌≡◌, refl, ◌∙◌, ap, true, false, List, [], ◌∷◌, ◌++◌, none, some,
  append_assoc,
}
use jacks.Memory.{Ptr}
use jacks.Memory.Access.{IsAt, load-saved, load-alloc_self}
use jacks.Libraries.{Libs}
use jacks.Port.{jacks_sample_size}
use jacks.Client.State.{
  Call, World, no_int, yes_int, on_shutdown, set_sample_rate_callback, set_session_callback,
  set_error_function, set_process_callback, activate_client,
}
use jacks.Client.Setup.Life.{all_rooms, size_of}
use jacks.Lua.Values.{LuaLib, nil, number, text, userdata, client, port, Method, before_nul}
use jacks.Lua.Act.{ret}
use jacks.Lua.Machine.{Machine, Env, ClientBox}
use jacks.Lua.Opening.{
  opened, after_new, after_call, after_register, new_client-opened, register_port-registered,
  activate-activated,
}
use jacks.Lua.Cycle.{IsRunning}
use jacks.Lua.Saving.{IsResponsive}
use jacks.Lua.Started.{
  active, first_port, register_port-first, IsRunning-started, IsResponsive-started,
}
use jacks.Lua.Dispatch.{call}

module _ (L : Libs) (Q : LuaLib) (E : Env L) where
  open L.rings use {Ring, create}
  open L.queues use {Queue, queue_new}

  -- A script that makes a client with `JsClient(name, nil, x, y)`, registers a port with options `z`
  -- and activates, where neither `y` nor `z` is negative, and there are memory, a server and a queue:
  -- the client then waits for a session event, and for a cycle with that one port, whose array has
  -- the ring size that the script asked for, or 16384 for 0, and whose ring is the one made for four
  -- times as many bytes. JACK was given four callbacks, then the process callback, and then the
  -- activation, whose answer the script gets; the port's pointer is what JACK gave for its name.
  pub start-IsRunning :
      (m : Machine L) (name port_name : List ℕ) (x y z : Q.Number) (h : ℕ) (q : Queue) (ring : Ring)
      (buffer : List ℕ)
      → Q.non_negative y ≡ true
      → Q.non_negative z ≡ true
      → E.rooms ≡ all_rooms
      → E.client_open (some (before_nul name)) none (Q.to_int x) ≡ some h
      → queue_new (size_of L (Q.to_unsigned y)) ≡ some q
      → E.memory.room ≡ true
      → E.memory.bytes (size_of L (Q.to_unsigned y)) ≡ some buffer
      → create (jacks_sample_size * size_of L (Q.to_unsigned y) % 2 ^ 64) ≡ some ring
      → Q.to_unsigned y < 2 ^ 32
      → (m1 m2 m3 : Machine L) × (c p : ℕ) × (call L Q E Method.new_client
            (text name ∷ nil ∷ number x ∷ number y ∷ [])
            m
          ≡ ret (userdata client c true ∷ []) m1)
        × (call L Q E Method.register_port
              (userdata client c true ∷ text port_name ∷ number z ∷ [])
              m1
            ≡ ret (userdata port p false ∷ []) m2)
        × (call L Q E Method.activate (userdata client c true ∷ []) m2
            ≡ ret (number (Q.of_int (E.client_activate m2.objects.server (some h))) ∷ []) m3)
        × (m3.objects.calls
            ≡ m.objects.calls
              ++ (on_shutdown ∷ set_sample_rate_callback ∷ set_session_callback ∷ set_error_function
                  ∷ set_process_callback ∷ activate_client ∷ []))
        × IsResponsive L Q E m3 c
        × (r : IsRunning L Q E m3 c p) × (r.here.rb_size ≡ size_of L (Q.to_unsigned y))
        × (r.ready.ring ≡ ring)
        × (r.here.jport
            ≡ (L.jack.port_register m1.objects.server
                (some h)
                (before_nul port_name)
                (Q.to_unsigned_long z)).0)
  start-IsRunning m name port_name x y z h q ring buffer h1 h2 h3 h4 h5 h6 h7 h8 small =
      let n : ℕ = Q.to_unsigned y in
      let (w, made, o) = opened L m.objects h n q h5 in
      let address : ℕ = m.clients.fresh in
      let c : ℕ = m.boxes.fresh in
      let idle : ClientBox = record { impl = some address; process_audio = no_int } in
      let audio : ClientBox = record { impl = some address; process_audio = yes_int } in
      let m1 : Machine L = after_new L Q E m name w in
      let w1 : World L =
        first_port L E w address (before_nul port_name) (Q.to_unsigned_long z) ring buffer in
      let a : Ptr = some w.objects.rb_ports.fresh in
      let m2 : Machine L = after_register L Q E m1 c address port_name a w1 in
      let client_at : IsAt m1.clients (some address) w.self = load-alloc_self m.clients w.self in
      let box_at : IsAt m1.boxes (some c) idle = load-alloc_self m.boxes idle in
      let client_at2 : IsAt m2.clients (some address) w1.self =
        load-saved m1.clients (some address) w.self w1.self client_at in
      let box_at2 : IsAt m2.boxes (some c) audio = load-saved m1.boxes (some c) idle audio box_at in
      let (running, size, same, named) =
        IsRunning-started L Q E m2 c m.ports.fresh address w (before_nul port_name)
          (Q.to_unsigned_long z) ring buffer o h5 h7 h8 small box_at2
          (load-alloc_self m1.ports (record { impl = a; clientimpl = some address })) client_at2 in
      (
        m1,
        m2,
        after_call L Q E m2 address (active L w1),
        c,
        m.ports.fresh,
        new_client-opened L Q E m name x y w h1 (rw (h3, h4) made),
        register_port-registered L Q E m1 c address true port_name z idle w.self a w1 box_at refl
            client_at h2
            (register_port-first L E w address (before_nul port_name) (Q.to_unsigned_long z) ring
              buffer o.no_ports o.portless h6 (rw o.sized h7) (rw o.sized h8)),
        activate-activated L Q E m2 c address true w1.self box_at2 client_at2 o.inactive
            ∙ ap
                (λ (k : Ptr).
                  ret (number (Q.of_int (E.client_activate m2.objects.server k)) ∷ [])
                    (after_call L Q E m2 address (active L w1)))
                o.handle,
        ap (λ (t : List Call). t ++ (set_process_callback ∷ activate_client ∷ [])) o.calls
            ∙ append_assoc m.objects.calls
                (on_shutdown ∷ set_sample_rate_callback ∷ set_session_callback ∷ set_error_function
                  ∷ [])
                (set_process_callback ∷ activate_client ∷ []),
        IsResponsive-started L Q E m2 c address w (before_nul port_name) (Q.to_unsigned_long z) ring
            buffer o h5 box_at2 client_at2,
        running,
        size,
        same,
        named
            ∙ ap
                (λ (k : Ptr).
                  (L.jack.port_register w.objects.server k (before_nul port_name)
                    (Q.to_unsigned_long z)).0)
                o.handle,
      )
