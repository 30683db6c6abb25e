-- ===== src/Lua/ScriptTests.antt =====
-- modules/lua/Jacks_lua_wrap.c with the callbacks of corelib/JacksRbClient.c, on a small script.
use jacks.Prelude.{
  ℕ, ◌≡◌, refl, true, false, List, [], ◌∷◌, none, some, pos, take, replicate, arith,
}
use jacks.Memory.{Store, empty, alloc, ok}
use jacks.Samples.{libs, Bytes}
use jacks.Port.{Port}
use jacks.Port.Stream.{IsReady}
use jacks.Client.State.{
  World, Objects, no_int, on_shutdown, set_sample_rate_callback, set_session_callback,
  set_error_function, set_process_callback, activate_client, session_reply, session_event_free,
}
use jacks.Client.Callbacks.{process_cb, session_begin, session_end}
use jacks.Client.Callbacks.Wired.{IsWired}
use jacks.Client.Samples.{port, four_events, one_latch, client, wired}
use jacks.Client.Setup.Life.{bare_event}
use jacks.Lua.Values.{nil, number, text, userdata, port_buffer, event, Method}
use jacks.Lua.Values
use jacks.Lua.Act.{ret}
use jacks.Lua.Machine.{Machine, put_world, world_at, buffer_at}
use jacks.Lua.Dispatch.{call}
use jacks.Lua.Cycle.{IsRunning, cycle_reaches_script}
use jacks.Lua.Startup.{start-IsRunning}
use jacks.Lua.Saving.{IsResponsive, session_reaches_script}
use jacks.Lua.Samples.{ints, env, machine, accepting, session}

-- A port that reads eight bytes at a time.
abbrev roomy : Port Bytes
roomy = record port { rb_size = 8; framebuf = some (replicate 8 0) }

abbrev roomy-IsReady : IsReady libs.rings roomy
roomy-IsReady = record {
  ring = record { held = []; room = 7 };
  buffer = replicate 8 0;
  has_ring = refl;
  has_buffer = refl;
  sized = refl;
  small = omega arith;
}

-- The four events and the latch of a client, its port, and the session event of JACK.
abbrev running : Machine libs
running =
    let ports : Store (Port Bytes) = empty in
    let objects : Objects libs = (machine accepting).objects in
    record (machine accepting) {
      objects = record objects {
        events = four_events;
        latches = one_latch;
        rb_ports = (alloc ports (some roomy)).1;
      };
    }

abbrev running-IsRunning : IsRunning libs ints env running 0 0
running-IsRunning = record {
  box = record { impl = some 0; process_audio = no_int };
  self = (client [] 2).self;
  port_box = record { impl = some 0; clientimpl = some 0 };
  address = 0;
  here = roomy;
  event = bare_event 0;
  queue = record { line = []; places = 2 };
  ready = roomy-IsReady;
  box_live = refl;
  client_live = refl;
  port_box_live = refl;
  port_addressed = refl;
  port_live = refl;
  event_live = refl;
  process_type = refl;
  one_port = refl;
  counted = refl;
  has_queue = refl;
  queue_empty = refl;
  queue_room = omega arith;
  ring_empty = refl;
}

-- A frame of four bytes.
cycle_reaches_script_example :
    (w : World libs) × (m' n n' n'' : Machine libs) × (e b k : ℕ) × (bytes : List ℕ) × (process_cb
        libs 1
        (record { self = (client [] 2).self; objects = running.objects })
      ≡ ok (pos 0, w))
    × (put_world libs (some 0) w running ≡ ok m')
    × (call libs ints env Method.get_event (userdata Values.client 0 false ∷ number (pos 0) ∷ []) m'
        ≡ ret (userdata event e false ∷ []) n)
    × (call libs ints env Method.get_type (userdata event e false ∷ []) n
        ≡ ret (number (pos 0) ∷ []) n')
    × (call libs ints env Method.get_buffer (userdata Values.port 0 false ∷ []) n'
        ≡ ret (userdata port_buffer b false ∷ []) n'')
    × (buffer_at libs n'' (some b) ≡ ok (record { framebuf = some bytes; len = k }))
    × (k ≡ 4)
    × (take k bytes ≡ 5 ∷ 5 ∷ 5 ∷ 5 ∷ [])
unfolding jacks.Lua.Constants.constant_value
cycle_reaches_script_example =
    cycle_reaches_script libs ints env running 0 0 1 7 false false (pos 0) running-IsRunning refl
      (omega arith) (omega arith) (omega arith)

abbrev running-IsWired :
    IsWired libs (record { self = (client [] 2).self; objects = running.objects })
running-IsWired = record {
  event = (wired [] 2).event;
  latch = (wired [] 2).latch;
  queue = record { line = []; places = 2 };
  event_live = refl;
  latch_live = refl;
  token = refl;
  target = refl;
  has_queue = refl;
}

abbrev running-IsResponsive : IsResponsive libs ints env running 0
running-IsResponsive = record {
  box = record { impl = some 0; process_audio = no_int };
  self = (client [] 2).self;
  wired = running-IsWired;
  box_live = refl;
  client_live = refl;
  right_type = refl;
  unanswered = refl;
  queue_empty = refl;
  queue_room = omega arith;
}

session_reaches_script_example :
    (w1 w2 w3 : World libs) × (m1 n1 n2 n3 n4 : Machine libs) × (e : ℕ) × (session_begin libs
        (some 0)
        (record { self = (client [] 2).self; objects = running.objects })
      ≡ ok w1)
    × (session_end libs (some 0) w1 ≡ ok none)
    × (put_world libs (some 0) w1 running ≡ ok m1)
    × (call libs ints env Method.get_event (userdata Values.client 0 false ∷ number (pos 0) ∷ []) m1
        ≡ ret (userdata event e false ∷ []) n1)
    × (call libs ints env Method.get_type (userdata event e false ∷ []) n1
        ≡ ret (number (pos 1) ∷ []) n2)
    × (call libs ints env Method.get_session_event_type (userdata event e false ∷ []) n2
        ≡ ret (number (pos 1) ∷ []) n3)
    × (call libs ints env Method.complete (userdata event e false ∷ []) n3 ≡ ret [] n4)
    × (world_at libs n4 (some 0) ≡ ok w2)
    × (session_end libs (some 0) w2 ≡ ok (some w3))
    × (w3.objects.calls ≡ session_reply (some 0) ∷ session_event_free (some 0) ∷ [])
unfolding jacks.Lua.Constants.constant_value
session_reaches_script_example =
    session_reaches_script libs ints env running 0 false (pos 0) running-IsResponsive (some 0)
      session refl

start-IsRunning_example :
    (m1 m2 m3 : Machine libs) × (c p : ℕ) × (call libs ints env Method.new_client
        (text (b'j' ∷ []) ∷ nil ∷ number (pos 0) ∷ number (pos 2) ∷ [])
        (machine accepting)
      ≡ ret (userdata Values.client c true ∷ []) m1)
    × (call libs ints env Method.register_port
          (userdata Values.client c true ∷ text (b'i' ∷ b'n' ∷ []) ∷ number (pos 1) ∷ [])
          m1
        ≡ ret (userdata Values.port p false ∷ []) m2)
    × (call libs ints env Method.activate (userdata Values.client c true ∷ []) m2
        ≡ ret (number (pos 0) ∷ []) m3)
    × (m3.objects.calls
        ≡ on_shutdown ∷ set_sample_rate_callback ∷ set_session_callback ∷ set_error_function
          ∷ set_process_callback ∷ activate_client ∷ [])
    × IsResponsive libs ints env m3 c
    × (r : IsRunning libs ints env m3 c p) × (r.here.rb_size ≡ 2)
    × (r.ready.ring ≡ record { held = []; room = 7 })
    × (r.here.jport ≡ some 7)
start-IsRunning_example =
    start-IsRunning libs ints env (machine accepting) (b'j' ∷ []) (b'i' ∷ b'n' ∷ []) (pos 0) (pos 2)
      (pos 1) 3 (record { line = []; places = 2 }) (record { held = []; room = 7 }) (replicate 2 0)
      refl refl refl refl refl refl refl refl (omega arith)
