-- ===== src/Client/Samples.antt =====
-- A small client of corelib/JacksRbClient.c, on which tests run.
use jacks.Prelude.{ℕ, refl, List, [], ◌∷◌, some, false, pos, arith}
use jacks.Memory.{Store, empty, alloc, Ptr}
use jacks.Samples.{Bytes, Answers, libs}
use jacks.Port.{Port, no_fds}
use jacks.Latch.{Latch, not_posted}
use jacks.Client.State.{JsEvent, Objects, World, no_int}
use jacks.Client.Callbacks.Live.{IsLive}
use jacks.Client.Callbacks.Wired.{IsWired}
use jacks.Client.Setup.Life.{HasEvents, bare_event, session_event}

-- A port whose ring holds seven bytes.
abbrev pub port : Port Bytes
port = record {
  playback_lat_cb_fd = no_fds;
  capture_lat_cb_fd = no_fds;
  lat_cb_is_init = false;
  rb_size = 2;
  jport = some 7;
  jackclient = some 0;
  rb = some (record { held = []; room = 7 });
  framebuf = some (0 ∷ 0 ∷ []);
  overruns = 99;
}

abbrev pub four_events : Store JsEvent
four_events =
    let m0 : Store JsEvent = empty in
    let m1 = (alloc m0 (some (bare_event 0))).1 in
    let m2 = (alloc m1 (some (session_event (some 0)))).1 in
    let m3 = (alloc m2 (some (bare_event 3))).1 in (alloc m3 (some (bare_event 4))).1

abbrev pub one_latch : Store Latch
one_latch = let m : Store Latch = empty in (alloc m (some (record { status = not_posted }))).1

abbrev pub one_port : Store (Port Bytes)
one_port = let m : Store (Port Bytes) = empty in (alloc m (some port)).1

abbrev pub server : Answers
server = record { rc = pos 0; byte = 5 }

abbrev pub no_objects : Objects libs
no_objects = record {
  events = empty;
  latches = empty;
  rb_ports = empty;
  server = server;
  calls = [];
}

-- A client with one port, whose queue has the events of `line` and so many places left.
abbrev pub client : List Ptr → ℕ → World libs
client line places = record {
  self = record {
    ports = some (some 0 ∷ []);
    nports = 1;
    rb_size = 2;
    client = some 3;
    event_queue = some (record { line = line; places = places });
    mutex = 1;
    process_event = some 0;
    session_event = some 1;
    session_latch = some 0;
    sample_rate_event = some 2;
    shutdown_event = some 3;
    activated = no_int;
  };
  objects = record {
    events = four_events;
    latches = one_latch;
    rb_ports = one_port;
    server = server;
    calls = [];
  };
}

abbrev pub live : (line : List Ptr) (places : ℕ) → IsLive libs (client line places)
live line places = record {
  queue = record { line = line; places = places };
  array = some 0 ∷ [];
  has_queue = refl;
  has_array = refl;
  counted = refl;
  ready = (
    (
      port,
      refl,
      record {
        ring = record { held = []; room = 7 };
        buffer = 0 ∷ 0 ∷ [];
        has_ring = refl;
        has_buffer = refl;
        sized = refl;
        small = omega arith;
      },
      (7, refl),
    ),
    tt,
  );
}

abbrev pub wired : (line : List Ptr) (places : ℕ) → IsWired libs (client line places)
wired line places = record {
  event = session_event (some 0);
  latch = record { status = not_posted };
  queue = record { line = line; places = places };
  event_live = refl;
  latch_live = refl;
  token = refl;
  target = refl;
  has_queue = refl;
}

abbrev pub events : (line : List Ptr) (places : ℕ) → HasEvents libs (client line places)
events line places = record {
  on_process = refl;
  on_session = refl;
  on_sample_rate = refl;
  on_shutdown_event = refl;
}
