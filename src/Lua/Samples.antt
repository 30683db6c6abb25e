-- ===== src/Lua/Samples.antt =====
-- A small Lua, a JACK that answers, and the memory of a script with a client, a port and an event.
use jacks.Prelude.{Bool, true, false, [], ◌∷◌, none, some, ℤ, pos, negsuc}
use jacks.Memory.{Store, empty, alloc}
use jacks.Samples.{libs, malloc, Answers}
use jacks.Exceptions.{initial}
use jacks.Client.State.{Client, JsEvent, Objects, no_int}
use jacks.Client.Samples.{client}
use jacks.Api.Events.{SessionEvent}
use jacks.Lua.Values.{LuaLib, unsigned_of}
use jacks.Lua.Machine.{Machine, Env, PortBox, EventBox, ClientBox}

abbrev pub is_pos : ℤ → Bool
is_pos (pos n) = true
is_pos (negsuc n) = false

-- Numbers that are ints, and texts that never read as numbers.
abbrev pub ints : LuaLib
ints = record {
  Number = ℤ;
  parse = λ t. none;
  print = λ n. b'#' ∷ [];
  of_int = λ z. z;
  to_int = λ z. z;
  to_long = λ z. z;
  to_unsigned = unsigned_of;
  to_unsigned_long = unsigned_of;
  non_negative = is_pos;
}

abbrev pub env : Env libs
env = record {
  client_open = λ name options flags. some 3;
  client_activate = λ s c. pos 0;
  port_by_name = λ s c name. some 7;
  get_ports = λ s c pattern types flags. some ((b'a' ∷ []) ∷ (b'b' ∷ []) ∷ []);
  latency_range = λ s p mode. (16, 32);
  set_latency = λ s p mode low high. s;
  sample_rate = λ s c. 48000;
  name_of = λ s c. b'c' ∷ [];
  transport = λ s c. 1;
  recompute = λ s c. pos 0;
  socket_pair = λ s. none;
  memory = malloc;
  rooms = record {
    client_room = true;
    ports_room = true;
    process_room = true;
    latch_room = true;
    session_room = true;
    sample_rate_room = true;
    shutdown_room = true;
  };
}

abbrev pub carrier : JsEvent
carrier = record { etype = 1; payload = some 0; ctoken = none; ctoken_arg = none }

abbrev pub session : SessionEvent
session = record {
  stype = 1;
  session_dir = none;
  client_uuid = none;
  command_line = none;
  flags = 0;
}

abbrev pub objects : Answers → Objects libs
objects server =
    let events : Store JsEvent = empty in
    record ((client [] 2).objects) { events = (alloc events (some carrier)).1; server = server }

-- The script's objects are all at address 0.
abbrev pub machine : Answers → Machine libs
machine server =
    let clients : Store (Client libs) = empty in
    let sessions : Store SessionEvent = empty in
    let ports : Store PortBox = empty in
    let events : Store EventBox = empty in
    let boxes : Store ClientBox = empty in
    record {
      clients = (alloc clients (some (client [] 2).self)).1;
      objects = objects server;
      sessions = (alloc sessions (some session)).1;
      texts = empty;
      buffers = empty;
      ranges = empty;
      lists = empty;
      ports = (alloc ports (some (record { impl = some 0; clientimpl = some 0 }))).1;
      events = (alloc events (some (record { impl = some 0 }))).1;
      boxes = (alloc boxes (some (record { impl = some 0; process_audio = no_int }))).1;
      errors = initial;
      wakeups = [];
    }

abbrev pub accepting : Answers
accepting = record { rc = pos 0; byte = 5 }

abbrev pub refusing : Answers
refusing = record { rc = negsuc 0; byte = 5 }
