-- ===== src/Api/Tests.antt =====
-- modules/Jacks.i on small objects.
use jacks.Prelude.{ℕ, ◌≡◌, refl, List, [], ◌∷◌, none, some}
use jacks.Memory.{ok, fault, null_pointer, dangling_pointer, Store, empty, alloc, load}
use jacks.Exceptions.{initial, throw_exception, check_exception}
use jacks.Samples.{libs}
use jacks.Client.State.{JsEvent, World}
use jacks.Client.Setup
use jacks.Client.Setup.Life.{bare_event}
use jacks.Client.Events.{get_event, delivered}
use jacks.Client.Samples.{client, events}
use jacks.Api.Hex.{to_hex_string}
use jacks.Api.Events.{
  SessionEvent, not_session, session_of, session_null, session_type, session_dir, session_uuid,
  session_command_line, session_flags, set_session_dir, set_session_uuid, set_session_command_line,
  set_session_flags,
}
use jacks.Api.Clients.{delete_event, deleted_event_dangles}

-- Two samples.
abbrev block : List ℕ
block = 1 ∷ 2 ∷ 3 ∷ 255 ∷ 5 ∷ 6 ∷ 7 ∷ 8 ∷ []

dump :
    to_hex_string (record { framebuf = some block; len = 8 }) 0 1 0
    ≡ ok (b'0' ∷ b'x' ∷ b'F' ∷ b'F' ∷ b'0' ∷ b'3' ∷ b'0' ∷ b'2' ∷ b'0' ∷ b'1' ∷ b'L' ∷ b' ' ∷ [])
unfolding to_hex_string
dump = refl

abbrev no_sessions : Store SessionEvent
no_sessions = empty

session_null_example :
    (session_of (bare_event 0) initial ≡ (none, throw_exception not_session initial))
    × (check_exception (session_of (bare_event 0) initial).1
        ≡ some (throw_exception not_session initial).error_message)
    × (session_type no_sessions (bare_event 0) initial ≡ fault null_pointer)
    × (session_dir no_sessions (bare_event 0) initial ≡ fault null_pointer)
    × (session_uuid no_sessions (bare_event 0) initial ≡ fault null_pointer)
    × (session_command_line no_sessions (bare_event 0) initial ≡ fault null_pointer)
    × (session_flags no_sessions (bare_event 0) initial ≡ fault null_pointer)
    × (set_session_dir (some 5) no_sessions (bare_event 0) initial ≡ fault null_pointer)
    × (set_session_uuid (some 5) no_sessions (bare_event 0) initial ≡ fault null_pointer)
    × (set_session_command_line [] no_sessions (bare_event 0) initial ≡ fault null_pointer)
    × (set_session_flags 1 no_sessions (bare_event 0) initial ≡ fault null_pointer)
session_null_example = session_null no_sessions (bare_event 0) initial [] (some 5) 1 refl

abbrev session : SessionEvent
session = record {
  stype = 1;
  session_dir = none;
  client_uuid = none;
  command_line = none;
  flags = 0;
}

abbrev sessions : Store SessionEvent
sessions = (alloc no_sessions (some session)).1

abbrev carrier : JsEvent
carrier = record { etype = 1; payload = some 0; ctoken = none; ctoken_arg = none }

deleted_event_dangles_example :
    (w1 w2 w3 : World libs) × (get_event libs 1 (client (some 0 ∷ some 0 ∷ []) 0)
      ≡ ok (delivered (some 0) w1))
    × (delete_event libs (some 0) w1 ≡ ok w2)
    × (get_event libs 1 w2 ≡ ok (delivered (some 0) w3))
    × (load w3.objects.events (some 0) ≡ fault dangling_pointer)
    × (Setup.free libs w3 ≡ fault dangling_pointer)
deleted_event_dangles_example =
    deleted_event_dangles libs (client (some 0 ∷ some 0 ∷ []) 0)
      (record { line = some 0 ∷ some 0 ∷ []; places = 0 }) [] (events (some 0 ∷ some 0 ∷ []) 0) refl
      refl
