-- ===== src/Lua/Tests.antt =====
-- modules/lua/Jacks_lua_wrap.c on a small script.
use jacks.Prelude.{◌≢◌, List, take, ℕ, ◌≡◌, refl, true, false, [], ◌∷◌, some, pos, negsuc, arith}
use jacks.Memory.{Store, empty, alloc, ok, Fault, null_pointer}
use jacks.Exceptions.{clear_exception, check_exception}
use jacks.Event.{get_data}
use jacks.Samples.{libs}
use jacks.Client.Samples.{client, port}
use jacks.Lua.Values.{
  nil, number, text, swig_convert_ptr, pointer, wrong_type, userdata, port_buffer, event,
  string_list, Method,
}
use jacks.Lua.Values
use jacks.Lua.Act.{ret, err, crash}
use jacks.Lua.Machine.{Machine}
use jacks.Lua.Functions.Ports.{js_port_name, port_of}
use jacks.Lua.Wrappers.Ports.{wrap_js_port_name}
use jacks.Lua.Checks.{check_num_args, check_ptr_type, convert_ptr, protect, rethrow}
use jacks.Lua.Dispatch.{call, class_destruct}
use jacks.Lua.Signatures.{fits, signature}
use jacks.Lua.Typing.{call-Checked}
use jacks.Lua.Typing.Outcomes.{Checked}
use jacks.Lua.Names.{get_port_names_lem}
use jacks.Port.{Port}
use jacks.Port.Stream.{IsReady}
use jacks.Samples.{Bytes}
use jacks.Client.State.{Objects}
use jacks.Lua.Machine.{buffer_at}
use jacks.Lua.Buffers.{get_buffer_lem}
use jacks.Lua.Methods.{class_get, fits_method, invoke, invoke-Checked}
use jacks.Lua.Nil.{nil_self}
use jacks.Lua.Lifetimes.{default_objects}
use jacks.Lua.Session.{flags_round_trip}
use jacks.Lua.Constants.{constant_value, get_type_lem}
use jacks.Client.State.{EventType, no_int}
use jacks.Lua.Samples.{ints, env, machine, accepting, carrier, session}

-- What a script sees: the port's name, and an event in its place.
name_of_port :
    call libs ints env Method.port_name (userdata Values.port 0 false ∷ []) (machine accepting)
    ≡ ret (text (b'p' ∷ []) ∷ []) (machine accepting)
unfolding call wrap_js_port_name check_num_args check_ptr_type convert_ptr swig_convert_ptr protect
    rethrow js_port_name port_of clear_exception check_exception
name_of_port = refl

wrong_event :
    call libs ints env Method.port_name (userdata event 0 false ∷ []) (machine accepting)
    ≡ err (wrong_type Method.port_name 1 (pointer Values.port)) (machine accepting)
unfolding call wrap_js_port_name check_num_args check_ptr_type convert_ptr swig_convert_ptr
wrong_event = refl

-- An event is no port.
call-Checked_example :
    Checked libs ints
      (machine accepting)
      false
      (call libs ints env Method.get_buffer (userdata event 0 false ∷ []) (machine accepting))
unfolding fits signature
call-Checked_example =
    call-Checked libs ints env Method.get_buffer (machine accepting) (userdata event 0 false ∷ [])

nil_self_example :
    call libs ints env Method.activate (nil ∷ []) (machine accepting) ≡ crash null_pointer
unfolding signature
nil_self_example = nil_self libs ints env Method.activate (machine accepting) refl

default_objects_example :
    ((p : ℕ) × (n : Machine libs) × (call libs ints env Method.new_port [] (machine accepting)
        ≡ ret (userdata Values.port p true ∷ []) n)
      × (class_destruct libs {N = ints.Number} (userdata Values.port p true) n
          ≡ crash Fault.assert_failed))
    × ((p : ℕ) × (n : Machine libs) × (call libs ints env Method.new_event [] (machine accepting)
          ≡ ret (userdata event p true ∷ []) n)
        × (class_destruct libs {N = ints.Number} (userdata event p true) n
            ≡ crash Fault.assert_failed))
default_objects_example = default_objects libs ints env (machine accepting)

flags_round_trip_example :
    (n : Machine libs) × (call libs ints env Method.set_session_event_flags
        (userdata event 0 false ∷ number (negsuc 4) ∷ [])
        (machine accepting)
      ≡ ret [] n)
    × (call libs ints env Method.get_session_event_flags (userdata event 0 false ∷ []) n
        ≡ ret (number (negsuc 4) ∷ []) n)
unfolding get_data
flags_round_trip_example =
    flags_round_trip libs ints env (machine accepting) 0 false (negsuc 4) (record { impl = some 0 })
      carrier session refl refl refl (omega arith)

get_type_lem_example :
    call libs ints env Method.get_type (userdata event 0 false ∷ []) (machine accepting)
    ≡ ret (number (pos 1) ∷ []) (machine accepting)
unfolding constant_value clear_exception
get_type_lem_example =
    get_type_lem libs ints env (machine accepting) 0 false (record { impl = some 0 }) carrier
      EventType.session refl refl refl

-- JACK lists `a` and `b`.
get_port_names_lem_example :
    (q : ℕ) × (n n' : Machine libs) × (call libs ints env Method.get_port_names
        (userdata Values.client 0 false ∷ text (b'x' ∷ []) ∷ [])
        (machine accepting)
      ≡ ret (userdata string_list q false ∷ []) n)
    × (call libs ints env Method.list_length (userdata string_list q false ∷ []) n
        ≡ ret (number (pos 2) ∷ []) n')
    × (call libs ints env Method.list_get (userdata string_list q false ∷ number (pos 1) ∷ []) n'
        ≡ ret (text (b'b' ∷ []) ∷ []) n')
get_port_names_lem_example =
    get_port_names_lem libs ints env (machine accepting) 0 false
      (record { impl = some 0; process_audio = no_int }) (client [] 2).self (b'x' ∷ [])
      ((b'a' ∷ []) ∷ (b'b' ∷ []) ∷ []) (pos 1) 1 (b'b' ∷ []) refl refl (λ k h. refl) refl refl refl

-- Three bytes wait in the ring of a port that reads two at a time.
abbrev stocked : Port Bytes
stocked = record port { rb = some (record { held = 1 ∷ 2 ∷ 3 ∷ []; room = 4 }) }

abbrev stocked-IsReady : IsReady libs.rings stocked
stocked-IsReady = record {
  ring = record { held = 1 ∷ 2 ∷ 3 ∷ []; room = 4 };
  buffer = 0 ∷ 0 ∷ [];
  has_ring = refl;
  has_buffer = refl;
  sized = refl;
  small = omega arith;
}

abbrev with_bytes : Machine libs
with_bytes =
    let ports : Store (Port Bytes) = empty in
    let objects : Objects libs = (machine accepting).objects in
    record (machine accepting) {
      objects = record objects { rb_ports = (alloc ports (some stocked)).1 };
    }

get_buffer_lem_example :
    (q q' : ℕ) × (n n' : Machine libs) × (one two : List ℕ) × (k k' : ℕ) × (call libs ints env
        Method.get_buffer
        (userdata Values.port 0 false ∷ [])
        with_bytes
      ≡ ret (userdata port_buffer q false ∷ []) n)
    × (call libs ints env Method.get_buffer (userdata Values.port 0 false ∷ []) n
        ≡ ret (userdata port_buffer q' false ∷ []) n')
    × (q ≢ q')
    × (buffer_at libs n (some q) ≡ ok (record { framebuf = some one; len = k }))
    × (buffer_at libs n' (some q) ≡ ok (record { framebuf = some two; len = k }))
    × (buffer_at libs n' (some q') ≡ ok (record { framebuf = some two; len = k' }))
    × (k ≡ 2)
    × (take k one ≡ 1 ∷ 2 ∷ [])
    × (take k' two ≡ 3 ∷ [])
get_buffer_lem_example =
    get_buffer_lem libs ints env with_bytes 0 0 false (some 0) stocked stocked-IsReady refl refl

-- A port has no method `get`.
invoke-Checked_example :
    Checked libs ints
      (machine accepting)
      false
      (invoke libs ints env Values.port 0 false (b'g' ∷ b'e' ∷ b't' ∷ []) [] (machine accepting))
unfolding class_get fits_method
invoke-Checked_example =
    invoke-Checked libs ints env (machine accepting) Values.port 0 false (b'g' ∷ b'e' ∷ b't' ∷ [])
      []
