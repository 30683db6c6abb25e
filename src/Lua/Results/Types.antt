-- ===== src/Lua/Results/Types.antt =====
-- modules/lua/Jacks_lua_wrap.c: what each function gives back, apart from its code.
use jacks.Prelude.{◌≡◌, Bool, true, false, List, [], ◌∷◌}
use jacks.Memory.{Fault}
use jacks.Libraries.{Libs}
use jacks.Lua.Values.{
  Class, port_buffer, latency_range, string_list, port, event, client, float_array, void_object,
  same_class, LuaLib, Value, nil, number, text, userdata, Method, LuaError,
}
use jacks.Lua.Act.{Run, ret, err, crash, blocked}
use jacks.Lua.Machine.{Machine}

-- The result types: nothing, a number, a string, a string or NULL, and a pointer or NULL, which the
-- script owns or only borrows.
pub data Result : Type 0 where
  nothing a_number a_text maybe_text : Result
  borrowed owned : Class → Result

-- The results, as the functions are declared: only the constructors give what the script owns.
unfoldable pub result : Method → Result
result Method.getf = borrowed float_array
result Method.setf = nothing
result Method.buffer_length = a_number
result Method.to_hex_string = a_text
result Method.new_buffer = owned port_buffer
result Method.range_min = a_number
result Method.range_max = a_number
result Method.new_range = owned latency_range
result Method.list_get = maybe_text
result Method.list_length = a_number
result Method.new_list = owned string_list
result Method.get_buffer = borrowed port_buffer
result Method.port_name = a_text
result Method.connect = a_number
result Method.get_latency_range = borrowed latency_range
result Method.set_latency_range = nothing
result Method.wakeup_latency_callbacks = nothing
result Method.wakeup_sig_latency_callback = nothing
result Method.init_capture_latency_listener = a_number
result Method.init_playback_latency_listener = a_number
result Method.init_latency_listener = a_number
result Method.new_port = owned port
result Method.get_type = a_number
result Method.get_data = borrowed void_object
result Method.complete = nothing
result Method.get_session_event_type = a_number
result Method.get_session_dir = maybe_text
result Method.set_session_dir = nothing
result Method.get_client_uuid = maybe_text
result Method.set_client_uuid = nothing
result Method.get_command_line = maybe_text
result Method.set_command_line = nothing
result Method.get_session_event_flags = a_number
result Method.set_session_event_flags = nothing
result Method.new_event = owned event
result Method.new_client = owned client
result Method.get_port_names_by_type = borrowed string_list
result Method.get_port_names = borrowed string_list
result Method.get_port = borrowed port
result Method.register_port = borrowed port
result Method.get_event = borrowed event
result Method.get_sample_rate = a_number
result Method.activate = a_number
result Method.client_name = a_text
result Method.get_transport_state = a_number
result Method.recompute_latencies = nothing

module _ {N : Type 0} where
  abbrev pub is_object : Class → Bool → Value N → Bool
  is_object c own nil = true
  is_object c true (userdata d p true) = same_class d c
  is_object c false (userdata d p false) = same_class d c
  is_object c own v = false

  unfoldable pub matches : Result → List (Value N) → Bool
  matches nothing [] = true
  matches a_number (number n ∷ []) = true
  matches a_text (text t ∷ []) = true
  matches maybe_text (text t ∷ []) = true
  matches maybe_text (nil ∷ []) = true
  matches (borrowed c) (v ∷ []) = is_object c false v
  matches (owned c) (v ∷ []) = is_object c true v
  matches _ _ = false

module _ (L : Libs) (Q : LuaLib) where
  -- A call that returns gives what its result type says.
  pub data HasResult (r : Result) : Run LuaError (Machine L) (List (Value Q.Number)) → Type 0 where
    gave :
        (vs : List (Value Q.Number)) (s : Machine L) → matches r vs ≡ true → HasResult r (ret vs s)
    raised : (e : LuaError) (s : Machine L) → HasResult r (err e s)
    crashed : (e : Fault) → HasResult r (crash e)
    waits : (s : Machine L) → HasResult r (blocked s)
