-- ===== src/Python/Agreement.antt =====
-- modules/lua/Jacks_lua_wrap.c and modules/python3/Jacks_python3_wrap.c: the same call from Lua and from
-- Python.
pub mod Outcomes
mod Steps
use jacks.Prelude.{ℕ, ◌≡◌, Bool, true, false, List, [], ◌∷◌, length, arith, leb}
use jacks.Libraries.{Libs}
use jacks.Lua.Values.{
  LuaLib, Value, Method, Param, pointer, port_buffer, latency_range, string_list, port, event,
  client,
}
use jacks.Lua.Machine.{Env}
use jacks.Lua.Signatures.{signature}
use jacks.Lua.Dispatch.{call}
use jacks.Python.Values.{PyLib, PyValue, method, Process}
use jacks.Python.Dispatch.{py_call}
use jacks.Python.Agreement.Outcomes.{AllAlike, Agree, both_nothing}
use jacks.Python.Agreement.Steps.{
  nothing_lem, self_lem, protect_lem, number_lem, pointer_lem, text_lem, copy_lem, string_lem,
}
use jacks.Lua.Wrappers.Buffers.{
  wrap_js_port_buffer_length, wrap_new_js_port_buffer, wrap_js_latency_range_min,
  wrap_js_latency_range_max, wrap_new_js_latency_range, wrap_string_list_length,
  wrap_new_string_list,
}
use jacks.Lua.Wrappers.Ports.{
  wrap_js_port_get_buffer, wrap_js_port_name, wrap_js_port_wakeup_latency_callbacks,
  wrap_js_port_wakeup_sig_latency_callback, wrap_js_port_init_capture_latency_listener,
  wrap_js_port_init_playback_latency_listener, wrap_js_port_init_latency_listener, wrap_new_js_port,
}
use jacks.Lua.Wrappers.Events.{
  wrap_js_event_get_type, wrap_js_event_get_data, wrap_js_event_complete,
  wrap_js_event_get_session_event_type, wrap_js_event_get_session_dir,
  wrap_js_event_get_client_uuid, wrap_js_event_get_command_line,
  wrap_js_event_get_session_event_flags, wrap_new_js_event,
}
use jacks.Lua.Wrappers.Clients.{
  wrap_js_client_get_sample_rate, wrap_js_client_activate, wrap_js_client_get_name,
  wrap_js_client_get_transport_state, wrap_js_client_recompute_latencies,
}
use jacks.Python.Wrappers.Buffers.{
  py_wrap_js_port_buffer_length, py_wrap_new_js_port_buffer, py_wrap_js_latency_range_min,
  py_wrap_js_latency_range_max, py_wrap_new_js_latency_range, py_wrap_string_list_length,
  py_wrap_new_string_list,
}
use jacks.Python.Wrappers.Ports.{
  py_wrap_js_port_get_buffer, py_wrap_js_port_name, py_wrap_js_port_wakeup_latency_callbacks,
  py_wrap_js_port_wakeup_sig_latency_callback, py_wrap_js_port_init_capture_latency_listener,
  py_wrap_js_port_init_playback_latency_listener, py_wrap_js_port_init_latency_listener,
  py_wrap_new_js_port,
}
use jacks.Python.Wrappers.Events.{
  py_wrap_js_event_get_type, py_wrap_js_event_get_data, py_wrap_js_event_complete,
  py_wrap_js_event_get_session_event_type, py_wrap_js_event_get_session_dir,
  py_wrap_js_event_get_client_uuid, py_wrap_js_event_get_command_line,
  py_wrap_js_event_get_session_event_flags, py_wrap_new_js_event,
}
use jacks.Python.Wrappers.Clients.{
  py_wrap_js_client_get_sample_rate, py_wrap_js_client_activate, py_wrap_js_client_get_name,
  py_wrap_js_client_get_transport_state, py_wrap_js_client_recompute_latencies,
}

-- The functions that take nothing, or one object.
abbrev pub takes_object : List Param → Bool
takes_object [] = true
takes_object (pointer c ∷ []) = true
takes_object _ = false

module _ (L : Libs) (Q : LuaLib) (Y : PyLib) (E : Env L) where
  -- Every function that takes nothing or one object, called from Lua and from Python in the same
  -- memory with as many arguments, few or many, each of which is nil in Lua and None in Python, or the
  -- same object in both, or in both a value that is neither, such as a number or a text: both calls
  -- leave the same memory, and they return the same, except that Python has to decode a text; or both
  -- are refused for their arguments, or both raise the message that the C function threw, or both end
  -- the process by the same fault, or both wait.
  pub call-Agree :
      (d : Method) (s : Process L) (vs : List (Value Q.Number)) (ws : List (PyValue Y))
      → takes_object (signature d) ≡ true
      → AllAlike L Q Y vs ws
      → Agree L Q Y (call L Q E d vs s.machine) (py_call L Y E d ws s)
  unfolding call py_call signature wrap_js_port_buffer_length wrap_new_js_port_buffer
      wrap_js_latency_range_min wrap_js_latency_range_max wrap_new_js_latency_range
      wrap_string_list_length wrap_new_string_list wrap_js_port_get_buffer wrap_js_port_name
      wrap_js_port_wakeup_latency_callbacks wrap_js_port_wakeup_sig_latency_callback
      wrap_js_port_init_capture_latency_listener wrap_js_port_init_playback_latency_listener
      wrap_js_port_init_latency_listener wrap_new_js_port wrap_js_event_get_type
      wrap_js_event_get_data wrap_js_event_complete wrap_js_event_get_session_event_type
      wrap_js_event_get_session_dir wrap_js_event_get_client_uuid wrap_js_event_get_command_line
      wrap_js_event_get_session_event_flags wrap_new_js_event wrap_js_client_get_sample_rate
      wrap_js_client_activate wrap_js_client_get_name wrap_js_client_get_transport_state
      wrap_js_client_recompute_latencies py_wrap_js_port_buffer_length py_wrap_new_js_port_buffer
      py_wrap_js_latency_range_min py_wrap_js_latency_range_max py_wrap_new_js_latency_range
      py_wrap_string_list_length py_wrap_new_string_list py_wrap_js_port_get_buffer
      py_wrap_js_port_name py_wrap_js_port_wakeup_latency_callbacks
      py_wrap_js_port_wakeup_sig_latency_callback py_wrap_js_port_init_capture_latency_listener
      py_wrap_js_port_init_playback_latency_listener py_wrap_js_port_init_latency_listener
      py_wrap_new_js_port py_wrap_js_event_get_type py_wrap_js_event_get_data
      py_wrap_js_event_complete py_wrap_js_event_get_session_event_type
      py_wrap_js_event_get_session_dir py_wrap_js_event_get_client_uuid
      py_wrap_js_event_get_command_line py_wrap_js_event_get_session_event_flags
      py_wrap_new_js_event py_wrap_js_client_get_sample_rate py_wrap_js_client_activate
      py_wrap_js_client_get_name py_wrap_js_client_get_transport_state
      py_wrap_js_client_recompute_latencies
  call-Agree Method.getf s vs ws e h = ground arith
  call-Agree Method.setf s vs ws e h = ground arith
  call-Agree Method.buffer_length s vs ws e h =
      self_lem L Q Y Method.buffer_length (method Method.buffer_length) port_buffer s vs ws _ _ h
        (λ p. protect_lem L Q Y _ _ _ s (λ a n. number_lem L Q Y _ n))
  call-Agree Method.to_hex_string s vs ws e h = ground arith
  call-Agree Method.new_buffer s vs ws e h =
      nothing_lem L Q Y Method.new_buffer (method Method.new_buffer) s vs ws _ _ h
        (protect_lem L Q Y _ _ _ s (λ a n. pointer_lem L Q Y _ _ _ n))
  call-Agree Method.range_min s vs ws e h =
      self_lem L Q Y Method.range_min (method Method.range_min) latency_range s vs ws _ _ h
        (λ p. protect_lem L Q Y _ _ _ s (λ a n. number_lem L Q Y _ n))
  call-Agree Method.range_max s vs ws e h =
      self_lem L Q Y Method.range_max (method Method.range_max) latency_range s vs ws _ _ h
        (λ p. protect_lem L Q Y _ _ _ s (λ a n. number_lem L Q Y _ n))
  call-Agree Method.new_range s vs ws e h =
      nothing_lem L Q Y Method.new_range (method Method.new_range) s vs ws _ _ h
        (protect_lem L Q Y _ _ _ s (λ a n. pointer_lem L Q Y _ _ _ n))
  call-Agree Method.list_get s vs ws e h = ground arith
  call-Agree Method.list_length s vs ws e h =
      self_lem L Q Y Method.list_length (method Method.list_length) string_list s vs ws _ _ h
        (λ p. protect_lem L Q Y _ _ _ s (λ a n. number_lem L Q Y _ n))
  call-Agree Method.new_list s vs ws e h =
      nothing_lem L Q Y Method.new_list (method Method.new_list) s vs ws _ _ h
        (protect_lem L Q Y _ _ _ s (λ a n. pointer_lem L Q Y _ _ _ n))
  call-Agree Method.get_buffer s vs ws e h =
      self_lem L Q Y Method.get_buffer (method Method.get_buffer) port s vs ws _ _ h
        (λ p. protect_lem L Q Y _ _ _ s (λ a n. pointer_lem L Q Y _ _ _ n))
  call-Agree Method.port_name s vs ws e h =
      self_lem L Q Y Method.port_name (method Method.port_name) port s vs ws _ _ h
        (λ p. protect_lem L Q Y _ _ _ s (λ a n. text_lem L Q Y _ n))
  call-Agree Method.connect s vs ws e h = ground arith
  call-Agree Method.get_latency_range s vs ws e h = ground arith
  call-Agree Method.set_latency_range s vs ws e h = ground arith
  call-Agree Method.wakeup_latency_callbacks s vs ws e h =
      self_lem L Q Y Method.wakeup_latency_callbacks (method Method.wakeup_latency_callbacks) port s
        vs ws _ _ h (λ p. protect_lem L Q Y _ _ _ s (λ a n. both_nothing n))
  call-Agree Method.wakeup_sig_latency_callback s vs ws e h =
      self_lem L Q Y Method.wakeup_sig_latency_callback (method Method.wakeup_sig_latency_callback)
        port s vs ws _ _ h (λ p. protect_lem L Q Y _ _ _ s (λ a n. both_nothing n))
  call-Agree Method.init_capture_latency_listener s vs ws e h =
      self_lem L Q Y Method.init_capture_latency_listener
        (method Method.init_capture_latency_listener) port s vs ws _ _ h
        (λ p. protect_lem L Q Y _ _ _ s (λ a n. number_lem L Q Y _ n))
  call-Agree Method.init_playback_latency_listener s vs ws e h =
      self_lem L Q Y Method.init_playback_latency_listener
        (method Method.init_playback_latency_listener) port s vs ws _ _ h
        (λ p. protect_lem L Q Y _ _ _ s (λ a n. number_lem L Q Y _ n))
  call-Agree Method.init_latency_listener s vs ws e h =
      self_lem L Q Y Method.init_latency_listener (method Method.init_latency_listener) port s vs ws
        _ _ h (λ p. protect_lem L Q Y _ _ _ s (λ a n. number_lem L Q Y _ n))
  call-Agree Method.new_port s vs ws e h =
      nothing_lem L Q Y Method.new_port (method Method.new_port) s vs ws _ _ h
        (protect_lem L Q Y _ _ _ s (λ a n. pointer_lem L Q Y _ _ _ n))
  call-Agree Method.get_type s vs ws e h =
      self_lem L Q Y Method.get_type (method Method.get_type) event s vs ws _ _ h
        (λ p. protect_lem L Q Y _ _ _ s (λ a n. number_lem L Q Y _ n))
  call-Agree Method.get_data s vs ws e h =
      self_lem L Q Y Method.get_data (method Method.get_data) event s vs ws _ _ h
        (λ p. protect_lem L Q Y _ _ _ s (λ a n. pointer_lem L Q Y _ _ _ n))
  call-Agree Method.complete s vs ws e h =
      self_lem L Q Y Method.complete (method Method.complete) event s vs ws _ _ h
        (λ p. protect_lem L Q Y _ _ _ s (λ a n. both_nothing n))
  call-Agree Method.get_session_event_type s vs ws e h =
      self_lem L Q Y Method.get_session_event_type (method Method.get_session_event_type) event s vs
        ws _ _ h (λ p. protect_lem L Q Y _ _ _ s (λ a n. number_lem L Q Y _ n))
  call-Agree Method.get_session_dir s vs ws e h =
      self_lem L Q Y Method.get_session_dir (method Method.get_session_dir) event s vs ws _ _ h
        (λ p. protect_lem L Q Y _ _ _ s (λ a n. string_lem L Q Y a n))
  call-Agree Method.set_session_dir s vs ws e h = ground arith
  call-Agree Method.get_client_uuid s vs ws e h =
      self_lem L Q Y Method.get_client_uuid (method Method.get_client_uuid) event s vs ws _ _ h
        (λ p. protect_lem L Q Y _ _ _ s (λ a n. string_lem L Q Y a n))
  call-Agree Method.set_client_uuid s vs ws e h = ground arith
  call-Agree Method.get_command_line s vs ws e h =
      self_lem L Q Y Method.get_command_line (method Method.get_command_line) event s vs ws _ _ h
        (λ p. protect_lem L Q Y _ _ _ s (λ a n. copy_lem L Q Y _ n))
  call-Agree Method.set_command_line s vs ws e h = ground arith
  call-Agree Method.get_session_event_flags s vs ws e h =
      self_lem L Q Y Method.get_session_event_flags (method Method.get_session_event_flags) event s
        vs ws _ _ h (λ p. protect_lem L Q Y _ _ _ s (λ a n. number_lem L Q Y _ n))
  call-Agree Method.set_session_event_flags s vs ws e h = ground arith
  call-Agree Method.new_event s vs ws e h =
      nothing_lem L Q Y Method.new_event (method Method.new_event) s vs ws _ _ h
        (protect_lem L Q Y _ _ _ s (λ a n. pointer_lem L Q Y _ _ _ n))
  call-Agree Method.new_client s vs ws e h = ground arith
  call-Agree Method.get_port_names_by_type s vs ws e h = ground arith
  call-Agree Method.get_port_names s vs ws e h = ground arith
  call-Agree Method.get_port s vs ws e h = ground arith
  call-Agree Method.register_port s vs ws e h = ground arith
  call-Agree Method.get_event s vs ws e h = ground arith
  call-Agree Method.get_sample_rate s vs ws e h =
      self_lem L Q Y Method.get_sample_rate (method Method.get_sample_rate) client s vs ws _ _ h
        (λ p. protect_lem L Q Y _ _ _ s (λ a n. number_lem L Q Y _ n))
  call-Agree Method.activate s vs ws e h =
      self_lem L Q Y Method.activate (method Method.activate) client s vs ws _ _ h
        (λ p. protect_lem L Q Y _ _ _ s (λ a n. number_lem L Q Y _ n))
  call-Agree Method.client_name s vs ws e h =
      self_lem L Q Y Method.client_name (method Method.client_name) client s vs ws _ _ h
        (λ p. protect_lem L Q Y _ _ _ s (λ a n. text_lem L Q Y _ n))
  call-Agree Method.get_transport_state s vs ws e h =
      self_lem L Q Y Method.get_transport_state (method Method.get_transport_state) client s vs ws _
        _ h (λ p. protect_lem L Q Y _ _ _ s (λ a n. number_lem L Q Y _ n))
  call-Agree Method.recompute_latencies s vs ws e h =
      self_lem L Q Y Method.recompute_latencies (method Method.recompute_latencies) client s vs ws _
        _ h (λ p. protect_lem L Q Y _ _ _ s (λ a n. both_nothing n))
