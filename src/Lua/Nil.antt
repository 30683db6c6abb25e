-- ===== src/Lua/Nil.antt =====
-- modules/lua/Jacks_lua_wrap.c: calls with nil in the place of an object.
use jacks.Prelude.{◌≡◌, refl, [], ◌∷◌, length, arith}
use jacks.Memory.{null_pointer}
use jacks.Libraries.{Libs}
use jacks.Lua.Values.{LuaLib, nil, Method, swig_convert_ptr}
use jacks.Lua.Act.{crash}
use jacks.Lua.Machine.{Machine, Env}
use jacks.Lua.Checks.{check_num_args, check_ptr_type, convert_ptr, protect}
use jacks.Lua.Functions.Values.{
  js_port_buffer_length, js_latency_range_min, js_latency_range_max, string_list_length,
}
use jacks.Lua.Functions.Ports.{
  js_port_get_buffer, js_port_name, js_port_wakeup_latency_callbacks,
  js_port_wakeup_sig_latency_callback, js_port_init_capture_latency_listener,
  js_port_init_playback_latency_listener, js_port_init_latency_listener,
}
use jacks.Lua.Functions.Events.{
  js_event_get_type, js_event_get_data, js_event_complete, js_event_get_session_event_type,
  js_event_get_session_dir, js_event_get_client_uuid, js_event_get_command_line,
  js_event_get_session_event_flags,
}
use jacks.Lua.Functions.Clients.{
  js_client_get_sample_rate, js_client_activate, js_client_get_name, js_client_get_transport_state,
  js_client_recompute_latencies,
}
use jacks.Lua.Functions.Ports.{port_of}
use jacks.Lua.Functions.Events.{event_of}
use jacks.Lua.Functions.Clients.{client_of}
use jacks.Lua.Wrappers.Buffers.{
  wrap_js_port_buffer_length, wrap_js_latency_range_min, wrap_js_latency_range_max,
  wrap_string_list_length,
}
use jacks.Lua.Wrappers.Ports.{
  wrap_js_port_get_buffer, wrap_js_port_name, wrap_js_port_wakeup_latency_callbacks,
  wrap_js_port_wakeup_sig_latency_callback, wrap_js_port_init_capture_latency_listener,
  wrap_js_port_init_playback_latency_listener, wrap_js_port_init_latency_listener,
}
use jacks.Lua.Wrappers.Events.{
  wrap_js_event_get_type, wrap_js_event_get_data, wrap_js_event_complete,
  wrap_js_event_get_session_event_type, wrap_js_event_get_session_dir,
  wrap_js_event_get_client_uuid, wrap_js_event_get_command_line,
  wrap_js_event_get_session_event_flags,
}
use jacks.Lua.Wrappers.Clients.{
  wrap_js_client_get_sample_rate, wrap_js_client_activate, wrap_js_client_get_name,
  wrap_js_client_get_transport_state, wrap_js_client_recompute_latencies,
}
use jacks.Lua.Dispatch.{call}
use jacks.Lua.Signatures.{signature}

module _ (L : Libs) (Q : LuaLib) (E : Env L) where
  -- nil passes the checks of a pointer. So each function whose one parameter is an object, called on
  -- nil, goes through the NULL pointer and ends the process; it raises no error of the script.
  pub nil_self :
      (d : Method) (m : Machine L)
      → length (signature d) ≡ 1
      → call L Q E d (nil ∷ []) m ≡ crash null_pointer
  unfolding call signature check_num_args check_ptr_type convert_ptr swig_convert_ptr protect
      port_of event_of client_of wrap_js_port_buffer_length wrap_js_latency_range_min
      wrap_js_latency_range_max wrap_string_list_length wrap_js_port_get_buffer wrap_js_port_name
      wrap_js_port_wakeup_latency_callbacks wrap_js_port_wakeup_sig_latency_callback
      wrap_js_port_init_capture_latency_listener wrap_js_port_init_playback_latency_listener
      wrap_js_port_init_latency_listener wrap_js_event_get_type wrap_js_event_get_data
      wrap_js_event_complete wrap_js_event_get_session_event_type wrap_js_event_get_session_dir
      wrap_js_event_get_client_uuid wrap_js_event_get_command_line
      wrap_js_event_get_session_event_flags wrap_js_client_get_sample_rate wrap_js_client_activate
      wrap_js_client_get_name wrap_js_client_get_transport_state wrap_js_client_recompute_latencies
      js_port_buffer_length js_latency_range_min js_latency_range_max string_list_length
      js_port_get_buffer js_port_name js_port_wakeup_latency_callbacks
      js_port_wakeup_sig_latency_callback js_port_init_capture_latency_listener
      js_port_init_playback_latency_listener js_port_init_latency_listener js_event_get_type
      js_event_get_data js_event_complete js_event_get_session_event_type js_event_get_session_dir
      js_event_get_client_uuid js_event_get_command_line js_event_get_session_event_flags
      js_client_get_sample_rate js_client_activate js_client_get_name js_client_get_transport_state
      js_client_recompute_latencies
  nil_self Method.getf m e = ground arith
  nil_self Method.setf m e = ground arith
  nil_self Method.buffer_length m e = refl
  nil_self Method.to_hex_string m e = ground arith
  nil_self Method.new_buffer m e = ground arith
  nil_self Method.range_min m e = refl
  nil_self Method.range_max m e = refl
  nil_self Method.new_range m e = ground arith
  nil_self Method.list_get m e = ground arith
  nil_self Method.list_length m e = refl
  nil_self Method.new_list m e = ground arith
  nil_self Method.get_buffer m e = refl
  nil_self Method.port_name m e = refl
  nil_self Method.connect m e = ground arith
  nil_self Method.get_latency_range m e = ground arith
  nil_self Method.set_latency_range m e = ground arith
  nil_self Method.wakeup_latency_callbacks m e = refl
  nil_self Method.wakeup_sig_latency_callback m e = refl
  nil_self Method.init_capture_latency_listener m e = refl
  nil_self Method.init_playback_latency_listener m e = refl
  nil_self Method.init_latency_listener m e = refl
  nil_self Method.new_port m e = ground arith
  nil_self Method.get_type m e = refl
  nil_self Method.get_data m e = refl
  nil_self Method.complete m e = refl
  nil_self Method.get_session_event_type m e = refl
  nil_self Method.get_session_dir m e = refl
  nil_self Method.set_session_dir m e = ground arith
  nil_self Method.get_client_uuid m e = refl
  nil_self Method.set_client_uuid m e = ground arith
  nil_self Method.get_command_line m e = refl
  nil_self Method.set_command_line m e = ground arith
  nil_self Method.get_session_event_flags m e = refl
  nil_self Method.set_session_event_flags m e = ground arith
  nil_self Method.new_event m e = ground arith
  nil_self Method.new_client m e = ground arith
  nil_self Method.get_port_names_by_type m e = ground arith
  nil_self Method.get_port_names m e = ground arith
  nil_self Method.get_port m e = ground arith
  nil_self Method.register_port m e = ground arith
  nil_self Method.get_event m e = ground arith
  nil_self Method.get_sample_rate m e = refl
  nil_self Method.activate m e = refl
  nil_self Method.client_name m e = refl
  nil_self Method.get_transport_state m e = refl
  nil_self Method.recompute_latencies m e = refl
