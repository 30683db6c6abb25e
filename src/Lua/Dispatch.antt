-- ===== src/Lua/Dispatch.antt =====
-- modules/lua/Jacks_lua_wrap.c: the tables of methods, and what Lua's collector calls.
use jacks.Prelude.{true, some}
use jacks.Prelude.{List}
use jacks.Memory.{Ptr}
use jacks.Libraries.{Libs}
use jacks.Lua.Values.{
  Class, port_buffer, latency_range, string_list, port, event, client, float_array, void_object,
  LuaLib, Value, userdata, Method,
}
use jacks.Lua.Act.{Act, pure}
use jacks.Lua.Machine.{Machine, Env}
use jacks.Lua.Functions.Values.{delete_js_port_buffer, delete_js_latency_range, delete_string_list}
use jacks.Lua.Functions.Ports.{delete_js_port}
use jacks.Lua.Functions.Events.{delete_js_event}
use jacks.Lua.Functions.Clients.{delete_js_client}
use jacks.Lua.Wrappers.Buffers.{
  wrap_js_port_buffer_getf, wrap_js_port_buffer_setf, wrap_js_port_buffer_length,
  wrap_js_port_buffer_to_hex_string, wrap_new_js_port_buffer, wrap_js_latency_range_min,
  wrap_js_latency_range_max, wrap_new_js_latency_range, wrap_string_list_get,
  wrap_string_list_length, wrap_new_string_list,
}
use jacks.Lua.Wrappers.Ports.{
  wrap_js_port_get_buffer, wrap_js_port_name, wrap_js_port_connect, wrap_js_port_get_latency_range,
  wrap_js_port_set_latency_range, wrap_js_port_wakeup_latency_callbacks,
  wrap_js_port_wakeup_sig_latency_callback, wrap_js_port_init_capture_latency_listener,
  wrap_js_port_init_playback_latency_listener, wrap_js_port_init_latency_listener, wrap_new_js_port,
}
use jacks.Lua.Wrappers.Events.{
  wrap_js_event_get_type, wrap_js_event_get_data, wrap_js_event_complete,
  wrap_js_event_get_session_event_type, wrap_js_event_get_session_dir,
  wrap_js_event_set_session_dir, wrap_js_event_get_client_uuid, wrap_js_event_set_client_uuid,
  wrap_js_event_get_command_line, wrap_js_event_set_command_line,
  wrap_js_event_get_session_event_flags, wrap_js_event_set_session_event_flags, wrap_new_js_event,
}
use jacks.Lua.Wrappers.Clients.{
  wrap_new_js_client, wrap_js_client_get_port_names_by_type, wrap_js_client_get_port_names,
  wrap_js_client_get_port, wrap_js_client_register_port, wrap_js_client_get_event,
  wrap_js_client_get_sample_rate, wrap_js_client_activate, wrap_js_client_get_name,
  wrap_js_client_get_transport_state, wrap_js_client_recompute_latencies,
}
use jacks.Lua.Checks.{Pushed}

module _ (L : Libs) where
  -- `swig_delete_…`, the destructors of the classes; the pointers to floats and to void have none.
  unfoldable pub destructor : Class → Ptr → Act ⊥ (Machine L) (Unit {0})
  destructor port_buffer = delete_js_port_buffer L
  destructor latency_range = delete_js_latency_range L
  destructor string_list = delete_string_list L
  destructor port = delete_js_port L
  destructor event = delete_js_event L
  destructor client = delete_js_client L
  destructor float_array = λ p. pure tt
  destructor void_object = λ p. pure tt

  -- `SWIG_Lua_class_destruct`, the `__gc` of an object: it destroys what the object owns.
  unfoldable pub class_destruct : {N : Type 0} → Value N → Act ⊥ (Machine L) (Unit {0})
  unfolding destructor
  class_destruct (userdata c p true) = destructor c (some p)
  class_destruct v = pure tt

-- The function behind each method of the tables `swig_…_methods`, and behind each constructor.
module _ (L : Libs) (Q : LuaLib) (E : Env L) where
  unfoldable pub call : Method → List (Value Q.Number) → Pushed L Q
  call Method.getf = wrap_js_port_buffer_getf L Q
  call Method.setf = wrap_js_port_buffer_setf L Q
  call Method.buffer_length = wrap_js_port_buffer_length L Q
  call Method.to_hex_string = wrap_js_port_buffer_to_hex_string L Q
  call Method.new_buffer = wrap_new_js_port_buffer L Q
  call Method.range_min = wrap_js_latency_range_min L Q
  call Method.range_max = wrap_js_latency_range_max L Q
  call Method.new_range = wrap_new_js_latency_range L Q
  call Method.list_get = wrap_string_list_get L Q
  call Method.list_length = wrap_string_list_length L Q
  call Method.new_list = wrap_new_string_list L Q
  call Method.get_buffer = wrap_js_port_get_buffer L Q E
  call Method.port_name = wrap_js_port_name L Q E
  call Method.connect = wrap_js_port_connect L Q E
  call Method.get_latency_range = wrap_js_port_get_latency_range L Q E
  call Method.set_latency_range = wrap_js_port_set_latency_range L Q E
  call Method.wakeup_latency_callbacks = wrap_js_port_wakeup_latency_callbacks L Q E
  call Method.wakeup_sig_latency_callback = wrap_js_port_wakeup_sig_latency_callback L Q E
  call Method.init_capture_latency_listener = wrap_js_port_init_capture_latency_listener L Q E
  call Method.init_playback_latency_listener = wrap_js_port_init_playback_latency_listener L Q E
  call Method.init_latency_listener = wrap_js_port_init_latency_listener L Q E
  call Method.new_port = wrap_new_js_port L Q E
  call Method.get_type = wrap_js_event_get_type L Q
  call Method.get_data = wrap_js_event_get_data L Q
  call Method.complete = wrap_js_event_complete L Q
  call Method.get_session_event_type = wrap_js_event_get_session_event_type L Q
  call Method.get_session_dir = wrap_js_event_get_session_dir L Q
  call Method.set_session_dir = wrap_js_event_set_session_dir L Q
  call Method.get_client_uuid = wrap_js_event_get_client_uuid L Q
  call Method.set_client_uuid = wrap_js_event_set_client_uuid L Q
  call Method.get_command_line = wrap_js_event_get_command_line L Q
  call Method.set_command_line = wrap_js_event_set_command_line L Q
  call Method.get_session_event_flags = wrap_js_event_get_session_event_flags L Q
  call Method.set_session_event_flags = wrap_js_event_set_session_event_flags L Q
  call Method.new_event = wrap_new_js_event L Q
  call Method.new_client = wrap_new_js_client L Q E
  call Method.get_port_names_by_type = wrap_js_client_get_port_names_by_type L Q E
  call Method.get_port_names = wrap_js_client_get_port_names L Q E
  call Method.get_port = wrap_js_client_get_port L Q E
  call Method.register_port = wrap_js_client_register_port L Q E
  call Method.get_event = wrap_js_client_get_event L Q E
  call Method.get_sample_rate = wrap_js_client_get_sample_rate L Q E
  call Method.activate = wrap_js_client_activate L Q E
  call Method.client_name = wrap_js_client_get_name L Q E
  call Method.get_transport_state = wrap_js_client_get_transport_state L Q E
  call Method.recompute_latencies = wrap_js_client_recompute_latencies L Q E
