-- ===== src/Python/Dispatch.antt =====
-- modules/python3/Jacks_python3_wrap.c: the functions by name, and the life of an object.
use jacks.Prelude.{Option, none, some, ℕ, Bool, false, List, [], ◌∷◌, if◌then◌else◌}
use jacks.Libraries.{Libs}
use jacks.Lua.Values.{
  Class, port_buffer, latency_range, string_list, port, event, client, float_array, void_object,
  Method,
}
use jacks.Lua.Act.{Run, ret, err, crash, blocked, pure}
use jacks.Lua.Machine.{Env}
use jacks.Python.Values.{PyLib, PyValue, py_none, proxy, PyError, Process, set_own, new_object}
use jacks.Python.Checks.{PyAct}
use jacks.Python.Wrappers.Buffers.{
  py_wrap_delete_js_port_buffer, py_wrap_js_port_buffer_getf, py_wrap_js_port_buffer_setf,
  py_wrap_js_port_buffer_length, py_wrap_js_port_buffer_to_hex_string, py_wrap_new_js_port_buffer,
  py_wrap_delete_js_latency_range, py_wrap_js_latency_range_min, py_wrap_js_latency_range_max,
  py_wrap_new_js_latency_range, py_wrap_delete_string_list, py_wrap_string_list_get,
  py_wrap_string_list_length, py_wrap_new_string_list,
}
use jacks.Python.Wrappers.Ports.{
  py_wrap_delete_js_port, py_wrap_js_port_get_buffer, py_wrap_js_port_name, py_wrap_js_port_connect,
  py_wrap_js_port_get_latency_range, py_wrap_js_port_set_latency_range,
  py_wrap_js_port_wakeup_latency_callbacks, py_wrap_js_port_wakeup_sig_latency_callback,
  py_wrap_js_port_init_capture_latency_listener, py_wrap_js_port_init_playback_latency_listener,
  py_wrap_js_port_init_latency_listener, py_wrap_new_js_port,
}
use jacks.Python.Wrappers.Events.{
  py_wrap_delete_js_event, py_wrap_js_event_get_type, py_wrap_js_event_get_data,
  py_wrap_js_event_complete, py_wrap_js_event_get_session_event_type,
  py_wrap_js_event_get_session_dir, py_wrap_js_event_set_session_dir,
  py_wrap_js_event_get_client_uuid, py_wrap_js_event_set_client_uuid,
  py_wrap_js_event_get_command_line, py_wrap_js_event_set_command_line,
  py_wrap_js_event_get_session_event_flags, py_wrap_js_event_set_session_event_flags,
  py_wrap_new_js_event,
}
use jacks.Python.Wrappers.Clients.{
  py_wrap_new_js_client, py_wrap_delete_js_client, py_wrap_js_client_get_port_names_by_type,
  py_wrap_js_client_get_port_names, py_wrap_js_client_get_port, py_wrap_js_client_register_port,
  py_wrap_js_client_get_event, py_wrap_js_client_get_sample_rate, py_wrap_js_client_activate,
  py_wrap_js_client_get_name, py_wrap_js_client_get_transport_state,
  py_wrap_js_client_recompute_latencies,
}

module _ (L : Libs) (Y : PyLib) (E : Env L) where
  -- `SwigMethods`
  unfoldable pub py_call : Method → List (PyValue Y) → PyAct L Y (PyValue Y)
  py_call Method.getf = py_wrap_js_port_buffer_getf L Y
  py_call Method.setf = py_wrap_js_port_buffer_setf L Y
  py_call Method.buffer_length = py_wrap_js_port_buffer_length L Y
  py_call Method.to_hex_string = py_wrap_js_port_buffer_to_hex_string L Y
  py_call Method.new_buffer = py_wrap_new_js_port_buffer L Y
  py_call Method.range_min = py_wrap_js_latency_range_min L Y
  py_call Method.range_max = py_wrap_js_latency_range_max L Y
  py_call Method.new_range = py_wrap_new_js_latency_range L Y
  py_call Method.list_get = py_wrap_string_list_get L Y
  py_call Method.list_length = py_wrap_string_list_length L Y
  py_call Method.new_list = py_wrap_new_string_list L Y
  py_call Method.get_buffer = py_wrap_js_port_get_buffer L Y E
  py_call Method.port_name = py_wrap_js_port_name L Y E
  py_call Method.connect = py_wrap_js_port_connect L Y E
  py_call Method.get_latency_range = py_wrap_js_port_get_latency_range L Y E
  py_call Method.set_latency_range = py_wrap_js_port_set_latency_range L Y E
  py_call Method.wakeup_latency_callbacks = py_wrap_js_port_wakeup_latency_callbacks L Y E
  py_call Method.wakeup_sig_latency_callback = py_wrap_js_port_wakeup_sig_latency_callback L Y E
  py_call Method.init_capture_latency_listener = py_wrap_js_port_init_capture_latency_listener L Y E
  py_call Method.init_playback_latency_listener =
      py_wrap_js_port_init_playback_latency_listener L Y E
  py_call Method.init_latency_listener = py_wrap_js_port_init_latency_listener L Y E
  py_call Method.new_port = py_wrap_new_js_port L Y E
  py_call Method.get_type = py_wrap_js_event_get_type L Y
  py_call Method.get_data = py_wrap_js_event_get_data L Y
  py_call Method.complete = py_wrap_js_event_complete L Y
  py_call Method.get_session_event_type = py_wrap_js_event_get_session_event_type L Y
  py_call Method.get_session_dir = py_wrap_js_event_get_session_dir L Y
  py_call Method.set_session_dir = py_wrap_js_event_set_session_dir L Y
  py_call Method.get_client_uuid = py_wrap_js_event_get_client_uuid L Y
  py_call Method.set_client_uuid = py_wrap_js_event_set_client_uuid L Y
  py_call Method.get_command_line = py_wrap_js_event_get_command_line L Y
  py_call Method.set_command_line = py_wrap_js_event_set_command_line L Y
  py_call Method.get_session_event_flags = py_wrap_js_event_get_session_event_flags L Y
  py_call Method.set_session_event_flags = py_wrap_js_event_set_session_event_flags L Y
  py_call Method.new_event = py_wrap_new_js_event L Y
  py_call Method.new_client = py_wrap_new_js_client L Y E
  py_call Method.get_port_names_by_type = py_wrap_js_client_get_port_names_by_type L Y E
  py_call Method.get_port_names = py_wrap_js_client_get_port_names L Y E
  py_call Method.get_port = py_wrap_js_client_get_port L Y E
  py_call Method.register_port = py_wrap_js_client_register_port L Y E
  py_call Method.get_event = py_wrap_js_client_get_event L Y E
  py_call Method.get_sample_rate = py_wrap_js_client_get_sample_rate L Y E
  py_call Method.activate = py_wrap_js_client_activate L Y E
  py_call Method.client_name = py_wrap_js_client_get_name L Y E
  py_call Method.get_transport_state = py_wrap_js_client_get_transport_state L Y E
  py_call Method.recompute_latencies = py_wrap_js_client_recompute_latencies L Y E

  -- The destructors `delete_…` of `SwigMethods`, the `__swig_destroy__` of the classes; the pointers to
  -- floats and to void have none.
  unfoldable pub py_destroy : Class → List (PyValue Y) → PyAct L Y (PyValue Y)
  py_destroy port_buffer = py_wrap_delete_js_port_buffer L Y
  py_destroy latency_range = py_wrap_delete_js_latency_range L Y
  py_destroy string_list = py_wrap_delete_string_list L Y
  py_destroy port = py_wrap_delete_js_port L Y E
  py_destroy event = py_wrap_delete_js_event L Y
  py_destroy client = py_wrap_delete_js_client L Y E
  py_destroy float_array = λ args. pure py_none
  py_destroy void_object = λ args. pure py_none

  -- What the destructor returns or raises is dropped.
  abbrev pub dropped : Run PyError (Process L) (PyValue Y) → Run PyError (Process L) (Unit {0})
  dropped (ret v s) = ret tt s
  dropped (err e s) = ret tt s
  dropped (crash e) = crash e
  dropped (blocked s) = blocked s

  -- `SwigPyObject_dealloc`, when Python drops its last reference: an object that owns what it points
  -- to hands it to the destructor, in a temporary object that does not own it.
  unfoldable pub dealloc : Class → ℕ → ℕ → PyAct L Y (Unit {0})
  unfolding py_destroy
  dealloc c p id s =
      if s.owned id
      then (let (i, s') = new_object L false s in dropped (py_destroy c (proxy c p i ∷ []) s'))
      else ret tt s

  -- `SwigPyObject_own`, which is `thisown`: what it was, and what the argument makes of it.
  unfoldable pub py_own : ℕ → Option Bool → PyAct L Y Bool
  py_own id none s = ret (s.owned id) s
  py_own id (some b) s = ret (s.owned id) (set_own L id b s)
