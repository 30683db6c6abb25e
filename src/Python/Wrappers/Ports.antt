-- ===== src/Python/Wrappers/Ports.antt =====
-- modules/python3/Jacks_python3_wrap.c: the wrappers of `JsPort`.
use jacks.Prelude.{true, false, List}
use jacks.Libraries.{Libs}
use jacks.Lua.Values.{Method, port_buffer, latency_range, port, int_param, enum_param}
use jacks.Lua.Act.{pure, ◌>>=◌, ◌>>◌}
use jacks.Lua.Machine.{Env}
use jacks.Lua.Functions.Ports.{
  calloc_js_port, delete_js_port, js_port_connect, js_port_get_buffer, js_port_get_latency_range,
  js_port_init_capture_latency_listener, js_port_init_latency_listener,
  js_port_init_playback_latency_listener, js_port_name, js_port_set_latency_range,
  js_port_wakeup_latency_callbacks, js_port_wakeup_sig_latency_callback,
}
use jacks.Python.Values.{PyLib, PyValue, py_none, method, delete}
use jacks.Python.Convert.{as_val_int}
use jacks.Python.Checks.{
  obj, parse_tuple, checked, PyAct, arg_pointer, arg_disowned, py_protect, from_int, from_pointer,
  from_text,
}

module _ (L : Libs) (Y : PyLib) (E : Env L) where
  unfoldable pub py_wrap_delete_js_port : List (PyValue Y) → PyAct L Y (PyValue Y)
  py_wrap_delete_js_port args = do
    parse_tuple (delete port) 1 args
    a1 ← arg_disowned L Y (delete port) 1 port args
    py_protect L Y (delete_js_port L a1)
    pure py_none

  unfoldable pub py_wrap_js_port_get_buffer : List (PyValue Y) → PyAct L Y (PyValue Y)
  py_wrap_js_port_get_buffer args = do
    parse_tuple (method Method.get_buffer) 1 args
    a1 ← arg_pointer L Y (method Method.get_buffer) 1 port args
    result ← py_protect L Y (js_port_get_buffer L a1)
    from_pointer L Y result port_buffer false

  unfoldable pub py_wrap_js_port_name : List (PyValue Y) → PyAct L Y (PyValue Y)
  py_wrap_js_port_name args = do
    parse_tuple (method Method.port_name) 1 args
    a1 ← arg_pointer L Y (method Method.port_name) 1 port args
    result ← py_protect L Y (js_port_name L a1)
    from_text L Y result

  unfoldable pub py_wrap_js_port_connect : List (PyValue Y) → PyAct L Y (PyValue Y)
  py_wrap_js_port_connect args = do
    parse_tuple (method Method.connect) 2 args
    a1 ← arg_pointer L Y (method Method.connect) 1 port args
    a2 ← arg_pointer L Y (method Method.connect) 2 port args
    result ← py_protect L Y (js_port_connect L a1 a2)
    from_int L Y result

  unfoldable pub py_wrap_js_port_get_latency_range : List (PyValue Y) → PyAct L Y (PyValue Y)
  py_wrap_js_port_get_latency_range args = do
    parse_tuple (method Method.get_latency_range) 2 args
    a1 ← arg_pointer L Y (method Method.get_latency_range) 1 port args
    a2 ← checked (method Method.get_latency_range) 2 enum_param (as_val_int Y (obj args 2))
    result ← py_protect L Y (js_port_get_latency_range L E a1 a2)
    from_pointer L Y result latency_range false

  unfoldable pub py_wrap_js_port_set_latency_range : List (PyValue Y) → PyAct L Y (PyValue Y)
  py_wrap_js_port_set_latency_range args = do
    parse_tuple (method Method.set_latency_range) 4 args
    a1 ← arg_pointer L Y (method Method.set_latency_range) 1 port args
    a2 ← checked (method Method.set_latency_range) 2 enum_param (as_val_int Y (obj args 2))
    a3 ← checked (method Method.set_latency_range) 3 int_param (as_val_int Y (obj args 3))
    a4 ← checked (method Method.set_latency_range) 4 int_param (as_val_int Y (obj args 4))
    py_protect L Y (js_port_set_latency_range L E a1 a2 a3 a4)
    pure py_none

  unfoldable pub py_wrap_js_port_wakeup_latency_callbacks : List (PyValue Y) → PyAct L Y (PyValue Y)
  py_wrap_js_port_wakeup_latency_callbacks args = do
    parse_tuple (method Method.wakeup_latency_callbacks) 1 args
    a1 ← arg_pointer L Y (method Method.wakeup_latency_callbacks) 1 port args
    py_protect L Y (js_port_wakeup_latency_callbacks L a1)
    pure py_none

  unfoldable pub py_wrap_js_port_wakeup_sig_latency_callback :
      List (PyValue Y) → PyAct L Y (PyValue Y)
  py_wrap_js_port_wakeup_sig_latency_callback args = do
    parse_tuple (method Method.wakeup_sig_latency_callback) 1 args
    a1 ← arg_pointer L Y (method Method.wakeup_sig_latency_callback) 1 port args
    py_protect L Y (js_port_wakeup_sig_latency_callback L a1)
    pure py_none

  unfoldable pub py_wrap_js_port_init_capture_latency_listener :
      List (PyValue Y) → PyAct L Y (PyValue Y)
  py_wrap_js_port_init_capture_latency_listener args = do
    parse_tuple (method Method.init_capture_latency_listener) 1 args
    a1 ← arg_pointer L Y (method Method.init_capture_latency_listener) 1 port args
    result ← py_protect L Y (js_port_init_capture_latency_listener L E a1)
    from_int L Y result

  unfoldable pub py_wrap_js_port_init_playback_latency_listener :
      List (PyValue Y) → PyAct L Y (PyValue Y)
  py_wrap_js_port_init_playback_latency_listener args = do
    parse_tuple (method Method.init_playback_latency_listener) 1 args
    a1 ← arg_pointer L Y (method Method.init_playback_latency_listener) 1 port args
    result ← py_protect L Y (js_port_init_playback_latency_listener L E a1)
    from_int L Y result

  unfoldable pub py_wrap_js_port_init_latency_listener : List (PyValue Y) → PyAct L Y (PyValue Y)
  py_wrap_js_port_init_latency_listener args = do
    parse_tuple (method Method.init_latency_listener) 1 args
    a1 ← arg_pointer L Y (method Method.init_latency_listener) 1 port args
    result ← py_protect L Y (js_port_init_latency_listener L E a1)
    from_int L Y result

  unfoldable pub py_wrap_new_js_port : List (PyValue Y) → PyAct L Y (PyValue Y)
  py_wrap_new_js_port args = do
    parse_tuple (method Method.new_port) 0 args
    result ← py_protect L Y (calloc_js_port L)
    from_pointer L Y result port true
