-- ===== src/Python/Wrappers/Buffers.antt =====
-- modules/python3/Jacks_python3_wrap.c: the wrappers of `JsPortBuffer`, `JsLatencyRange` and `StringList`.
use jacks.Prelude.{true, false, List, pos}
use jacks.Libraries.{Libs}
use jacks.Lua.Values.{
  Method, port_buffer, latency_range, string_list, float_array, int_param, unsigned_int,
  float_param, char_param,
}
use jacks.Lua.Act.{pure, ◌>>=◌, ◌>>◌}
use jacks.Lua.Functions.Values.{
  calloc_js_latency_range, calloc_js_port_buffer, calloc_string_list, delete_js_latency_range,
  delete_js_port_buffer, delete_string_list, js_latency_range_max, js_latency_range_min,
  js_port_buffer_getf, js_port_buffer_length, js_port_buffer_setf, js_port_buffer_to_hex_string,
  string_list_get, string_list_length,
}
use jacks.Lua.Wrappers.Buffers.{address_ptr}
use jacks.Python.Values.{PyLib, PyValue, py_none, method, delete}
use jacks.Python.Convert.{as_val_int, as_val_unsigned_int, as_val_float, as_val_char}
use jacks.Python.Checks.{
  obj, parse_tuple, checked, PyAct, arg_pointer, arg_disowned, py_protect, from_int, from_pointer,
  from_text, from_char_ptr,
}

module _ (L : Libs) (Y : PyLib) where
  unfoldable pub py_wrap_delete_js_port_buffer : List (PyValue Y) → PyAct L Y (PyValue Y)
  py_wrap_delete_js_port_buffer args = do
    parse_tuple (delete port_buffer) 1 args
    a1 ← arg_disowned L Y (delete port_buffer) 1 port_buffer args
    py_protect L Y (delete_js_port_buffer L a1)
    pure py_none

  unfoldable pub py_wrap_js_port_buffer_getf : List (PyValue Y) → PyAct L Y (PyValue Y)
  py_wrap_js_port_buffer_getf args = do
    parse_tuple (method Method.getf) 2 args
    a1 ← arg_pointer L Y (method Method.getf) 1 port_buffer args
    a2 ← checked (method Method.getf) 2 unsigned_int (as_val_unsigned_int Y (obj args 2))
    result ← py_protect L Y (js_port_buffer_getf L a1 a2)
    from_pointer L Y (address_ptr result) float_array false

  unfoldable pub py_wrap_js_port_buffer_setf : List (PyValue Y) → PyAct L Y (PyValue Y)
  py_wrap_js_port_buffer_setf args = do
    parse_tuple (method Method.setf) 3 args
    a1 ← arg_pointer L Y (method Method.setf) 1 port_buffer args
    a2 ← checked (method Method.setf) 2 unsigned_int (as_val_unsigned_int Y (obj args 2))
    a3 ← checked (method Method.setf) 3 float_param (as_val_float Y (obj args 3))
    py_protect L Y (js_port_buffer_setf L a1 a2)
    pure py_none

  unfoldable pub py_wrap_js_port_buffer_length : List (PyValue Y) → PyAct L Y (PyValue Y)
  py_wrap_js_port_buffer_length args = do
    parse_tuple (method Method.buffer_length) 1 args
    a1 ← arg_pointer L Y (method Method.buffer_length) 1 port_buffer args
    result ← py_protect L Y (js_port_buffer_length L a1)
    from_int L Y (pos result)

  unfoldable pub py_wrap_js_port_buffer_to_hex_string : List (PyValue Y) → PyAct L Y (PyValue Y)
  py_wrap_js_port_buffer_to_hex_string args = do
    parse_tuple (method Method.to_hex_string) 4 args
    a1 ← arg_pointer L Y (method Method.to_hex_string) 1 port_buffer args
    a2 ← checked (method Method.to_hex_string) 2 unsigned_int (as_val_unsigned_int Y (obj args 2))
    a3 ← checked (method Method.to_hex_string) 3 unsigned_int (as_val_unsigned_int Y (obj args 3))
    a4 ← checked (method Method.to_hex_string) 4 char_param (as_val_char Y (obj args 4))
    result ← py_protect L Y (js_port_buffer_to_hex_string L a1 a2 a3 a4)
    from_text L Y result

  unfoldable pub py_wrap_new_js_port_buffer : List (PyValue Y) → PyAct L Y (PyValue Y)
  py_wrap_new_js_port_buffer args = do
    parse_tuple (method Method.new_buffer) 0 args
    result ← py_protect L Y (calloc_js_port_buffer L)
    from_pointer L Y result port_buffer true

  unfoldable pub py_wrap_delete_js_latency_range : List (PyValue Y) → PyAct L Y (PyValue Y)
  py_wrap_delete_js_latency_range args = do
    parse_tuple (delete latency_range) 1 args
    a1 ← arg_disowned L Y (delete latency_range) 1 latency_range args
    py_protect L Y (delete_js_latency_range L a1)
    pure py_none

  unfoldable pub py_wrap_js_latency_range_min : List (PyValue Y) → PyAct L Y (PyValue Y)
  py_wrap_js_latency_range_min args = do
    parse_tuple (method Method.range_min) 1 args
    a1 ← arg_pointer L Y (method Method.range_min) 1 latency_range args
    result ← py_protect L Y (js_latency_range_min L a1)
    from_int L Y result

  unfoldable pub py_wrap_js_latency_range_max : List (PyValue Y) → PyAct L Y (PyValue Y)
  py_wrap_js_latency_range_max args = do
    parse_tuple (method Method.range_max) 1 args
    a1 ← arg_pointer L Y (method Method.range_max) 1 latency_range args
    result ← py_protect L Y (js_latency_range_max L a1)
    from_int L Y result

  unfoldable pub py_wrap_new_js_latency_range : List (PyValue Y) → PyAct L Y (PyValue Y)
  py_wrap_new_js_latency_range args = do
    parse_tuple (method Method.new_range) 0 args
    result ← py_protect L Y (calloc_js_latency_range L)
    from_pointer L Y result latency_range true

  unfoldable pub py_wrap_delete_string_list : List (PyValue Y) → PyAct L Y (PyValue Y)
  py_wrap_delete_string_list args = do
    parse_tuple (delete string_list) 1 args
    a1 ← arg_disowned L Y (delete string_list) 1 string_list args
    py_protect L Y (delete_string_list L a1)
    pure py_none

  unfoldable pub py_wrap_string_list_get : List (PyValue Y) → PyAct L Y (PyValue Y)
  py_wrap_string_list_get args = do
    parse_tuple (method Method.list_get) 2 args
    a1 ← arg_pointer L Y (method Method.list_get) 1 string_list args
    a2 ← checked (method Method.list_get) 2 int_param (as_val_int Y (obj args 2))
    result ← py_protect L Y (string_list_get L a1 a2)
    from_char_ptr L Y result

  unfoldable pub py_wrap_string_list_length : List (PyValue Y) → PyAct L Y (PyValue Y)
  py_wrap_string_list_length args = do
    parse_tuple (method Method.list_length) 1 args
    a1 ← arg_pointer L Y (method Method.list_length) 1 string_list args
    result ← py_protect L Y (string_list_length L a1)
    from_int L Y (pos result)

  unfoldable pub py_wrap_new_string_list : List (PyValue Y) → PyAct L Y (PyValue Y)
  py_wrap_new_string_list args = do
    parse_tuple (method Method.new_list) 0 args
    result ← py_protect L Y (calloc_string_list L)
    from_pointer L Y result string_list true
