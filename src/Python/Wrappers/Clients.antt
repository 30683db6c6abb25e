-- ===== src/Python/Wrappers/Clients.antt =====
-- modules/python3/Jacks_python3_wrap.c: the wrappers of `JsClient`.
use jacks.Prelude.{true, false, List, pos}
use jacks.Libraries.{Libs}
use jacks.Lua.Values.{
  Method, string_list, port, event, client, long_param, unsigned_int, unsigned_long, enum_param,
  int_of,
}
use jacks.Lua.Act.{pure, ◌>>=◌, ◌>>◌}
use jacks.Lua.Machine.{Env}
use jacks.Lua.Functions.Clients.{
  delete_js_client, js_client_activate, js_client_get_event, js_client_get_name, js_client_get_port,
  js_client_get_port_names, js_client_get_port_names_by_type, js_client_get_sample_rate,
  js_client_get_transport_state, js_client_recompute_latencies, js_client_register_port,
  new_js_client,
}
use jacks.Python.Values.{PyLib, PyValue, py_none, method, delete}
use jacks.Python.Convert.{as_val_int, as_val_long, as_val_unsigned_int, as_val_unsigned_long}
use jacks.Python.Checks.{
  obj, parse_tuple, checked, PyAct, arg_pointer, arg_disowned, with_text, py_protect, from_int,
  from_pointer, from_text,
}

module _ (L : Libs) (Y : PyLib) (E : Env L) where
  unfoldable pub py_wrap_new_js_client : List (PyValue Y) → PyAct L Y (PyValue Y)
  py_wrap_new_js_client args = do
    parse_tuple (method Method.new_client) 4 args
    with_text L Y (method Method.new_client) 1 args (λ a1. do
      with_text L Y (method Method.new_client) 2 args (λ a2. do
        a3 ← checked (method Method.new_client) 3 enum_param (as_val_int Y (obj args 3))
        a4 ← checked (method Method.new_client) 4 unsigned_int (as_val_unsigned_int Y (obj args 4))
        result ← py_protect L Y (new_js_client L E a1 a2 a3 a4)
        from_pointer L Y result client true))

  unfoldable pub py_wrap_delete_js_client : List (PyValue Y) → PyAct L Y (PyValue Y)
  py_wrap_delete_js_client args = do
    parse_tuple (delete client) 1 args
    a1 ← arg_disowned L Y (delete client) 1 client args
    py_protect L Y (delete_js_client L a1)
    pure py_none

  unfoldable pub py_wrap_js_client_get_port_names_by_type : List (PyValue Y) → PyAct L Y (PyValue Y)
  py_wrap_js_client_get_port_names_by_type args = do
    parse_tuple (method Method.get_port_names_by_type) 4 args
    a1 ← arg_pointer L Y (method Method.get_port_names_by_type) 1 client args
    with_text L Y (method Method.get_port_names_by_type) 2 args (λ a2. do
      with_text L Y (method Method.get_port_names_by_type) 3 args (λ a3. do
        a4 ← checked (method Method.get_port_names_by_type) 4 enum_param (as_val_int Y (obj args 4))
        result ← py_protect L Y (js_client_get_port_names_by_type L E a1 a2 a3 a4)
        from_pointer L Y result string_list false))

  unfoldable pub py_wrap_js_client_get_port_names : List (PyValue Y) → PyAct L Y (PyValue Y)
  py_wrap_js_client_get_port_names args = do
    parse_tuple (method Method.get_port_names) 2 args
    a1 ← arg_pointer L Y (method Method.get_port_names) 1 client args
    with_text L Y (method Method.get_port_names) 2 args (λ a2. do
      result ← py_protect L Y (js_client_get_port_names L E a1 a2)
      from_pointer L Y result string_list false)

  unfoldable pub py_wrap_js_client_get_port : List (PyValue Y) → PyAct L Y (PyValue Y)
  py_wrap_js_client_get_port args = do
    parse_tuple (method Method.get_port) 2 args
    a1 ← arg_pointer L Y (method Method.get_port) 1 client args
    with_text L Y (method Method.get_port) 2 args (λ a2. do
      result ← py_protect L Y (js_client_get_port L E a1 a2)
      from_pointer L Y result port false)

  unfoldable pub py_wrap_js_client_register_port : List (PyValue Y) → PyAct L Y (PyValue Y)
  py_wrap_js_client_register_port args = do
    parse_tuple (method Method.register_port) 3 args
    a1 ← arg_pointer L Y (method Method.register_port) 1 client args
    with_text L Y (method Method.register_port) 2 args (λ a2. do
      a3 ←
          checked (method Method.register_port) 3 unsigned_long
            (as_val_unsigned_long Y (obj args 3))
      result ← py_protect L Y (js_client_register_port L E a1 a2 a3)
      from_pointer L Y result port false)

  unfoldable pub py_wrap_js_client_get_event : List (PyValue Y) → PyAct L Y (PyValue Y)
  py_wrap_js_client_get_event args = do
    parse_tuple (method Method.get_event) 2 args
    a1 ← arg_pointer L Y (method Method.get_event) 1 client args
    a2 ← checked (method Method.get_event) 2 long_param (as_val_long Y (obj args 2))
    result ← py_protect L Y (js_client_get_event L a1)
    from_pointer L Y result event false

  unfoldable pub py_wrap_js_client_get_sample_rate : List (PyValue Y) → PyAct L Y (PyValue Y)
  py_wrap_js_client_get_sample_rate args = do
    parse_tuple (method Method.get_sample_rate) 1 args
    a1 ← arg_pointer L Y (method Method.get_sample_rate) 1 client args
    result ← py_protect L Y (js_client_get_sample_rate L E a1)
    from_int L Y (pos result)

  unfoldable pub py_wrap_js_client_activate : List (PyValue Y) → PyAct L Y (PyValue Y)
  py_wrap_js_client_activate args = do
    parse_tuple (method Method.activate) 1 args
    a1 ← arg_pointer L Y (method Method.activate) 1 client args
    result ← py_protect L Y (js_client_activate L E a1)
    from_int L Y result

  unfoldable pub py_wrap_js_client_get_name : List (PyValue Y) → PyAct L Y (PyValue Y)
  py_wrap_js_client_get_name args = do
    parse_tuple (method Method.client_name) 1 args
    a1 ← arg_pointer L Y (method Method.client_name) 1 client args
    result ← py_protect L Y (js_client_get_name L E a1)
    from_text L Y result

  unfoldable pub py_wrap_js_client_get_transport_state : List (PyValue Y) → PyAct L Y (PyValue Y)
  py_wrap_js_client_get_transport_state args = do
    parse_tuple (method Method.get_transport_state) 1 args
    a1 ← arg_pointer L Y (method Method.get_transport_state) 1 client args
    result ← py_protect L Y (js_client_get_transport_state L E a1)
    from_int L Y (int_of result)

  unfoldable pub py_wrap_js_client_recompute_latencies : List (PyValue Y) → PyAct L Y (PyValue Y)
  py_wrap_js_client_recompute_latencies args = do
    parse_tuple (method Method.recompute_latencies) 1 args
    a1 ← arg_pointer L Y (method Method.recompute_latencies) 1 client args
    py_protect L Y (js_client_recompute_latencies L E a1)
    pure py_none
