-- ===== src/Python/Wrappers/Events.antt =====
-- modules/python3/Jacks_python3_wrap.c: the wrappers of `JsEvent`.
use jacks.Prelude.{true, false, List}
use jacks.Libraries.{Libs}
use jacks.Lua.Values.{Method, event, void_object, enum_param, int_of, unsigned_of}
use jacks.Lua.Act.{pure, ◌>>=◌, ◌>>◌}
use jacks.Lua.Functions.Events.{
  calloc_js_event, delete_js_event, js_event_complete, js_event_get_client_uuid,
  js_event_get_command_line, js_event_get_data, js_event_get_session_dir,
  js_event_get_session_event_flags, js_event_get_session_event_type, js_event_get_type,
  js_event_set_client_uuid, js_event_set_command_line, js_event_set_session_dir,
  js_event_set_session_event_flags,
}
use jacks.Python.Values.{PyLib, PyValue, py_none, method, delete}
use jacks.Python.Convert.{as_val_int}
use jacks.Python.Checks.{
  obj, parse_tuple, checked, PyAct, arg_pointer, arg_disowned, with_text, py_protect, from_int,
  from_pointer, from_copy, from_char_ptr,
}

module _ (L : Libs) (Y : PyLib) where
  unfoldable pub py_wrap_delete_js_event : List (PyValue Y) → PyAct L Y (PyValue Y)
  py_wrap_delete_js_event args = do
    parse_tuple (delete event) 1 args
    a1 ← arg_disowned L Y (delete event) 1 event args
    py_protect L Y (delete_js_event L a1)
    pure py_none

  unfoldable pub py_wrap_js_event_get_type : List (PyValue Y) → PyAct L Y (PyValue Y)
  py_wrap_js_event_get_type args = do
    parse_tuple (method Method.get_type) 1 args
    a1 ← arg_pointer L Y (method Method.get_type) 1 event args
    result ← py_protect L Y (js_event_get_type L a1)
    from_int L Y (int_of result)

  unfoldable pub py_wrap_js_event_get_data : List (PyValue Y) → PyAct L Y (PyValue Y)
  py_wrap_js_event_get_data args = do
    parse_tuple (method Method.get_data) 1 args
    a1 ← arg_pointer L Y (method Method.get_data) 1 event args
    result ← py_protect L Y (js_event_get_data L a1)
    from_pointer L Y result void_object false

  unfoldable pub py_wrap_js_event_complete : List (PyValue Y) → PyAct L Y (PyValue Y)
  py_wrap_js_event_complete args = do
    parse_tuple (method Method.complete) 1 args
    a1 ← arg_pointer L Y (method Method.complete) 1 event args
    py_protect L Y (js_event_complete L a1)
    pure py_none

  unfoldable pub py_wrap_js_event_get_session_event_type : List (PyValue Y) → PyAct L Y (PyValue Y)
  py_wrap_js_event_get_session_event_type args = do
    parse_tuple (method Method.get_session_event_type) 1 args
    a1 ← arg_pointer L Y (method Method.get_session_event_type) 1 event args
    result ← py_protect L Y (js_event_get_session_event_type L a1)
    from_int L Y (int_of result)

  unfoldable pub py_wrap_js_event_get_session_dir : List (PyValue Y) → PyAct L Y (PyValue Y)
  py_wrap_js_event_get_session_dir args = do
    parse_tuple (method Method.get_session_dir) 1 args
    a1 ← arg_pointer L Y (method Method.get_session_dir) 1 event args
    result ← py_protect L Y (js_event_get_session_dir L a1)
    from_char_ptr L Y result

  unfoldable pub py_wrap_js_event_set_session_dir : List (PyValue Y) → PyAct L Y (PyValue Y)
  py_wrap_js_event_set_session_dir args = do
    parse_tuple (method Method.set_session_dir) 2 args
    a1 ← arg_pointer L Y (method Method.set_session_dir) 1 event args
    with_text L Y (method Method.set_session_dir) 2 args
        (λ a2. do py_protect L Y (js_event_set_session_dir L a1 a2); pure py_none)

  unfoldable pub py_wrap_js_event_get_client_uuid : List (PyValue Y) → PyAct L Y (PyValue Y)
  py_wrap_js_event_get_client_uuid args = do
    parse_tuple (method Method.get_client_uuid) 1 args
    a1 ← arg_pointer L Y (method Method.get_client_uuid) 1 event args
    result ← py_protect L Y (js_event_get_client_uuid L a1)
    from_char_ptr L Y result

  unfoldable pub py_wrap_js_event_set_client_uuid : List (PyValue Y) → PyAct L Y (PyValue Y)
  py_wrap_js_event_set_client_uuid args = do
    parse_tuple (method Method.set_client_uuid) 2 args
    a1 ← arg_pointer L Y (method Method.set_client_uuid) 1 event args
    with_text L Y (method Method.set_client_uuid) 2 args
        (λ a2. do py_protect L Y (js_event_set_client_uuid L a1 a2); pure py_none)

  unfoldable pub py_wrap_js_event_get_command_line : List (PyValue Y) → PyAct L Y (PyValue Y)
  py_wrap_js_event_get_command_line args = do
    parse_tuple (method Method.get_command_line) 1 args
    a1 ← arg_pointer L Y (method Method.get_command_line) 1 event args
    result ← py_protect L Y (js_event_get_command_line L a1)
    from_copy L Y result

  unfoldable pub py_wrap_js_event_set_command_line : List (PyValue Y) → PyAct L Y (PyValue Y)
  py_wrap_js_event_set_command_line args = do
    parse_tuple (method Method.set_command_line) 2 args
    a1 ← arg_pointer L Y (method Method.set_command_line) 1 event args
    with_text L Y (method Method.set_command_line) 2 args
        (λ a2. do py_protect L Y (js_event_set_command_line L a1 a2); pure py_none)

  unfoldable pub py_wrap_js_event_get_session_event_flags : List (PyValue Y) → PyAct L Y (PyValue Y)
  py_wrap_js_event_get_session_event_flags args = do
    parse_tuple (method Method.get_session_event_flags) 1 args
    a1 ← arg_pointer L Y (method Method.get_session_event_flags) 1 event args
    result ← py_protect L Y (js_event_get_session_event_flags L a1)
    from_int L Y (int_of result)

  unfoldable pub py_wrap_js_event_set_session_event_flags : List (PyValue Y) → PyAct L Y (PyValue Y)
  py_wrap_js_event_set_session_event_flags args = do
    parse_tuple (method Method.set_session_event_flags) 2 args
    a1 ← arg_pointer L Y (method Method.set_session_event_flags) 1 event args
    a2 ← checked (method Method.set_session_event_flags) 2 enum_param (as_val_int Y (obj args 2))
    py_protect L Y (js_event_set_session_event_flags L a1 (unsigned_of a2))
    pure py_none

  unfoldable pub py_wrap_new_js_event : List (PyValue Y) → PyAct L Y (PyValue Y)
  py_wrap_new_js_event args = do
    parse_tuple (method Method.new_event) 0 args
    result ← py_protect L Y (calloc_js_event L)
    from_pointer L Y result event true
