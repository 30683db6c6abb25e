-- ===== src/Lua/Wrappers/Events.antt =====
-- modules/lua/Jacks_lua_wrap.c: the wrappers of `JsEvent`.
use jacks.Prelude.{true, false, List, []}
use jacks.Libraries.{Libs}
use jacks.Lua.Values.{
  LuaLib, Value, Method, event, void_object, enum_param, string_param, int_of, unsigned_of,
}
use jacks.Lua.Act.{pure, ◌>>=◌, ◌>>◌}
use jacks.Lua.Functions.Events.{
  calloc_js_event, js_event_complete, js_event_get_client_uuid, js_event_get_command_line,
  js_event_get_data, js_event_get_session_dir, js_event_get_session_event_flags,
  js_event_get_session_event_type, js_event_get_type, js_event_set_client_uuid,
  js_event_set_command_line, js_event_set_session_dir, js_event_set_session_event_flags,
}
use jacks.Lua.Checks.{
  check_num_args, check_ptr_type, check_number, check_string, convert_ptr, arg_int, arg_string,
  protect, Pushed, push_number, push_pointer, push_copy, push_string,
}

module _ (L : Libs) (Q : LuaLib) where
  unfoldable pub wrap_js_event_get_type : List (Value Q.Number) → Pushed L Q
  wrap_js_event_get_type args = do
    check_num_args Q Method.get_type args 1 1
    check_ptr_type Q Method.get_type args 1 event
    a1 ← convert_ptr Q Method.get_type args 1 event
    result ← protect L Q (js_event_get_type L a1)
    push_number L Q (int_of result)

  unfoldable pub wrap_js_event_get_data : List (Value Q.Number) → Pushed L Q
  wrap_js_event_get_data args = do
    check_num_args Q Method.get_data args 1 1
    check_ptr_type Q Method.get_data args 1 event
    a1 ← convert_ptr Q Method.get_data args 1 event
    result ← protect L Q (js_event_get_data L a1)
    push_pointer L Q result void_object false

  unfoldable pub wrap_js_event_complete : List (Value Q.Number) → Pushed L Q
  wrap_js_event_complete args = do
    check_num_args Q Method.complete args 1 1
    check_ptr_type Q Method.complete args 1 event
    a1 ← convert_ptr Q Method.complete args 1 event
    protect L Q (js_event_complete L a1)
    pure []

  unfoldable pub wrap_js_event_get_session_event_type : List (Value Q.Number) → Pushed L Q
  wrap_js_event_get_session_event_type args = do
    check_num_args Q Method.get_session_event_type args 1 1
    check_ptr_type Q Method.get_session_event_type args 1 event
    a1 ← convert_ptr Q Method.get_session_event_type args 1 event
    result ← protect L Q (js_event_get_session_event_type L a1)
    push_number L Q (int_of result)

  unfoldable pub wrap_js_event_get_session_dir : List (Value Q.Number) → Pushed L Q
  wrap_js_event_get_session_dir args = do
    check_num_args Q Method.get_session_dir args 1 1
    check_ptr_type Q Method.get_session_dir args 1 event
    a1 ← convert_ptr Q Method.get_session_dir args 1 event
    result ← protect L Q (js_event_get_session_dir L a1)
    push_string L Q result

  unfoldable pub wrap_js_event_set_session_dir : List (Value Q.Number) → Pushed L Q
  wrap_js_event_set_session_dir args = do
    check_num_args Q Method.set_session_dir args 2 2
    check_ptr_type Q Method.set_session_dir args 1 event
    check_string Q Method.set_session_dir args 2 string_param
    a1 ← convert_ptr Q Method.set_session_dir args 1 event
    a2 ← arg_string L Q args 2
    protect L Q (js_event_set_session_dir L a1 a2)
    pure []

  unfoldable pub wrap_js_event_get_client_uuid : List (Value Q.Number) → Pushed L Q
  wrap_js_event_get_client_uuid args = do
    check_num_args Q Method.get_client_uuid args 1 1
    check_ptr_type Q Method.get_client_uuid args 1 event
    a1 ← convert_ptr Q Method.get_client_uuid args 1 event
    result ← protect L Q (js_event_get_client_uuid L a1)
    push_string L Q result

  unfoldable pub wrap_js_event_set_client_uuid : List (Value Q.Number) → Pushed L Q
  wrap_js_event_set_client_uuid args = do
    check_num_args Q Method.set_client_uuid args 2 2
    check_ptr_type Q Method.set_client_uuid args 1 event
    check_string Q Method.set_client_uuid args 2 string_param
    a1 ← convert_ptr Q Method.set_client_uuid args 1 event
    a2 ← arg_string L Q args 2
    protect L Q (js_event_set_client_uuid L a1 a2)
    pure []

  unfoldable pub wrap_js_event_get_command_line : List (Value Q.Number) → Pushed L Q
  wrap_js_event_get_command_line args = do
    check_num_args Q Method.get_command_line args 1 1
    check_ptr_type Q Method.get_command_line args 1 event
    a1 ← convert_ptr Q Method.get_command_line args 1 event
    result ← protect L Q (js_event_get_command_line L a1)
    push_copy L Q result

  unfoldable pub wrap_js_event_set_command_line : List (Value Q.Number) → Pushed L Q
  wrap_js_event_set_command_line args = do
    check_num_args Q Method.set_command_line args 2 2
    check_ptr_type Q Method.set_command_line args 1 event
    check_string Q Method.set_command_line args 2 string_param
    a1 ← convert_ptr Q Method.set_command_line args 1 event
    a2 ← arg_string L Q args 2
    protect L Q (js_event_set_command_line L a1 a2)
    pure []

  unfoldable pub wrap_js_event_get_session_event_flags : List (Value Q.Number) → Pushed L Q
  wrap_js_event_get_session_event_flags args = do
    check_num_args Q Method.get_session_event_flags args 1 1
    check_ptr_type Q Method.get_session_event_flags args 1 event
    a1 ← convert_ptr Q Method.get_session_event_flags args 1 event
    result ← protect L Q (js_event_get_session_event_flags L a1)
    push_number L Q (int_of result)

  unfoldable pub wrap_js_event_set_session_event_flags : List (Value Q.Number) → Pushed L Q
  wrap_js_event_set_session_event_flags args = do
    check_num_args Q Method.set_session_event_flags args 2 2
    check_ptr_type Q Method.set_session_event_flags args 1 event
    check_number Q Method.set_session_event_flags args 2 enum_param
    a1 ← convert_ptr Q Method.set_session_event_flags args 1 event
    protect L Q (js_event_set_session_event_flags L a1 (unsigned_of (arg_int Q args 2)))
    pure []

  unfoldable pub wrap_new_js_event : List (Value Q.Number) → Pushed L Q
  wrap_new_js_event args = do
    check_num_args Q Method.new_event args 0 0
    result ← protect L Q (calloc_js_event L)
    push_pointer L Q result event true
