-- ===== src/Lua/Wrappers/Clients.antt =====
-- modules/lua/Jacks_lua_wrap.c: the wrappers of `JsClient`.
use jacks.Prelude.{true, false, List, [], pos}
use jacks.Libraries.{Libs}
use jacks.Lua.Values.{
  LuaLib, Value, Method, string_list, port, event, client, long_param, unsigned_int, unsigned_long,
  enum_param, string_param, int_of,
}
use jacks.Lua.Act.{pure, ◌>>=◌, ◌>>◌}
use jacks.Lua.Machine.{Env}
use jacks.Lua.Functions.Clients.{
  js_client_activate, js_client_get_event, js_client_get_name, js_client_get_port,
  js_client_get_port_names, js_client_get_port_names_by_type, js_client_get_sample_rate,
  js_client_get_transport_state, js_client_recompute_latencies, js_client_register_port,
  new_js_client,
}
use jacks.Lua.Checks.{
  check_num_args, check_ptr_type, check_number, check_string, convert_ptr, assert_non_negative,
  arg_int, arg_unsigned, arg_unsigned_long, arg_string, protect, Pushed, push_number, push_pointer,
  push_text,
}

module _ (L : Libs) (Q : LuaLib) (E : Env L) where
  unfoldable pub wrap_new_js_client : List (Value Q.Number) → Pushed L Q
  wrap_new_js_client args = do
    check_num_args Q Method.new_client args 4 4
    check_string Q Method.new_client args 1 string_param
    check_string Q Method.new_client args 2 string_param
    check_number Q Method.new_client args 3 enum_param
    check_number Q Method.new_client args 4 unsigned_int
    a1 ← arg_string L Q args 1
    a2 ← arg_string L Q args 2
    assert_non_negative Q Method.new_client args 4
    result ← protect L Q (new_js_client L E a1 a2 (arg_int Q args 3) (arg_unsigned Q args 4))
    push_pointer L Q result client true

  unfoldable pub wrap_js_client_get_port_names_by_type : List (Value Q.Number) → Pushed L Q
  wrap_js_client_get_port_names_by_type args = do
    check_num_args Q Method.get_port_names_by_type args 4 4
    check_ptr_type Q Method.get_port_names_by_type args 1 client
    check_string Q Method.get_port_names_by_type args 2 string_param
    check_string Q Method.get_port_names_by_type args 3 string_param
    check_number Q Method.get_port_names_by_type args 4 enum_param
    a1 ← convert_ptr Q Method.get_port_names_by_type args 1 client
    a2 ← arg_string L Q args 2
    a3 ← arg_string L Q args 3
    result ← protect L Q (js_client_get_port_names_by_type L E a1 a2 a3 (arg_int Q args 4))
    push_pointer L Q result string_list false

  unfoldable pub wrap_js_client_get_port_names : List (Value Q.Number) → Pushed L Q
  wrap_js_client_get_port_names args = do
    check_num_args Q Method.get_port_names args 2 2
    check_ptr_type Q Method.get_port_names args 1 client
    check_string Q Method.get_port_names args 2 string_param
    a1 ← convert_ptr Q Method.get_port_names args 1 client
    a2 ← arg_string L Q args 2
    result ← protect L Q (js_client_get_port_names L E a1 a2)
    push_pointer L Q result string_list false

  unfoldable pub wrap_js_client_get_port : List (Value Q.Number) → Pushed L Q
  wrap_js_client_get_port args = do
    check_num_args Q Method.get_port args 2 2
    check_ptr_type Q Method.get_port args 1 client
    check_string Q Method.get_port args 2 string_param
    a1 ← convert_ptr Q Method.get_port args 1 client
    a2 ← arg_string L Q args 2
    result ← protect L Q (js_client_get_port L E a1 a2)
    push_pointer L Q result port false

  unfoldable pub wrap_js_client_register_port : List (Value Q.Number) → Pushed L Q
  wrap_js_client_register_port args = do
    check_num_args Q Method.register_port args 3 3
    check_ptr_type Q Method.register_port args 1 client
    check_string Q Method.register_port args 2 string_param
    check_number Q Method.register_port args 3 unsigned_long
    a1 ← convert_ptr Q Method.register_port args 1 client
    a2 ← arg_string L Q args 2
    assert_non_negative Q Method.register_port args 3
    result ← protect L Q (js_client_register_port L E a1 a2 (arg_unsigned_long Q args 3))
    push_pointer L Q result port false

  unfoldable pub wrap_js_client_get_event : List (Value Q.Number) → Pushed L Q
  wrap_js_client_get_event args = do
    check_num_args Q Method.get_event args 2 2
    check_ptr_type Q Method.get_event args 1 client
    check_number Q Method.get_event args 2 long_param
    a1 ← convert_ptr Q Method.get_event args 1 client
    result ← protect L Q (js_client_get_event L a1)
    push_pointer L Q result event false

  unfoldable pub wrap_js_client_get_sample_rate : List (Value Q.Number) → Pushed L Q
  wrap_js_client_get_sample_rate args = do
    check_num_args Q Method.get_sample_rate args 1 1
    check_ptr_type Q Method.get_sample_rate args 1 client
    a1 ← convert_ptr Q Method.get_sample_rate args 1 client
    result ← protect L Q (js_client_get_sample_rate L E a1)
    push_number L Q (pos result)

  unfoldable pub wrap_js_client_activate : List (Value Q.Number) → Pushed L Q
  wrap_js_client_activate args = do
    check_num_args Q Method.activate args 1 1
    check_ptr_type Q Method.activate args 1 client
    a1 ← convert_ptr Q Method.activate args 1 client
    result ← protect L Q (js_client_activate L E a1)
    push_number L Q result

  unfoldable pub wrap_js_client_get_name : List (Value Q.Number) → Pushed L Q
  wrap_js_client_get_name args = do
    check_num_args Q Method.client_name args 1 1
    check_ptr_type Q Method.client_name args 1 client
    a1 ← convert_ptr Q Method.client_name args 1 client
    result ← protect L Q (js_client_get_name L E a1)
    push_text L Q result

  unfoldable pub wrap_js_client_get_transport_state : List (Value Q.Number) → Pushed L Q
  wrap_js_client_get_transport_state args = do
    check_num_args Q Method.get_transport_state args 1 1
    check_ptr_type Q Method.get_transport_state args 1 client
    a1 ← convert_ptr Q Method.get_transport_state args 1 client
    result ← protect L Q (js_client_get_transport_state L E a1)
    push_number L Q (int_of result)

  unfoldable pub wrap_js_client_recompute_latencies : List (Value Q.Number) → Pushed L Q
  wrap_js_client_recompute_latencies args = do
    check_num_args Q Method.recompute_latencies args 1 1
    check_ptr_type Q Method.recompute_latencies args 1 client
    a1 ← convert_ptr Q Method.recompute_latencies args 1 client
    protect L Q (js_client_recompute_latencies L E a1)
    pure []
