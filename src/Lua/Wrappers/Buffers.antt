-- ===== src/Lua/Wrappers/Buffers.antt =====
-- modules/lua/Jacks_lua_wrap.c: the wrappers of `JsPortBuffer`, `JsLatencyRange` and `StringList`.
use jacks.Prelude.{ℕ, zero, suc, true, false, List, [], none, some, pos}
use jacks.Memory.{Ptr}
use jacks.Libraries.{Libs}
use jacks.Lua.Values.{
  LuaLib, Value, Method, port_buffer, latency_range, string_list, float_array, int_param,
  unsigned_int, float_param, char_param,
}
use jacks.Lua.Act.{pure, ◌>>=◌, ◌>>◌}
use jacks.Lua.Functions.Values.{
  calloc_js_latency_range, calloc_js_port_buffer, calloc_string_list, js_latency_range_max,
  js_latency_range_min, js_port_buffer_getf, js_port_buffer_length, js_port_buffer_setf,
  js_port_buffer_to_hex_string, string_list_get, string_list_length,
}
use jacks.Lua.Checks.{
  check_num_args, check_ptr_type, check_number, check_string, convert_ptr, assert_non_negative,
  arg_int, arg_unsigned, arg_char, protect, Pushed, push_number, push_pointer, push_text,
  push_string,
}

-- The pointer that a number is.
abbrev pub address_ptr : ℕ → Ptr
address_ptr zero = none
address_ptr (suc n) = some (suc n)

module _ (L : Libs) (Q : LuaLib) where
  unfoldable pub wrap_js_port_buffer_getf : List (Value Q.Number) → Pushed L Q
  wrap_js_port_buffer_getf args = do
    check_num_args Q Method.getf args 2 2
    check_ptr_type Q Method.getf args 1 port_buffer
    check_number Q Method.getf args 2 unsigned_int
    a1 ← convert_ptr Q Method.getf args 1 port_buffer
    assert_non_negative Q Method.getf args 2
    result ← protect L Q (js_port_buffer_getf L a1 (arg_unsigned Q args 2))
    push_pointer L Q (address_ptr result) float_array false

  unfoldable pub wrap_js_port_buffer_setf : List (Value Q.Number) → Pushed L Q
  wrap_js_port_buffer_setf args = do
    check_num_args Q Method.setf args 3 3
    check_ptr_type Q Method.setf args 1 port_buffer
    check_number Q Method.setf args 2 unsigned_int
    check_number Q Method.setf args 3 float_param
    a1 ← convert_ptr Q Method.setf args 1 port_buffer
    assert_non_negative Q Method.setf args 2
    protect L Q (js_port_buffer_setf L a1 (arg_unsigned Q args 2))
    pure []

  unfoldable pub wrap_js_port_buffer_length : List (Value Q.Number) → Pushed L Q
  wrap_js_port_buffer_length args = do
    check_num_args Q Method.buffer_length args 1 1
    check_ptr_type Q Method.buffer_length args 1 port_buffer
    a1 ← convert_ptr Q Method.buffer_length args 1 port_buffer
    result ← protect L Q (js_port_buffer_length L a1)
    push_number L Q (pos result)

  unfoldable pub wrap_js_port_buffer_to_hex_string : List (Value Q.Number) → Pushed L Q
  wrap_js_port_buffer_to_hex_string args = do
    check_num_args Q Method.to_hex_string args 4 4
    check_ptr_type Q Method.to_hex_string args 1 port_buffer
    check_number Q Method.to_hex_string args 2 unsigned_int
    check_number Q Method.to_hex_string args 3 unsigned_int
    check_string Q Method.to_hex_string args 4 char_param
    a1 ← convert_ptr Q Method.to_hex_string args 1 port_buffer
    assert_non_negative Q Method.to_hex_string args 2
    assert_non_negative Q Method.to_hex_string args 3
    a4 ← arg_char Q args 4
    result ←
        protect L Q
          (js_port_buffer_to_hex_string L a1 (arg_unsigned Q args 2) (arg_unsigned Q args 3) a4)
    push_text L Q result

  unfoldable pub wrap_new_js_port_buffer : List (Value Q.Number) → Pushed L Q
  wrap_new_js_port_buffer args = do
    check_num_args Q Method.new_buffer args 0 0
    result ← protect L Q (calloc_js_port_buffer L)
    push_pointer L Q result port_buffer true

  unfoldable pub wrap_js_latency_range_min : List (Value Q.Number) → Pushed L Q
  wrap_js_latency_range_min args = do
    check_num_args Q Method.range_min args 1 1
    check_ptr_type Q Method.range_min args 1 latency_range
    a1 ← convert_ptr Q Method.range_min args 1 latency_range
    result ← protect L Q (js_latency_range_min L a1)
    push_number L Q result

  unfoldable pub wrap_js_latency_range_max : List (Value Q.Number) → Pushed L Q
  wrap_js_latency_range_max args = do
    check_num_args Q Method.range_max args 1 1
    check_ptr_type Q Method.range_max args 1 latency_range
    a1 ← convert_ptr Q Method.range_max args 1 latency_range
    result ← protect L Q (js_latency_range_max L a1)
    push_number L Q result

  unfoldable pub wrap_new_js_latency_range : List (Value Q.Number) → Pushed L Q
  wrap_new_js_latency_range args = do
    check_num_args Q Method.new_range args 0 0
    result ← protect L Q (calloc_js_latency_range L)
    push_pointer L Q result latency_range true

  unfoldable pub wrap_string_list_get : List (Value Q.Number) → Pushed L Q
  wrap_string_list_get args = do
    check_num_args Q Method.list_get args 2 2
    check_ptr_type Q Method.list_get args 1 string_list
    check_number Q Method.list_get args 2 int_param
    a1 ← convert_ptr Q Method.list_get args 1 string_list
    result ← protect L Q (string_list_get L a1 (arg_int Q args 2))
    push_string L Q result

  unfoldable pub wrap_string_list_length : List (Value Q.Number) → Pushed L Q
  wrap_string_list_length args = do
    check_num_args Q Method.list_length args 1 1
    check_ptr_type Q Method.list_length args 1 string_list
    a1 ← convert_ptr Q Method.list_length args 1 string_list
    result ← protect L Q (string_list_length L a1)
    push_number L Q (pos result)

  unfoldable pub wrap_new_string_list : List (Value Q.Number) → Pushed L Q
  wrap_new_string_list args = do
    check_num_args Q Method.new_list args 0 0
    result ← protect L Q (calloc_string_list L)
    push_pointer L Q result string_list true
