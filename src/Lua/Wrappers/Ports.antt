-- ===== src/Lua/Wrappers/Ports.antt =====
-- modules/lua/Jacks_lua_wrap.c: the wrappers of `JsPort`.
use jacks.Prelude.{true, false, List, []}
use jacks.Libraries.{Libs}
use jacks.Lua.Values.{
  LuaLib, Value, Method, port_buffer, latency_range, port, int_param, enum_param,
}
use jacks.Lua.Act.{pure, ◌>>=◌, ◌>>◌}
use jacks.Lua.Machine.{Env}
use jacks.Lua.Functions.Ports.{
  calloc_js_port, js_port_connect, js_port_get_buffer, js_port_get_latency_range,
  js_port_init_capture_latency_listener, js_port_init_latency_listener,
  js_port_init_playback_latency_listener, js_port_name, js_port_set_latency_range,
  js_port_wakeup_latency_callbacks, js_port_wakeup_sig_latency_callback,
}
use jacks.Lua.Checks.{
  check_num_args, check_ptr_type, check_number, convert_ptr, arg_int, protect, Pushed, push_number,
  push_pointer, push_text,
}

module _ (L : Libs) (Q : LuaLib) (E : Env L) where
  unfoldable pub wrap_js_port_get_buffer : List (Value Q.Number) → Pushed L Q
  wrap_js_port_get_buffer args = do
    check_num_args Q Method.get_buffer args 1 1
    check_ptr_type Q Method.get_buffer args 1 port
    a1 ← convert_ptr Q Method.get_buffer args 1 port
    result ← protect L Q (js_port_get_buffer L a1)
    push_pointer L Q result port_buffer false

  unfoldable pub wrap_js_port_name : List (Value Q.Number) → Pushed L Q
  wrap_js_port_name args = do
    check_num_args Q Method.port_name args 1 1
    check_ptr_type Q Method.port_name args 1 port
    a1 ← convert_ptr Q Method.port_name args 1 port
    result ← protect L Q (js_port_name L a1)
    push_text L Q result

  unfoldable pub wrap_js_port_connect : List (Value Q.Number) → Pushed L Q
  wrap_js_port_connect args = do
    check_num_args Q Method.connect args 2 2
    check_ptr_type Q Method.connect args 1 port
    check_ptr_type Q Method.connect args 2 port
    a1 ← convert_ptr Q Method.connect args 1 port
    a2 ← convert_ptr Q Method.connect args 2 port
    result ← protect L Q (js_port_connect L a1 a2)
    push_number L Q result

  unfoldable pub wrap_js_port_get_latency_range : List (Value Q.Number) → Pushed L Q
  wrap_js_port_get_latency_range args = do
    check_num_args Q Method.get_latency_range args 2 2
    check_ptr_type Q Method.get_latency_range args 1 port
    check_number Q Method.get_latency_range args 2 enum_param
    a1 ← convert_ptr Q Method.get_latency_range args 1 port
    result ← protect L Q (js_port_get_latency_range L E a1 (arg_int Q args 2))
    push_pointer L Q result latency_range false

  unfoldable pub wrap_js_port_set_latency_range : List (Value Q.Number) → Pushed L Q
  wrap_js_port_set_latency_range args = do
    check_num_args Q Method.set_latency_range args 4 4
    check_ptr_type Q Method.set_latency_range args 1 port
    check_number Q Method.set_latency_range args 2 enum_param
    check_number Q Method.set_latency_range args 3 int_param
    check_number Q Method.set_latency_range args 4 int_param
    a1 ← convert_ptr Q Method.set_latency_range args 1 port
    protect L Q
        (js_port_set_latency_range L E a1 (arg_int Q args 2) (arg_int Q args 3) (arg_int Q args 4))
    pure []

  unfoldable pub wrap_js_port_wakeup_latency_callbacks : List (Value Q.Number) → Pushed L Q
  wrap_js_port_wakeup_latency_callbacks args = do
    check_num_args Q Method.wakeup_latency_callbacks args 1 1
    check_ptr_type Q Method.wakeup_latency_callbacks args 1 port
    a1 ← convert_ptr Q Method.wakeup_latency_callbacks args 1 port
    protect L Q (js_port_wakeup_latency_callbacks L a1)
    pure []

  unfoldable pub wrap_js_port_wakeup_sig_latency_callback : List (Value Q.Number) → Pushed L Q
  wrap_js_port_wakeup_sig_latency_callback args = do
    check_num_args Q Method.wakeup_sig_latency_callback args 1 1
    check_ptr_type Q Method.wakeup_sig_latency_callback args 1 port
    a1 ← convert_ptr Q Method.wakeup_sig_latency_callback args 1 port
    protect L Q (js_port_wakeup_sig_latency_callback L a1)
    pure []

  unfoldable pub wrap_js_port_init_capture_latency_listener : List (Value Q.Number) → Pushed L Q
  wrap_js_port_init_capture_latency_listener args = do
    check_num_args Q Method.init_capture_latency_listener args 1 1
    check_ptr_type Q Method.init_capture_latency_listener args 1 port
    a1 ← convert_ptr Q Method.init_capture_latency_listener args 1 port
    result ← protect L Q (js_port_init_capture_latency_listener L E a1)
    push_number L Q result

  unfoldable pub wrap_js_port_init_playback_latency_listener : List (Value Q.Number) → Pushed L Q
  wrap_js_port_init_playback_latency_listener args = do
    check_num_args Q Method.init_playback_latency_listener args 1 1
    check_ptr_type Q Method.init_playback_latency_listener args 1 port
    a1 ← convert_ptr Q Method.init_playback_latency_listener args 1 port
    result ← protect L Q (js_port_init_playback_latency_listener L E a1)
    push_number L Q result

  unfoldable pub wrap_js_port_init_latency_listener : List (Value Q.Number) → Pushed L Q
  wrap_js_port_init_latency_listener args = do
    check_num_args Q Method.init_latency_listener args 1 1
    check_ptr_type Q Method.init_latency_listener args 1 port
    a1 ← convert_ptr Q Method.init_latency_listener args 1 port
    result ← protect L Q (js_port_init_latency_listener L E a1)
    push_number L Q result

  unfoldable pub wrap_new_js_port : List (Value Q.Number) → Pushed L Q
  wrap_new_js_port args = do
    check_num_args Q Method.new_port args 0 0
    result ← protect L Q (calloc_js_port L)
    push_pointer L Q result port true
