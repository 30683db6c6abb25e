-- ===== src/Lua/Typing.antt =====
-- modules/lua/Jacks_lua_wrap.c: a call is refused if and only if its arguments do not fit.
pub mod Outcomes
mod Fits
mod Steps
mod Ends
mod Short
mod Long
use jacks.Prelude.{refl, List}
use jacks.Libraries.{Libs}
use jacks.Lua.Values.{
  LuaLib, Value, Method, port_buffer, latency_range, string_list, port, event, client,
}
use jacks.Lua.Machine.{Machine, Env}
use jacks.Lua.Wrappers.Buffers.{
  wrap_js_port_buffer_getf, wrap_js_port_buffer_setf, wrap_js_port_buffer_length,
  wrap_js_port_buffer_to_hex_string, wrap_new_js_port_buffer, wrap_js_latency_range_min,
  wrap_js_latency_range_max, wrap_new_js_latency_range, wrap_string_list_get,
  wrap_string_list_length, wrap_new_string_list,
}
use jacks.Lua.Wrappers.Ports.{
  wrap_js_port_get_buffer, wrap_js_port_name, wrap_js_port_connect, wrap_js_port_get_latency_range,
  wrap_js_port_set_latency_range, wrap_js_port_wakeup_latency_callbacks,
  wrap_js_port_wakeup_sig_latency_callback, wrap_js_port_init_capture_latency_listener,
  wrap_js_port_init_playback_latency_listener, wrap_js_port_init_latency_listener, wrap_new_js_port,
}
use jacks.Lua.Wrappers.Events.{
  wrap_js_event_get_type, wrap_js_event_get_data, wrap_js_event_complete,
  wrap_js_event_get_session_event_type, wrap_js_event_get_session_dir,
  wrap_js_event_set_session_dir, wrap_js_event_get_client_uuid, wrap_js_event_set_client_uuid,
  wrap_js_event_get_command_line, wrap_js_event_set_command_line,
  wrap_js_event_get_session_event_flags, wrap_js_event_set_session_event_flags, wrap_new_js_event,
}
use jacks.Lua.Wrappers.Clients.{
  wrap_new_js_client, wrap_js_client_get_port_names_by_type, wrap_js_client_get_port_names,
  wrap_js_client_get_port, wrap_js_client_register_port, wrap_js_client_get_event,
  wrap_js_client_get_sample_rate, wrap_js_client_activate, wrap_js_client_get_name,
  wrap_js_client_get_transport_state, wrap_js_client_recompute_latencies,
}
use jacks.Lua.Dispatch.{call}
use jacks.Lua.Signatures.{signature, fits}
use jacks.Lua.Typing.Outcomes.{Checked}
use jacks.Lua.Typing.Ends.{protect_lem, push_string_lem, push_copy_lem, char_lem}
use jacks.Lua.Typing.Short.{
  nothing_lem, self_lem, self_text_lem, self_int_lem, self_long_lem, self_enum_lem, self_index_lem,
  self_pointer_lem,
}
use jacks.Lua.Typing.Long.{setf_lem, hex_lem, latency_lem, open_lem, names_lem, register_lem}

module _ (L : Libs) (Q : LuaLib) (E : Env L) where
  -- Every call of every function from Lua, whatever the arguments and the memory: if the arguments
  -- do not fit the function's parameters, in number, type or sign, the call raises an error that
  -- says so and changes nothing but the copies of Lua's strings. If they fit, it raises no such
  -- error.
  pub call-Checked :
      (d : Method) (m : Machine L) (args : List (Value Q.Number))
      → Checked L Q m (fits Q (signature d) args) (call L Q E d args m)
  unfolding call signature wrap_js_port_buffer_getf wrap_js_port_buffer_setf
      wrap_js_port_buffer_length wrap_js_port_buffer_to_hex_string wrap_new_js_port_buffer
      wrap_js_latency_range_min wrap_js_latency_range_max wrap_new_js_latency_range
      wrap_string_list_get wrap_string_list_length wrap_new_string_list wrap_js_port_get_buffer
      wrap_js_port_name wrap_js_port_connect wrap_js_port_get_latency_range
      wrap_js_port_set_latency_range wrap_js_port_wakeup_latency_callbacks
      wrap_js_port_wakeup_sig_latency_callback wrap_js_port_init_capture_latency_listener
      wrap_js_port_init_playback_latency_listener wrap_js_port_init_latency_listener
      wrap_new_js_port wrap_js_event_get_type wrap_js_event_get_data wrap_js_event_complete
      wrap_js_event_get_session_event_type wrap_js_event_get_session_dir
      wrap_js_event_set_session_dir wrap_js_event_get_client_uuid wrap_js_event_set_client_uuid
      wrap_js_event_get_command_line wrap_js_event_set_command_line
      wrap_js_event_get_session_event_flags wrap_js_event_set_session_event_flags wrap_new_js_event
      wrap_new_js_client wrap_js_client_get_port_names_by_type wrap_js_client_get_port_names
      wrap_js_client_get_port wrap_js_client_register_port wrap_js_client_get_event
      wrap_js_client_get_sample_rate wrap_js_client_activate wrap_js_client_get_name
      wrap_js_client_get_transport_state wrap_js_client_recompute_latencies
  call-Checked Method.getf m args =
      self_index_lem L Q Method.getf port_buffer m args _
        (λ p s. protect_lem L Q _ _ s (λ a t. refl))
  call-Checked Method.setf m args =
      setf_lem L Q Method.setf port_buffer m args _ (λ p s. protect_lem L Q _ _ s (λ a t. refl))
  call-Checked Method.buffer_length m args =
      self_lem L Q Method.buffer_length port_buffer m args _
        (λ p s. protect_lem L Q _ _ s (λ a t. refl))
  call-Checked Method.to_hex_string m args =
      hex_lem L Q Method.to_hex_string port_buffer m args _
        (λ p s. char_lem L Q 4 args s _ (λ o n. protect_lem L Q _ _ n (λ a t. refl)))
  call-Checked Method.new_buffer m args =
      nothing_lem L Q Method.new_buffer m args _ (λ s. protect_lem L Q _ _ s (λ a t. refl))
  call-Checked Method.range_min m args =
      self_lem L Q Method.range_min latency_range m args _
        (λ p s. protect_lem L Q _ _ s (λ a t. refl))
  call-Checked Method.range_max m args =
      self_lem L Q Method.range_max latency_range m args _
        (λ p s. protect_lem L Q _ _ s (λ a t. refl))
  call-Checked Method.new_range m args =
      nothing_lem L Q Method.new_range m args _ (λ s. protect_lem L Q _ _ s (λ a t. refl))
  call-Checked Method.list_get m args =
      self_int_lem L Q Method.list_get string_list m args _
        (λ p s. protect_lem L Q _ _ s (λ a t. push_string_lem L Q a t))
  call-Checked Method.list_length m args =
      self_lem L Q Method.list_length string_list m args _
        (λ p s. protect_lem L Q _ _ s (λ a t. refl))
  call-Checked Method.new_list m args =
      nothing_lem L Q Method.new_list m args _ (λ s. protect_lem L Q _ _ s (λ a t. refl))
  call-Checked Method.get_buffer m args =
      self_lem L Q Method.get_buffer port m args _ (λ p s. protect_lem L Q _ _ s (λ a t. refl))
  call-Checked Method.port_name m args =
      self_lem L Q Method.port_name port m args _ (λ p s. protect_lem L Q _ _ s (λ a t. refl))
  call-Checked Method.connect m args =
      self_pointer_lem L Q Method.connect port m args _
        (λ p q s. protect_lem L Q _ _ s (λ a t. refl))
  call-Checked Method.get_latency_range m args =
      self_enum_lem L Q Method.get_latency_range port m args _
        (λ p s. protect_lem L Q _ _ s (λ a t. refl))
  call-Checked Method.set_latency_range m args =
      latency_lem L Q Method.set_latency_range port m args _
        (λ p s. protect_lem L Q _ _ s (λ a t. refl))
  call-Checked Method.wakeup_latency_callbacks m args =
      self_lem L Q Method.wakeup_latency_callbacks port m args _
        (λ p s. protect_lem L Q _ _ s (λ a t. refl))
  call-Checked Method.wakeup_sig_latency_callback m args =
      self_lem L Q Method.wakeup_sig_latency_callback port m args _
        (λ p s. protect_lem L Q _ _ s (λ a t. refl))
  call-Checked Method.init_capture_latency_listener m args =
      self_lem L Q Method.init_capture_latency_listener port m args _
        (λ p s. protect_lem L Q _ _ s (λ a t. refl))
  call-Checked Method.init_playback_latency_listener m args =
      self_lem L Q Method.init_playback_latency_listener port m args _
        (λ p s. protect_lem L Q _ _ s (λ a t. refl))
  call-Checked Method.init_latency_listener m args =
      self_lem L Q Method.init_latency_listener port m args _
        (λ p s. protect_lem L Q _ _ s (λ a t. refl))
  call-Checked Method.new_port m args =
      nothing_lem L Q Method.new_port m args _ (λ s. protect_lem L Q _ _ s (λ a t. refl))
  call-Checked Method.get_type m args =
      self_lem L Q Method.get_type event m args _ (λ p s. protect_lem L Q _ _ s (λ a t. refl))
  call-Checked Method.get_data m args =
      self_lem L Q Method.get_data event m args _ (λ p s. protect_lem L Q _ _ s (λ a t. refl))
  call-Checked Method.complete m args =
      self_lem L Q Method.complete event m args _ (λ p s. protect_lem L Q _ _ s (λ a t. refl))
  call-Checked Method.get_session_event_type m args =
      self_lem L Q Method.get_session_event_type event m args _
        (λ p s. protect_lem L Q _ _ s (λ a t. refl))
  call-Checked Method.get_session_dir m args =
      self_lem L Q Method.get_session_dir event m args _
        (λ p s. protect_lem L Q _ _ s (λ a t. push_string_lem L Q a t))
  call-Checked Method.set_session_dir m args =
      self_text_lem L Q Method.set_session_dir event m args _
        (λ p q s. protect_lem L Q _ _ s (λ a t. refl))
  call-Checked Method.get_client_uuid m args =
      self_lem L Q Method.get_client_uuid event m args _
        (λ p s. protect_lem L Q _ _ s (λ a t. push_string_lem L Q a t))
  call-Checked Method.set_client_uuid m args =
      self_text_lem L Q Method.set_client_uuid event m args _
        (λ p q s. protect_lem L Q _ _ s (λ a t. refl))
  call-Checked Method.get_command_line m args =
      self_lem L Q Method.get_command_line event m args _
        (λ p s. protect_lem L Q _ _ s (λ a t. push_copy_lem L Q a t))
  call-Checked Method.set_command_line m args =
      self_text_lem L Q Method.set_command_line event m args _
        (λ p q s. protect_lem L Q _ _ s (λ a t. refl))
  call-Checked Method.get_session_event_flags m args =
      self_lem L Q Method.get_session_event_flags event m args _
        (λ p s. protect_lem L Q _ _ s (λ a t. refl))
  call-Checked Method.set_session_event_flags m args =
      self_enum_lem L Q Method.set_session_event_flags event m args _
        (λ p s. protect_lem L Q _ _ s (λ a t. refl))
  call-Checked Method.new_event m args =
      nothing_lem L Q Method.new_event m args _ (λ s. protect_lem L Q _ _ s (λ a t. refl))
  call-Checked Method.new_client m args =
      open_lem L Q Method.new_client m args _ (λ p q s. protect_lem L Q _ _ s (λ a t. refl))
  call-Checked Method.get_port_names_by_type m args =
      names_lem L Q Method.get_port_names_by_type client m args _
        (λ p q r s. protect_lem L Q _ _ s (λ a t. refl))
  call-Checked Method.get_port_names m args =
      self_text_lem L Q Method.get_port_names client m args _
        (λ p q s. protect_lem L Q _ _ s (λ a t. refl))
  call-Checked Method.get_port m args =
      self_text_lem L Q Method.get_port client m args _
        (λ p q s. protect_lem L Q _ _ s (λ a t. refl))
  call-Checked Method.register_port m args =
      register_lem L Q Method.register_port client m args _
        (λ p q s. protect_lem L Q _ _ s (λ a t. refl))
  call-Checked Method.get_event m args =
      self_long_lem L Q Method.get_event client m args _
        (λ p s. protect_lem L Q _ _ s (λ a t. refl))
  call-Checked Method.get_sample_rate m args =
      self_lem L Q Method.get_sample_rate client m args _
        (λ p s. protect_lem L Q _ _ s (λ a t. refl))
  call-Checked Method.activate m args =
      self_lem L Q Method.activate client m args _ (λ p s. protect_lem L Q _ _ s (λ a t. refl))
  call-Checked Method.client_name m args =
      self_lem L Q Method.client_name client m args _ (λ p s. protect_lem L Q _ _ s (λ a t. refl))
  call-Checked Method.get_transport_state m args =
      self_lem L Q Method.get_transport_state client m args _
        (λ p s. protect_lem L Q _ _ s (λ a t. refl))
  call-Checked Method.recompute_latencies m args =
      self_lem L Q Method.recompute_latencies client m args _
        (λ p s. protect_lem L Q _ _ s (λ a t. refl))
