-- ===== src/Python/Typing.antt =====
-- modules/python3/Jacks_python3_wrap.c: a call is refused if and only if its arguments do not fit.
pub mod Outcomes
mod Fits
mod Steps
mod Texts
mod Numbers
mod Ends
mod Shapes
use jacks.Prelude.{ℕ, ◌≡◌, true, ◌⊎◌, refl, List, [], ◌∷◌, length}
use jacks.Libraries.{Libs}
use jacks.Lua.Values.{
  Method, pointer, port_buffer, latency_range, string_list, port, event, client, int_param,
  enum_param, long_param, unsigned_int, unsigned_long, float_param, char_param, string_param,
}
use jacks.Lua.Machine.{Env}
use jacks.Lua.Signatures.{signature}
use jacks.Python.Values.{PyLib, PyValue, method, Process}
use jacks.Python.Checks.{obj, from_int}
use jacks.Python.Dispatch.{py_call}
use jacks.Python.Signatures.{any_huge, py_fits, py_taken}
use jacks.Python.Typing.Outcomes.{PyChecked}
use jacks.Python.Typing.Fits.{
  taken_cases, py_taken_none, py_taken_one, py_taken_two, py_taken_three, py_taken_four,
}
use jacks.Python.Typing.Steps.{count_lem, checked_lem, pointer_lem}
use jacks.Python.Typing.Texts.{text_lem}
use jacks.Python.Typing.Shapes.{nothing_lem, self_lem, self_text_lem}
use jacks.Python.Typing.Numbers.{
  char_lem, verdict-int, verdict-enum, verdict-long, verdict-unsigned_int, verdict-unsigned_long,
  verdict-float,
}
use jacks.Python.Typing.Ends.{
  protect_lem, from_pointer_lem, from_text_lem, from_copy_lem, from_char_ptr_lem,
}
use jacks.Python.Wrappers.Buffers.{
  py_wrap_js_port_buffer_getf, py_wrap_js_port_buffer_setf, py_wrap_js_port_buffer_length,
  py_wrap_js_port_buffer_to_hex_string, py_wrap_new_js_port_buffer, py_wrap_js_latency_range_min,
  py_wrap_js_latency_range_max, py_wrap_new_js_latency_range, py_wrap_string_list_get,
  py_wrap_string_list_length, py_wrap_new_string_list,
}
use jacks.Python.Wrappers.Ports.{
  py_wrap_js_port_get_buffer, py_wrap_js_port_name, py_wrap_js_port_connect,
  py_wrap_js_port_get_latency_range, py_wrap_js_port_set_latency_range,
  py_wrap_js_port_wakeup_latency_callbacks, py_wrap_js_port_wakeup_sig_latency_callback,
  py_wrap_js_port_init_capture_latency_listener, py_wrap_js_port_init_playback_latency_listener,
  py_wrap_js_port_init_latency_listener, py_wrap_new_js_port,
}
use jacks.Python.Wrappers.Events.{
  py_wrap_js_event_get_type, py_wrap_js_event_get_data, py_wrap_js_event_complete,
  py_wrap_js_event_get_session_event_type, py_wrap_js_event_get_session_dir,
  py_wrap_js_event_set_session_dir, py_wrap_js_event_get_client_uuid,
  py_wrap_js_event_set_client_uuid, py_wrap_js_event_get_command_line,
  py_wrap_js_event_set_command_line, py_wrap_js_event_get_session_event_flags,
  py_wrap_js_event_set_session_event_flags, py_wrap_new_js_event,
}
use jacks.Python.Wrappers.Clients.{
  py_wrap_new_js_client, py_wrap_js_client_get_port_names_by_type, py_wrap_js_client_get_port_names,
  py_wrap_js_client_get_port, py_wrap_js_client_register_port, py_wrap_js_client_get_event,
  py_wrap_js_client_get_sample_rate, py_wrap_js_client_activate, py_wrap_js_client_get_name,
  py_wrap_js_client_get_transport_state, py_wrap_js_client_recompute_latencies,
}

module _ (L : Libs) (Y : PyLib) (E : Env L) where
  -- What the wrappers take and what they refuse.
  py_call-taken :
      (d : Method) (s : Process L) (args : List (PyValue Y))
      → PyChecked L Y args s (py_taken Y (signature d) args) (py_call L Y E d args s)
  unfolding py_call signature from_int py_wrap_js_port_buffer_getf py_wrap_js_port_buffer_setf
      py_wrap_js_port_buffer_length py_wrap_js_port_buffer_to_hex_string py_wrap_new_js_port_buffer
      py_wrap_js_latency_range_min py_wrap_js_latency_range_max py_wrap_new_js_latency_range
      py_wrap_string_list_get py_wrap_string_list_length py_wrap_new_string_list
      py_wrap_js_port_get_buffer py_wrap_js_port_name py_wrap_js_port_connect
      py_wrap_js_port_get_latency_range py_wrap_js_port_set_latency_range
      py_wrap_js_port_wakeup_latency_callbacks py_wrap_js_port_wakeup_sig_latency_callback
      py_wrap_js_port_init_capture_latency_listener py_wrap_js_port_init_playback_latency_listener
      py_wrap_js_port_init_latency_listener py_wrap_new_js_port py_wrap_js_event_get_type
      py_wrap_js_event_get_data py_wrap_js_event_complete py_wrap_js_event_get_session_event_type
      py_wrap_js_event_get_session_dir py_wrap_js_event_set_session_dir
      py_wrap_js_event_get_client_uuid py_wrap_js_event_set_client_uuid
      py_wrap_js_event_get_command_line py_wrap_js_event_set_command_line
      py_wrap_js_event_get_session_event_flags py_wrap_js_event_set_session_event_flags
      py_wrap_new_js_event py_wrap_new_js_client py_wrap_js_client_get_port_names_by_type
      py_wrap_js_client_get_port_names py_wrap_js_client_get_port py_wrap_js_client_register_port
      py_wrap_js_client_get_event py_wrap_js_client_get_sample_rate py_wrap_js_client_activate
      py_wrap_js_client_get_name py_wrap_js_client_get_transport_state
      py_wrap_js_client_recompute_latencies
  py_call-taken Method.getf s0 args =
      count_lem L Y args (method Method.getf) 2 (signature Method.getf) s0 _ refl (λ e.
        rw (py_taken_two Y (pointer port_buffer) unsigned_int args e) (
          pointer_lem L Y args (method Method.getf) 1 port_buffer _ s0 _ (λ a1 s1.
            checked_lem L Y args (method Method.getf) 2 unsigned_int _ _ _ s1 _
              (verdict-unsigned_int Y (obj args 2))
              (λ a2 s2. protect_lem L Y args _ _ s2 (λ a n. from_pointer_lem L Y _ _ _ n)))))
  py_call-taken Method.setf s0 args =
      count_lem L Y args (method Method.setf) 3 (signature Method.setf) s0 _ refl (λ e.
        rw (py_taken_three Y (pointer port_buffer) unsigned_int float_param args e) (
          pointer_lem L Y args (method Method.setf) 1 port_buffer _ s0 _ (λ a1 s1.
            checked_lem L Y args (method Method.setf) 2 unsigned_int _ _ _ s1 _
              (verdict-unsigned_int Y (obj args 2))
              (λ a2 s2.
                checked_lem L Y args (method Method.setf) 3 float_param _ _ _ s2 _
                  (verdict-float Y (obj args 3))
                  (λ a3 s3. protect_lem L Y args _ _ s3 (λ a n. refl))))))
  py_call-taken Method.buffer_length s args =
      self_lem L Y Method.buffer_length port_buffer s args _
        (λ p s. protect_lem L Y args _ _ s (λ a n. refl))
  py_call-taken Method.to_hex_string s0 args =
      count_lem L Y args (method Method.to_hex_string) 4 (signature Method.to_hex_string) s0 _ refl
        (λ e.
          rw (py_taken_four Y (pointer port_buffer) unsigned_int unsigned_int char_param args e) (
            pointer_lem L Y args (method Method.to_hex_string) 1 port_buffer _ s0 _ (λ a1 s1.
              checked_lem L Y args (method Method.to_hex_string) 2 unsigned_int _ _ _ s1 _
                (verdict-unsigned_int Y (obj args 2))
                (λ a2 s2.
                  checked_lem L Y args (method Method.to_hex_string) 3 unsigned_int _ _ _ s2 _
                    (verdict-unsigned_int Y (obj args 3))
                    (λ a3 s3.
                      char_lem L Y args (method Method.to_hex_string) 4 _ s3 _
                        (λ a4 s4. protect_lem L Y args _ _ s4 (λ a n. from_text_lem L Y _ n)))))))
  py_call-taken Method.new_buffer s args =
      nothing_lem L Y Method.new_buffer s args _
        (protect_lem L Y args _ _ s (λ a n. from_pointer_lem L Y _ _ _ n))
  py_call-taken Method.range_min s args =
      self_lem L Y Method.range_min latency_range s args _
        (λ p s. protect_lem L Y args _ _ s (λ a n. refl))
  py_call-taken Method.range_max s args =
      self_lem L Y Method.range_max latency_range s args _
        (λ p s. protect_lem L Y args _ _ s (λ a n. refl))
  py_call-taken Method.new_range s args =
      nothing_lem L Y Method.new_range s args _
        (protect_lem L Y args _ _ s (λ a n. from_pointer_lem L Y _ _ _ n))
  py_call-taken Method.list_get s0 args =
      count_lem L Y args (method Method.list_get) 2 (signature Method.list_get) s0 _ refl (λ e.
        rw (py_taken_two Y (pointer string_list) int_param args e) (
          pointer_lem L Y args (method Method.list_get) 1 string_list _ s0 _ (λ a1 s1.
            checked_lem L Y args (method Method.list_get) 2 int_param _ _ _ s1 _
              (verdict-int Y (obj args 2))
              (λ a2 s2. protect_lem L Y args _ _ s2 (λ a n. from_char_ptr_lem L Y _ n)))))
  py_call-taken Method.list_length s args =
      self_lem L Y Method.list_length string_list s args _
        (λ p s. protect_lem L Y args _ _ s (λ a n. refl))
  py_call-taken Method.new_list s args =
      nothing_lem L Y Method.new_list s args _
        (protect_lem L Y args _ _ s (λ a n. from_pointer_lem L Y _ _ _ n))
  py_call-taken Method.get_buffer s args =
      self_lem L Y Method.get_buffer port s args _
        (λ p s. protect_lem L Y args _ _ s (λ a n. from_pointer_lem L Y _ _ _ n))
  py_call-taken Method.port_name s args =
      self_lem L Y Method.port_name port s args _
        (λ p s. protect_lem L Y args _ _ s (λ a n. from_text_lem L Y _ n))
  py_call-taken Method.connect s0 args =
      count_lem L Y args (method Method.connect) 2 (signature Method.connect) s0 _ refl (λ e.
        rw (py_taken_two Y (pointer port) (pointer port) args e) (
          pointer_lem L Y args (method Method.connect) 1 port _ s0 _ (λ a1 s1.
            pointer_lem L Y args (method Method.connect) 2 port _ s1 _
              (λ a2 s2. protect_lem L Y args _ _ s2 (λ a n. refl)))))
  py_call-taken Method.get_latency_range s0 args =
      count_lem L Y args (method Method.get_latency_range) 2 (signature Method.get_latency_range) s0
        _ refl
        (λ e. rw (py_taken_two Y (pointer port) enum_param args e) (
          pointer_lem L Y args (method Method.get_latency_range) 1 port _ s0 _ (λ a1 s1.
            checked_lem L Y args (method Method.get_latency_range) 2 enum_param _ _ _ s1 _
              (verdict-enum Y (obj args 2))
              (λ a2 s2. protect_lem L Y args _ _ s2 (λ a n. from_pointer_lem L Y _ _ _ n)))))
  py_call-taken Method.set_latency_range s0 args =
      count_lem L Y args (method Method.set_latency_range) 4 (signature Method.set_latency_range) s0
        _ refl
        (λ e. rw (py_taken_four Y (pointer port) enum_param int_param int_param args e) (
          pointer_lem L Y args (method Method.set_latency_range) 1 port _ s0 _ (λ a1 s1.
            checked_lem L Y args (method Method.set_latency_range) 2 enum_param _ _ _ s1 _
              (verdict-enum Y (obj args 2))
              (λ a2 s2.
                checked_lem L Y args (method Method.set_latency_range) 3 int_param _ _ _ s2 _
                  (verdict-int Y (obj args 3))
                  (λ a3 s3.
                    checked_lem L Y args (method Method.set_latency_range) 4 int_param _ _ _ s3 _
                      (verdict-int Y (obj args 4))
                      (λ a4 s4. protect_lem L Y args _ _ s4 (λ a n. refl)))))))
  py_call-taken Method.wakeup_latency_callbacks s args =
      self_lem L Y Method.wakeup_latency_callbacks port s args _
        (λ p s. protect_lem L Y args _ _ s (λ a n. refl))
  py_call-taken Method.wakeup_sig_latency_callback s args =
      self_lem L Y Method.wakeup_sig_latency_callback port s args _
        (λ p s. protect_lem L Y args _ _ s (λ a n. refl))
  py_call-taken Method.init_capture_latency_listener s args =
      self_lem L Y Method.init_capture_latency_listener port s args _
        (λ p s. protect_lem L Y args _ _ s (λ a n. refl))
  py_call-taken Method.init_playback_latency_listener s args =
      self_lem L Y Method.init_playback_latency_listener port s args _
        (λ p s. protect_lem L Y args _ _ s (λ a n. refl))
  py_call-taken Method.init_latency_listener s args =
      self_lem L Y Method.init_latency_listener port s args _
        (λ p s. protect_lem L Y args _ _ s (λ a n. refl))
  py_call-taken Method.new_port s args =
      nothing_lem L Y Method.new_port s args _
        (protect_lem L Y args _ _ s (λ a n. from_pointer_lem L Y _ _ _ n))
  py_call-taken Method.get_type s args =
      self_lem L Y Method.get_type event s args _ (λ p s. protect_lem L Y args _ _ s (λ a n. refl))
  py_call-taken Method.get_data s args =
      self_lem L Y Method.get_data event s args _
        (λ p s. protect_lem L Y args _ _ s (λ a n. from_pointer_lem L Y _ _ _ n))
  py_call-taken Method.complete s args =
      self_lem L Y Method.complete event s args _ (λ p s. protect_lem L Y args _ _ s (λ a n. refl))
  py_call-taken Method.get_session_event_type s args =
      self_lem L Y Method.get_session_event_type event s args _
        (λ p s. protect_lem L Y args _ _ s (λ a n. refl))
  py_call-taken Method.get_session_dir s args =
      self_lem L Y Method.get_session_dir event s args _
        (λ p s. protect_lem L Y args _ _ s (λ a n. from_char_ptr_lem L Y _ n))
  py_call-taken Method.set_session_dir s args =
      self_text_lem L Y Method.set_session_dir event s args _
        (λ p q s. protect_lem L Y args _ _ s (λ a n. refl))
  py_call-taken Method.get_client_uuid s args =
      self_lem L Y Method.get_client_uuid event s args _
        (λ p s. protect_lem L Y args _ _ s (λ a n. from_char_ptr_lem L Y _ n))
  py_call-taken Method.set_client_uuid s args =
      self_text_lem L Y Method.set_client_uuid event s args _
        (λ p q s. protect_lem L Y args _ _ s (λ a n. refl))
  py_call-taken Method.get_command_line s args =
      self_lem L Y Method.get_command_line event s args _
        (λ p s. protect_lem L Y args _ _ s (λ a n. from_copy_lem L Y _ n))
  py_call-taken Method.set_command_line s args =
      self_text_lem L Y Method.set_command_line event s args _
        (λ p q s. protect_lem L Y args _ _ s (λ a n. refl))
  py_call-taken Method.get_session_event_flags s args =
      self_lem L Y Method.get_session_event_flags event s args _
        (λ p s. protect_lem L Y args _ _ s (λ a n. refl))
  py_call-taken Method.set_session_event_flags s0 args =
      count_lem L Y args (method Method.set_session_event_flags) 2
        (signature Method.set_session_event_flags) s0 _ refl
        (λ e. rw (py_taken_two Y (pointer event) enum_param args e) (
          pointer_lem L Y args (method Method.set_session_event_flags) 1 event _ s0 _ (λ a1 s1.
            checked_lem L Y args (method Method.set_session_event_flags) 2 enum_param _ _ _ s1 _
              (verdict-enum Y (obj args 2)) (λ a2 s2. protect_lem L Y args _ _ s2 (λ a n. refl)))))
  py_call-taken Method.new_event s args =
      nothing_lem L Y Method.new_event s args _
        (protect_lem L Y args _ _ s (λ a n. from_pointer_lem L Y _ _ _ n))
  py_call-taken Method.new_client s0 args =
      count_lem L Y args (method Method.new_client) 4 (signature Method.new_client) s0 _ refl (λ e.
        rw (py_taken_four Y string_param string_param enum_param unsigned_int args e) (
          text_lem L Y args (method Method.new_client) 1 _ s0 _ (λ a1 s1.
            text_lem L Y args (method Method.new_client) 2 _ s1 _ (λ a2 s2.
              checked_lem L Y args (method Method.new_client) 3 enum_param _ _ _ s2 _
                (verdict-enum Y (obj args 3))
                (λ a3 s3.
                  checked_lem L Y args (method Method.new_client) 4 unsigned_int _ _ _ s3 _
                    (verdict-unsigned_int Y (obj args 4))
                    (λ a4 s4.
                      protect_lem L Y args _ _ s4 (λ a n. from_pointer_lem L Y _ _ _ n)))))))
  py_call-taken Method.get_port_names_by_type s0 args =
      count_lem L Y args (method Method.get_port_names_by_type) 4
        (signature Method.get_port_names_by_type) s0 _ refl
        (λ e. rw (py_taken_four Y (pointer client) string_param string_param enum_param args e) (
          pointer_lem L Y args (method Method.get_port_names_by_type) 1 client _ s0 _ (λ a1 s1.
            text_lem L Y args (method Method.get_port_names_by_type) 2 _ s1 _ (λ a2 s2.
              text_lem L Y args (method Method.get_port_names_by_type) 3 _ s2 _ (λ a3 s3.
                checked_lem L Y args (method Method.get_port_names_by_type) 4 enum_param _ _ _ s3 _
                  (verdict-enum Y (obj args 4))
                  (λ a4 s4. protect_lem L Y args _ _ s4 (λ a n. from_pointer_lem L Y _ _ _ n)))))))
  py_call-taken Method.get_port_names s args =
      self_text_lem L Y Method.get_port_names client s args _
        (λ p q s. protect_lem L Y args _ _ s (λ a n. from_pointer_lem L Y _ _ _ n))
  py_call-taken Method.get_port s args =
      self_text_lem L Y Method.get_port client s args _
        (λ p q s. protect_lem L Y args _ _ s (λ a n. from_pointer_lem L Y _ _ _ n))
  py_call-taken Method.register_port s0 args =
      count_lem L Y args (method Method.register_port) 3 (signature Method.register_port) s0 _ refl
        (λ e. rw (py_taken_three Y (pointer client) string_param unsigned_long args e) (
          pointer_lem L Y args (method Method.register_port) 1 client _ s0 _ (λ a1 s1.
            text_lem L Y args (method Method.register_port) 2 _ s1 _ (λ a2 s2.
              checked_lem L Y args (method Method.register_port) 3 unsigned_long _ _ _ s2 _
                (verdict-unsigned_long Y (obj args 3))
                (λ a3 s3. protect_lem L Y args _ _ s3 (λ a n. from_pointer_lem L Y _ _ _ n))))))
  py_call-taken Method.get_event s0 args =
      count_lem L Y args (method Method.get_event) 2 (signature Method.get_event) s0 _ refl (λ e.
        rw (py_taken_two Y (pointer client) long_param args e) (
          pointer_lem L Y args (method Method.get_event) 1 client _ s0 _ (λ a1 s1.
            checked_lem L Y args (method Method.get_event) 2 long_param _ _ _ s1 _
              (verdict-long Y (obj args 2))
              (λ a2 s2. protect_lem L Y args _ _ s2 (λ a n. from_pointer_lem L Y _ _ _ n)))))
  py_call-taken Method.get_sample_rate s args =
      self_lem L Y Method.get_sample_rate client s args _
        (λ p s. protect_lem L Y args _ _ s (λ a n. refl))
  py_call-taken Method.activate s args =
      self_lem L Y Method.activate client s args _ (λ p s. protect_lem L Y args _ _ s (λ a n. refl))
  py_call-taken Method.client_name s args =
      self_lem L Y Method.client_name client s args _
        (λ p s. protect_lem L Y args _ _ s (λ a n. from_text_lem L Y _ n))
  py_call-taken Method.get_transport_state s args =
      self_lem L Y Method.get_transport_state client s args _
        (λ p s. protect_lem L Y args _ _ s (λ a n. refl))
  py_call-taken Method.recompute_latencies s args =
      self_lem L Y Method.recompute_latencies client s args _
        (λ p s. protect_lem L Y args _ _ s (λ a n. refl))

  -- Every call from Python of every function that is no destructor, whatever the arguments and the
  -- memory: if the wrapper does not take the arguments, the call raises an error of the arguments,
  -- frees each copy of a text that it had made, and changes nothing else but Python's error
  -- indicator; if it takes them, it raises no such error. In either case the process may end instead,
  -- on a text among the arguments that has no UTF-8. What the wrapper takes is what fits the
  -- function's parameters, in number, type and range, unless one of the arguments is an int beyond 64
  -- bits.
  pub py_call-PyChecked :
      (d : Method) (s : Process L) (args : List (PyValue Y))
      → PyChecked L Y args s (py_taken Y (signature d) args) (py_call L Y E d args s)
        × ((py_taken Y (signature d) args ≡ py_fits Y (signature d) args)
            ⊎ (any_huge Y args ≡ true))
  py_call-PyChecked d s args = (py_call-taken d s args, taken_cases Y (signature d) args)
