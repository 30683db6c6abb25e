-- ===== src/Lua/Signatures.antt =====
-- modules/lua/Jacks_lua_wrap.c: what each function accepts, apart from its code.
use jacks.Prelude.{Bool, true, false, ◌&&◌, ◌||◌, List, [], ◌∷◌}
use jacks.Lua.Values.{
  Class, port_buffer, latency_range, string_list, port, event, client, same_class, LuaLib, Value,
  nil, userdata, is_number, is_string, is_nil, to_number, Param, pointer, int_param, long_param,
  unsigned_int, unsigned_long, float_param, enum_param, string_param, char_param, Method,
}

-- The parameters, as the functions are declared.
unfoldable pub signature : Method → List Param
signature Method.getf = pointer port_buffer ∷ unsigned_int ∷ []
signature Method.setf = pointer port_buffer ∷ unsigned_int ∷ float_param ∷ []
signature Method.buffer_length = pointer port_buffer ∷ []
signature Method.to_hex_string = pointer port_buffer ∷ unsigned_int ∷ unsigned_int ∷ char_param ∷ []
signature Method.new_buffer = []
signature Method.range_min = pointer latency_range ∷ []
signature Method.range_max = pointer latency_range ∷ []
signature Method.new_range = []
signature Method.list_get = pointer string_list ∷ int_param ∷ []
signature Method.list_length = pointer string_list ∷ []
signature Method.new_list = []
signature Method.get_buffer = pointer port ∷ []
signature Method.port_name = pointer port ∷ []
signature Method.connect = pointer port ∷ pointer port ∷ []
signature Method.get_latency_range = pointer port ∷ enum_param ∷ []
signature Method.set_latency_range = pointer port ∷ enum_param ∷ int_param ∷ int_param ∷ []
signature Method.wakeup_latency_callbacks = pointer port ∷ []
signature Method.wakeup_sig_latency_callback = pointer port ∷ []
signature Method.init_capture_latency_listener = pointer port ∷ []
signature Method.init_playback_latency_listener = pointer port ∷ []
signature Method.init_latency_listener = pointer port ∷ []
signature Method.new_port = []
signature Method.get_type = pointer event ∷ []
signature Method.get_data = pointer event ∷ []
signature Method.complete = pointer event ∷ []
signature Method.get_session_event_type = pointer event ∷ []
signature Method.get_session_dir = pointer event ∷ []
signature Method.set_session_dir = pointer event ∷ string_param ∷ []
signature Method.get_client_uuid = pointer event ∷ []
signature Method.set_client_uuid = pointer event ∷ string_param ∷ []
signature Method.get_command_line = pointer event ∷ []
signature Method.set_command_line = pointer event ∷ string_param ∷ []
signature Method.get_session_event_flags = pointer event ∷ []
signature Method.set_session_event_flags = pointer event ∷ enum_param ∷ []
signature Method.new_event = []
signature Method.new_client = string_param ∷ string_param ∷ enum_param ∷ unsigned_int ∷ []
signature Method.get_port_names_by_type =
    pointer client ∷ string_param ∷ string_param ∷ enum_param ∷ []
signature Method.get_port_names = pointer client ∷ string_param ∷ []
signature Method.get_port = pointer client ∷ string_param ∷ []
signature Method.register_port = pointer client ∷ string_param ∷ unsigned_long ∷ []
signature Method.get_event = pointer client ∷ long_param ∷ []
signature Method.get_sample_rate = pointer client ∷ []
signature Method.activate = pointer client ∷ []
signature Method.client_name = pointer client ∷ []
signature Method.get_transport_state = pointer client ∷ []
signature Method.recompute_latencies = pointer client ∷ []

-- A pointer may be nil, and otherwise has the type of its parameter.
abbrev pub accepts_pointer : {N : Type 0} → Class → Value N → Bool
accepts_pointer c nil = true
accepts_pointer c (userdata d p own) = same_class d c
accepts_pointer c _ = false

module _ (Q : LuaLib) where
  -- A number is a number or reads as one, and is not negative where its type is unsigned; a string
  -- is a string, a number or nil.
  abbrev pub accepts : Param → Value Q.Number → Bool
  accepts (pointer c) v = accepts_pointer c v
  accepts unsigned_int v = is_number Q v && Q.non_negative (to_number Q v)
  accepts unsigned_long v = is_number Q v && Q.non_negative (to_number Q v)
  accepts string_param v = is_string v || is_nil v
  accepts char_param v = is_string v || is_nil v
  accepts _ v = is_number Q v

  -- The arguments fit: as many as the parameters, each as its parameter accepts.
  unfoldable pub fits : List Param → List (Value Q.Number) → Bool
  fits [] [] = true
  fits (p ∷ ps) (v ∷ vs) = accepts p v && fits ps vs
  fits _ _ = false
