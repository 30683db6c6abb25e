-- ===== src/Lua/Values.antt =====
-- modules/lua/Jacks_lua_wrap.c: what the wrappers see of Lua.
use jacks.Prelude.{
  ℕ, zero, suc, ◌-◌, ◌%◌, ◌^◌, Bool, true, false, ◌||◌, if◌then◌else◌, List, [], ◌∷◌, Option, none,
  some, ℤ, pos, negsuc, ◌==◌, ltb,
}
use jacks.Memory.{Ptr}

-- The types of pointers, `SWIGTYPE_p_…`. No type can be cast to another.
pub data Class : Type 0 where
  port_buffer latency_range string_list port event client float_array void_object : Class

abbrev pub class_code : Class → ℕ
class_code port_buffer = 0
class_code latency_range = 1
class_code string_list = 2
class_code port = 3
class_code event = 4
class_code client = 5
class_code float_array = 6
class_code void_object = 7

abbrev pub same_class : Class → Class → Bool
same_class a b = class_code a == class_code b

-- Lua's numbers, doubles: how a text reads as one and one prints as a text, and the conversions
-- that C casts make.
pub record LuaLib : Type 1 where
  pub Number : Type 0
  pub parse : List ℕ → Option Number
  pub print : Number → List ℕ
  pub of_int : ℤ → Number
  pub to_int : Number → ℤ
  pub to_long : Number → ℤ
  pub to_unsigned : Number → ℕ
  pub to_unsigned_long : Number → ℕ
  pub non_negative : Number → Bool

-- A Lua value: `userdata` is a `swig_lua_userdata`, with its type, its pointer, which is not NULL,
-- and `own`; `other` is a table, a function or a thread.
pub data Value (N : Type 0) : Type 0 where
  nil : Value N
  boolean : Bool → Value N
  number : N → Value N
  text : List ℕ → Value N
  userdata : Class → ℕ → Bool → Value N
  other : Value N

-- The casts between int and unsigned int.
abbrev pub unsigned_of : ℤ → ℕ
unsigned_of (pos n) = n % 2 ^ 32
unsigned_of (negsuc n) = 2 ^ 32 - 1 - n % 2 ^ 32

abbrev pub int_of : ℕ → ℤ
int_of n = if ltb (n % 2 ^ 32) (2 ^ 31) then pos (n % 2 ^ 32) else negsuc (2 ^ 32 - 1 - n % 2 ^ 32)

abbrev pub is_some {ℓ} : {A : Type ℓ} → Option A → Bool
is_some none = false
is_some (some a) = true

-- What a C reader of a string sees: the bytes before the first NUL.
abbrev pub before_nul : List ℕ → List ℕ
before_nul [] = []
before_nul (zero ∷ bs) = []
before_nul (suc b ∷ bs) = suc b ∷ before_nul bs

module _ {N : Type 0} where
  abbrev pub is_userdata : Value N → Bool
  is_userdata (userdata c p own) = true
  is_userdata _ = false

  abbrev pub is_nil : Value N → Bool
  is_nil nil = true
  is_nil _ = false

  -- `SWIG_isptrtype`
  abbrev pub is_ptr_type : Value N → Bool
  is_ptr_type v = is_userdata v || is_nil v

  -- `lua_isstring`: numbers count as strings.
  abbrev pub is_string : Value N → Bool
  is_string (text t) = true
  is_string (number n) = true
  is_string _ = false

  -- `SWIG_lua_isnilstring`
  abbrev pub is_nil_string : Value N → Bool
  is_nil_string v = is_string v || is_nil v

  -- `SWIG_Lua_NewPointerObj`: NULL becomes nil.
  abbrev pub new_pointer : Ptr → Class → Bool → Value N
  new_pointer none c own = nil
  new_pointer (some p) c own = userdata c p own

  -- `SWIG_Lua_ConvertPtr`, with `flags` 0: `none` is `SWIG_ERROR`.
  unfoldable pub swig_convert_ptr : Value N → Class → Option Ptr
  swig_convert_ptr nil c = some none
  swig_convert_ptr (userdata d p own) c = elim (same_class d c) [
    | true ↦ some (some p)
    | false ↦ none
  ]
  swig_convert_ptr _ c = none

module _ (Q : LuaLib) where
  -- `lua_isnumber`: so does a string that reads as a number.
  abbrev pub is_number : Value Q.Number → Bool
  is_number (number n) = true
  is_number (text t) = is_some (Q.parse t)
  is_number _ = false

  -- `lua_tonumber`
  abbrev pub to_number : Value Q.Number → Q.Number
  to_number (number n) = n
  to_number (text t) = elim (Q.parse t) [ none ↦ Q.of_int (pos 0) | some n ↦ n ]
  to_number _ = Q.of_int (pos 0)

  -- `lua_tostring`, `none` for NULL.
  abbrev pub to_text : Value Q.Number → Option (List ℕ)
  to_text (text t) = some (before_nul t)
  to_text (number n) = some (Q.print n)
  to_text _ = none

-- The C types of the parameters, as the wrappers name them.
pub data Param : Type 0 where
  pointer : Class → Param
  int_param long_param unsigned_int unsigned_long float_param enum_param string_param char_param :
      Param

-- The wrapped functions.
pub data Method : Type 0 where
  getf setf buffer_length to_hex_string new_buffer : Method
  range_min range_max new_range : Method
  list_get list_length new_list : Method
  get_buffer port_name connect get_latency_range set_latency_range wakeup_latency_callbacks : Method
  wakeup_sig_latency_callback init_capture_latency_listener init_playback_latency_listener : Method
  init_latency_listener new_port : Method
  get_type get_data complete get_session_event_type get_session_dir set_session_dir : Method
  get_client_uuid set_client_uuid get_command_line set_command_line get_session_event_flags : Method
  set_session_event_flags new_event : Method
  new_client get_port_names_by_type get_port_names get_port register_port get_event : Method
  get_sample_rate activate client_name get_transport_state recompute_latencies : Method

-- The errors that reach the script: a wrong number of arguments, with the bounds and the number; an
-- argument of the wrong type, with its place and the expected type; "number must not be negative";
-- Lua's own error for a method that a class does not have; and a message that a C function threw, as
-- the bytes of the buffer. `luaL_error` takes it for a format, which says the same as long as it has
-- no `%`, and puts the script's position before it.
pub data LuaError : Type 0 where
  wrong_count : Method → ℕ → ℕ → ℕ → LuaError
  wrong_type : Method → ℕ → Param → LuaError
  negative_number : LuaError
  no_method : LuaError
  thrown : List ℕ → LuaError
