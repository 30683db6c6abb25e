-- ===== src/Lua/Constants.antt =====
-- modules/lua/Jacks_lua_wrap.c and modules/jack_headers.h: the constants that scripts see.
use jacks.Prelude.{ℕ, ◌≡◌, refl, Bool, [], ◌∷◌, some, pos}
use jacks.Memory.Access.{IsAt}
use jacks.Libraries.{Libs}
use jacks.Exceptions.{clear_exception, check_exception}
use jacks.Event.{get_type}
use jacks.Client.State.{EventType, event_code, JsEvent}
use jacks.Lua.Values.{LuaLib, number, userdata, event, Method, swig_convert_ptr, int_of}
use jacks.Lua.Act.{ret}
use jacks.Lua.Machine.{Machine, Env, EventBox}
use jacks.Lua.Functions.Events.{js_event_get_type, event_of}
use jacks.Lua.Wrappers.Events.{wrap_js_event_get_type}
use jacks.Lua.Checks.{check_num_args, check_ptr_type, convert_ptr, protect, rethrow}
use jacks.Lua.Dispatch.{call}

-- The names in the module's table.
pub data Constant : Type 0 where
  process session error sample_rate_change shutdown : Constant
  transport_stopped transport_rolling transport_looping transport_starting : Constant
  port_is_input port_is_output port_is_physical port_can_monitor port_is_terminal : Constant
  null_option no_start_server use_exact_name server_name load_name load_init session_id : Constant
  session_save session_save_and_quit session_save_template : Constant
  session_save_error session_need_terminal : Constant
  capture_latency playback_latency : Constant

-- The enumerations, as they are declared again.
unfoldable pub constant_value : Constant → ℕ
constant_value process = 0
constant_value session = 1
constant_value error = 2
constant_value sample_rate_change = 3
constant_value shutdown = 4
constant_value transport_stopped = 0
constant_value transport_rolling = 1
constant_value transport_looping = 2
constant_value transport_starting = 3
constant_value port_is_input = 1
constant_value port_is_output = 2
constant_value port_is_physical = 4
constant_value port_can_monitor = 8
constant_value port_is_terminal = 16
constant_value null_option = 0
constant_value no_start_server = 1
constant_value use_exact_name = 2
constant_value server_name = 4
constant_value load_name = 8
constant_value load_init = 16
constant_value session_id = 32
constant_value session_save = 1
constant_value session_save_and_quit = 2
constant_value session_save_template = 3
constant_value session_save_error = 1
constant_value session_need_terminal = 2
constant_value capture_latency = 0
constant_value playback_latency = 1

-- The constant of a kind of event, by its name.
abbrev pub constant_of : EventType → Constant
constant_of EventType.process = process
constant_of EventType.session = session
constant_of EventType.err = error
constant_of EventType.sample_rate_change = sample_rate_change
constant_of EventType.shutdown = shutdown

codes_agree : (t : EventType) → int_of (event_code t) ≡ pos (constant_value (constant_of t))
unfolding constant_value
codes_agree EventType.process = refl
codes_agree EventType.session = refl
codes_agree EventType.err = refl
codes_agree EventType.sample_rate_change = refl
codes_agree EventType.shutdown = refl

module _ (L : Libs) (Q : LuaLib) (E : Env L) where
  -- On a script's event whose struct has one of the five types of corelib/JacksRbClient.h,
  -- `e:getType()` pushes the constant that modules/jack_headers.h declares again under the same
  -- name, and raises no error.
  pub get_type_lem :
      (m : Machine L) (p : ℕ) (own : Bool) (box : EventBox) (e : JsEvent) (t : EventType)
      → IsAt m.events (some p) box
      → IsAt m.objects.events box.impl e
      → e.etype ≡ event_code t
      → call L Q E Method.get_type (userdata event p own ∷ []) m
        ≡ ret
            (number (Q.of_int (pos (constant_value (constant_of t)))) ∷ [])
            (record m { errors = clear_exception m.errors })
  unfolding call wrap_js_event_get_type js_event_get_type event_of get_type check_num_args
      check_ptr_type convert_ptr swig_convert_ptr protect rethrow clear_exception check_exception
  get_type_lem m p own box e t h1 h2 h3 = rw (h1, h2, h3, codes_agree t) refl
