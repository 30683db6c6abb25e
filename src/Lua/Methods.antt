-- ===== src/Lua/Methods.antt =====
-- modules/lua/Jacks_lua_wrap.c: the methods of the classes, as a script names them.
use jacks.Prelude.{
  ℕ, ◌≡◌, refl, Bool, true, false, ◌&&◌, List, [], ◌∷◌, Option, none, some, ◌==◌, if◌then◌else◌,
  Bool-cases, inl, inr, arith,
}
use jacks.Libraries.{Libs}
use jacks.Lua.Values.{
  Class, port_buffer, latency_range, string_list, port, event, client, float_array, void_object,
  same_class, LuaLib, Value, userdata, Param, pointer, Method, no_method,
}
use jacks.Lua.Act.{raise}
use jacks.Lua.Machine.{Machine, Env}
use jacks.Lua.Checks.{Pushed}
use jacks.Lua.Dispatch.{call}
use jacks.Lua.Signatures.{signature, fits}
use jacks.Lua.Typing.{call-Checked}
use jacks.Lua.Typing.Outcomes.{Checked, refused}

abbrev pub Table : Type 0
Table = List (List ℕ × Method)

abbrev pub port_buffer_methods : Table
port_buffer_methods =
    (b'g' ∷ b'e' ∷ b't' ∷ b'f' ∷ [], Method.getf)
    ∷ (b's' ∷ b'e' ∷ b't' ∷ b'f' ∷ [], Method.setf)
    ∷ (b'l' ∷ b'e' ∷ b'n' ∷ b'g' ∷ b't' ∷ b'h' ∷ [], Method.buffer_length)
    ∷ (
      b't' ∷ b'o' ∷ b'H' ∷ b'e' ∷ b'x' ∷ b'S' ∷ b't' ∷ b'r' ∷ b'i' ∷ b'n' ∷ b'g' ∷ [],
      Method.to_hex_string,
    )
    ∷ []

abbrev pub latency_range_methods : Table
latency_range_methods =
    (b'm' ∷ b'i' ∷ b'n' ∷ [], Method.range_min) ∷ (b'm' ∷ b'a' ∷ b'x' ∷ [], Method.range_max) ∷ []

abbrev pub string_list_methods : Table
string_list_methods =
    (b'g' ∷ b'e' ∷ b't' ∷ [], Method.list_get)
    ∷ (b'l' ∷ b'e' ∷ b'n' ∷ b'g' ∷ b't' ∷ b'h' ∷ [], Method.list_length)
    ∷ []

abbrev pub port_methods : Table
port_methods =
    (b'g' ∷ b'e' ∷ b't' ∷ b'B' ∷ b'u' ∷ b'f' ∷ b'f' ∷ b'e' ∷ b'r' ∷ [], Method.get_buffer)
    ∷ (b'n' ∷ b'a' ∷ b'm' ∷ b'e' ∷ [], Method.port_name)
    ∷ (b'c' ∷ b'o' ∷ b'n' ∷ b'n' ∷ b'e' ∷ b'c' ∷ b't' ∷ [], Method.connect)
    ∷ (
      b'g' ∷ b'e' ∷ b't' ∷ b'L' ∷ b'a' ∷ b't' ∷ b'e' ∷ b'n' ∷ b'c' ∷ b'y' ∷ b'R' ∷ b'a' ∷ b'n'
          ∷ b'g' ∷ b'e' ∷ [],
      Method.get_latency_range,
    )
    ∷ (
      b's' ∷ b'e' ∷ b't' ∷ b'L' ∷ b'a' ∷ b't' ∷ b'e' ∷ b'n' ∷ b'c' ∷ b'y' ∷ b'R' ∷ b'a' ∷ b'n'
          ∷ b'g' ∷ b'e' ∷ [],
      Method.set_latency_range,
    )
    ∷ (
      b'w' ∷ b'a' ∷ b'k' ∷ b'e' ∷ b'u' ∷ b'p' ∷ b'L' ∷ b'a' ∷ b't' ∷ b'e' ∷ b'n' ∷ b'c' ∷ b'y'
          ∷ b'C' ∷ b'a' ∷ b'l' ∷ b'l' ∷ b'b' ∷ b'a' ∷ b'c' ∷ b'k' ∷ b's' ∷ [],
      Method.wakeup_latency_callbacks,
    )
    ∷ (
      b'w' ∷ b'a' ∷ b'k' ∷ b'e' ∷ b'u' ∷ b'p' ∷ b'S' ∷ b'i' ∷ b'g' ∷ b'L' ∷ b'a' ∷ b't' ∷ b'e'
          ∷ b'n' ∷ b'c' ∷ b'y' ∷ b'C' ∷ b'a' ∷ b'l' ∷ b'l' ∷ b'b' ∷ b'a' ∷ b'c' ∷ b'k' ∷ [],
      Method.wakeup_sig_latency_callback,
    )
    ∷ (
      b'i' ∷ b'n' ∷ b'i' ∷ b't' ∷ b'C' ∷ b'a' ∷ b'p' ∷ b't' ∷ b'u' ∷ b'r' ∷ b'e' ∷ b'L' ∷ b'a'
          ∷ b't' ∷ b'e' ∷ b'n' ∷ b'c' ∷ b'y' ∷ b'L' ∷ b'i' ∷ b's' ∷ b't' ∷ b'e' ∷ b'n' ∷ b'e' ∷ b'r'
          ∷ [],
      Method.init_capture_latency_listener,
    )
    ∷ (
      b'i' ∷ b'n' ∷ b'i' ∷ b't' ∷ b'P' ∷ b'l' ∷ b'a' ∷ b'y' ∷ b'b' ∷ b'a' ∷ b'c' ∷ b'k' ∷ b'L'
          ∷ b'a' ∷ b't' ∷ b'e' ∷ b'n' ∷ b'c' ∷ b'y' ∷ b'L' ∷ b'i' ∷ b's' ∷ b't' ∷ b'e' ∷ b'n' ∷ b'e'
          ∷ b'r' ∷ [],
      Method.init_playback_latency_listener,
    )
    ∷ (
      b'i' ∷ b'n' ∷ b'i' ∷ b't' ∷ b'L' ∷ b'a' ∷ b't' ∷ b'e' ∷ b'n' ∷ b'c' ∷ b'y' ∷ b'L' ∷ b'i'
          ∷ b's' ∷ b't' ∷ b'e' ∷ b'n' ∷ b'e' ∷ b'r' ∷ [],
      Method.init_latency_listener,
    )
    ∷ []

abbrev pub event_methods : Table
event_methods =
    (b'g' ∷ b'e' ∷ b't' ∷ b'T' ∷ b'y' ∷ b'p' ∷ b'e' ∷ [], Method.get_type)
    ∷ (b'g' ∷ b'e' ∷ b't' ∷ b'D' ∷ b'a' ∷ b't' ∷ b'a' ∷ [], Method.get_data)
    ∷ (b'c' ∷ b'o' ∷ b'm' ∷ b'p' ∷ b'l' ∷ b'e' ∷ b't' ∷ b'e' ∷ [], Method.complete)
    ∷ (
      b'g' ∷ b'e' ∷ b't' ∷ b'S' ∷ b'e' ∷ b's' ∷ b's' ∷ b'i' ∷ b'o' ∷ b'n' ∷ b'E' ∷ b'v' ∷ b'e'
          ∷ b'n' ∷ b't' ∷ b'T' ∷ b'y' ∷ b'p' ∷ b'e' ∷ [],
      Method.get_session_event_type,
    )
    ∷ (
      b'g' ∷ b'e' ∷ b't' ∷ b'S' ∷ b'e' ∷ b's' ∷ b's' ∷ b'i' ∷ b'o' ∷ b'n' ∷ b'D' ∷ b'i' ∷ b'r' ∷ [],
      Method.get_session_dir,
    )
    ∷ (
      b's' ∷ b'e' ∷ b't' ∷ b'S' ∷ b'e' ∷ b's' ∷ b's' ∷ b'i' ∷ b'o' ∷ b'n' ∷ b'D' ∷ b'i' ∷ b'r' ∷ [],
      Method.set_session_dir,
    )
    ∷ (
      b'g' ∷ b'e' ∷ b't' ∷ b'C' ∷ b'l' ∷ b'i' ∷ b'e' ∷ b'n' ∷ b't' ∷ b'U' ∷ b'u' ∷ b'i' ∷ b'd' ∷ [],
      Method.get_client_uuid,
    )
    ∷ (
      b's' ∷ b'e' ∷ b't' ∷ b'C' ∷ b'l' ∷ b'i' ∷ b'e' ∷ b'n' ∷ b't' ∷ b'U' ∷ b'u' ∷ b'i' ∷ b'd' ∷ [],
      Method.set_client_uuid,
    )
    ∷ (
      b'g' ∷ b'e' ∷ b't' ∷ b'C' ∷ b'o' ∷ b'm' ∷ b'm' ∷ b'a' ∷ b'n' ∷ b'd' ∷ b'L' ∷ b'i' ∷ b'n'
          ∷ b'e' ∷ [],
      Method.get_command_line,
    )
    ∷ (
      b's' ∷ b'e' ∷ b't' ∷ b'C' ∷ b'o' ∷ b'm' ∷ b'm' ∷ b'a' ∷ b'n' ∷ b'd' ∷ b'L' ∷ b'i' ∷ b'n'
          ∷ b'e' ∷ [],
      Method.set_command_line,
    )
    ∷ (
      b'g' ∷ b'e' ∷ b't' ∷ b'S' ∷ b'e' ∷ b's' ∷ b's' ∷ b'i' ∷ b'o' ∷ b'n' ∷ b'E' ∷ b'v' ∷ b'e'
          ∷ b'n' ∷ b't' ∷ b'F' ∷ b'l' ∷ b'a' ∷ b'g' ∷ b's' ∷ [],
      Method.get_session_event_flags,
    )
    ∷ (
      b's' ∷ b'e' ∷ b't' ∷ b'S' ∷ b'e' ∷ b's' ∷ b's' ∷ b'i' ∷ b'o' ∷ b'n' ∷ b'E' ∷ b'v' ∷ b'e'
          ∷ b'n' ∷ b't' ∷ b'F' ∷ b'l' ∷ b'a' ∷ b'g' ∷ b's' ∷ [],
      Method.set_session_event_flags,
    )
    ∷ []

abbrev pub client_methods : Table
client_methods =
    (
      b'g' ∷ b'e' ∷ b't' ∷ b'P' ∷ b'o' ∷ b'r' ∷ b't' ∷ b'N' ∷ b'a' ∷ b'm' ∷ b'e' ∷ b's' ∷ b'B'
          ∷ b'y' ∷ b'T' ∷ b'y' ∷ b'p' ∷ b'e' ∷ [],
      Method.get_port_names_by_type,
    )
    ∷ (
      b'g' ∷ b'e' ∷ b't' ∷ b'P' ∷ b'o' ∷ b'r' ∷ b't' ∷ b'N' ∷ b'a' ∷ b'm' ∷ b'e' ∷ b's' ∷ [],
      Method.get_port_names,
    )
    ∷ (b'g' ∷ b'e' ∷ b't' ∷ b'P' ∷ b'o' ∷ b'r' ∷ b't' ∷ [], Method.get_port)
    ∷ (
      b'r' ∷ b'e' ∷ b'g' ∷ b'i' ∷ b's' ∷ b't' ∷ b'e' ∷ b'r' ∷ b'P' ∷ b'o' ∷ b'r' ∷ b't' ∷ [],
      Method.register_port,
    )
    ∷ (b'g' ∷ b'e' ∷ b't' ∷ b'E' ∷ b'v' ∷ b'e' ∷ b'n' ∷ b't' ∷ [], Method.get_event)
    ∷ (
      b'g' ∷ b'e' ∷ b't' ∷ b'S' ∷ b'a' ∷ b'm' ∷ b'p' ∷ b'l' ∷ b'e' ∷ b'R' ∷ b'a' ∷ b't' ∷ b'e' ∷ [],
      Method.get_sample_rate,
    )
    ∷ (b'a' ∷ b'c' ∷ b't' ∷ b'i' ∷ b'v' ∷ b'a' ∷ b't' ∷ b'e' ∷ [], Method.activate)
    ∷ (b'g' ∷ b'e' ∷ b't' ∷ b'N' ∷ b'a' ∷ b'm' ∷ b'e' ∷ [], Method.client_name)
    ∷ (
      b'g' ∷ b'e' ∷ b't' ∷ b'T' ∷ b'r' ∷ b'a' ∷ b'n' ∷ b's' ∷ b'p' ∷ b'o' ∷ b'r' ∷ b't' ∷ b'S'
          ∷ b't' ∷ b'a' ∷ b't' ∷ b'e' ∷ [],
      Method.get_transport_state,
    )
    ∷ (
      b'r' ∷ b'e' ∷ b'c' ∷ b'o' ∷ b'm' ∷ b'p' ∷ b'u' ∷ b't' ∷ b'e' ∷ b'L' ∷ b'a' ∷ b't' ∷ b'e'
          ∷ b'n' ∷ b'c' ∷ b'i' ∷ b'e' ∷ b's' ∷ [],
      Method.recompute_latencies,
    )
    ∷ []

-- The tables behind the metatables; pointers to floats and to void have none.
abbrev pub methods : Class → Table
methods port_buffer = port_buffer_methods
methods latency_range = latency_range_methods
methods string_list = string_list_methods
methods port = port_methods
methods event = event_methods
methods client = client_methods
methods float_array = []
methods void_object = []

abbrev pub same_text : List ℕ → List ℕ → Bool
same_text [] [] = true
same_text (x ∷ xs) (y ∷ ys) = (x == y) && same_text xs ys
same_text _ _ = false

abbrev pub look_up : List ℕ → Table → Option Method
look_up name [] = none
look_up name ((n, d) ∷ t) = if same_text name n then some d else look_up name t

-- `SWIG_Lua_class_get`: no class has attributes, bases or a `__getitem`. `none` is nil.
unfoldable pub class_get : Class → List ℕ → Option Method
class_get c name = look_up name (methods c)

-- `object:name(args)`: Lua passes the object first, and raises an error of its own on nil.
module _ (L : Libs) (Q : LuaLib) (E : Env L) where
  abbrev pub call_found : Option Method → Value Q.Number → List (Value Q.Number) → Pushed L Q
  call_found none v args = raise no_method
  call_found (some d) v args = call L Q E d (v ∷ args)

  unfoldable pub invoke : Class → ℕ → Bool → List ℕ → List (Value Q.Number) → Pushed L Q
  invoke c p own name args = call_found (class_get c name) (userdata c p own) args

-- The parameters after the object.
abbrev pub rest : List Param → List Param
rest [] = []
rest (p ∷ ps) = ps

-- The first parameter is an object of the class.
abbrev takes : Class → List Param → Bool
takes c (pointer e ∷ ps) = same_class c e
takes c _ = false

abbrev all_take : Class → Table → Bool
all_take c [] = true
all_take c ((n, d) ∷ t) = takes c (signature d) && all_take c t

tables_take : (c : Class) → all_take c (methods c) ≡ true
unfolding signature
tables_take port_buffer = refl
tables_take latency_range = refl
tables_take string_list = refl
tables_take port = refl
tables_take event = refl
tables_take client = refl
tables_take float_array = refl
tables_take void_object = refl

look_up-takes :
    (c : Class) (name : List ℕ) (t : Table) (d : Method)
    → all_take c t ≡ true
    → look_up name t ≡ some d
    → takes c (signature d) ≡ true
look_up-takes c name [] d h e = cc
look_up-takes c name ((n, d') ∷ t) d h e = elim (Bool-cases (same_text name n)) [
  | inl y ↦ ground (arith, rw y at e)
  | inr z ↦ look_up-takes c name t d (ground arith) (rw z at e)
]

module _ (L : Libs) (Q : LuaLib) (E : Env L) where
  takes-fits :
      (c : Class) (ps : List Param) (p : ℕ) (own : Bool) (args : List (Value Q.Number))
      → takes c ps ≡ true
      → fits Q ps (userdata c p own ∷ args) ≡ fits Q (rest ps) args
  unfolding fits
  takes-fits c [] p own args h = cc
  takes-fits c (pointer e ∷ ps) p own args h = rw h refl
  takes-fits c (q ∷ ps) p own args h = cc

  -- A name fits the table of the class, and the arguments the parameters after the object.
  unfoldable pub fits_method : Option Method → List (Value Q.Number) → Bool
  fits_method none args = false
  fits_method (some d) args = fits Q (rest (signature d)) args

  -- `object:name(args)` on any object, with any name and arguments: the call is refused, and then
  -- changes nothing but the copies of Lua's strings, exactly if the object's class has no method of
  -- that name, or the arguments do not fit the parameters that follow the object. The object itself
  -- is never refused.
  pub invoke-Checked :
      (m : Machine L) (c : Class) (p : ℕ) (own : Bool) (name : List ℕ)
      (args : List (Value Q.Number))
      → Checked L Q m (fits_method (class_get c name) args) (invoke L Q E c p own name args m)
  unfolding invoke class_get fits_method
  invoke-Checked m c p own name args = at_found (class_get c name) refl
    where
      at_found :
          (o : Option Method)
          → class_get c name ≡ o
          → Checked L Q m (fits_method o args) (call_found L Q E o (userdata c p own) args m)
      at_found none e = refused no_method m.texts refl
      at_found (some d) e =
          rw
            (← takes-fits c (signature d) p own args
              (look_up-takes c name (methods c) d (tables_take c) e))
            (call-Checked L Q E d m (userdata c p own ∷ args))
