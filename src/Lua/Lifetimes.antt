-- ===== src/Lua/Lifetimes.antt =====
-- modules/lua/Jacks_lua_wrap.c: what becomes of an object that a script makes with no arguments.
use jacks.Prelude.{ℕ, ◌≡◌, refl, true, [], ◌∷◌, none}
use jacks.Memory.{Fault}
use jacks.Memory.Access.{load-alloc_self}
use jacks.Libraries.{Libs}
use jacks.Exceptions.{clear_exception, check_exception}
use jacks.Event
use jacks.Port
use jacks.Lua.Values.{LuaLib, userdata, port, event, Method}
use jacks.Lua.Act.{ret, crash}
use jacks.Lua.Machine.{Machine, Env}
use jacks.Lua.Functions.Ports.{calloc_js_port, delete_js_port}
use jacks.Lua.Functions.Events.{calloc_js_event, delete_js_event}
use jacks.Lua.Wrappers.Ports.{wrap_new_js_port}
use jacks.Lua.Wrappers.Events.{wrap_new_js_event}
use jacks.Lua.Checks.{check_num_args, protect, rethrow}
use jacks.Lua.Dispatch.{call, class_destruct, destructor}

module _ (L : Libs) (Q : LuaLib) (E : Env L) where
  -- In any memory, the constructors of `JsPort` and `JsEvent`, which take no arguments, give an
  -- object that the script owns and whose `impl` is NULL; when Lua collects it, an assertion fails
  -- and ends the process.
  pub default_objects :
      (m : Machine L)
      → ((p : ℕ) × (n : Machine L) × (call L Q E Method.new_port [] m
            ≡ ret (userdata port p true ∷ []) n)
          × (class_destruct L {N = Q.Number} (userdata port p true) n ≡ crash Fault.assert_failed))
        × ((p : ℕ) × (n : Machine L) × (call L Q E Method.new_event [] m
              ≡ ret (userdata event p true ∷ []) n)
            × (class_destruct L {N = Q.Number} (userdata event p true) n
                ≡ crash Fault.assert_failed))
  unfolding call class_destruct destructor wrap_new_js_port wrap_new_js_event calloc_js_port
      calloc_js_event delete_js_port delete_js_event check_num_args protect rethrow clear_exception
      check_exception Port.free Event.free
  default_objects m = (
    (
      m.ports.fresh,
      _,
      refl,
      rw (load-alloc_self m.ports (record { impl = none; clientimpl = none })) refl,
    ),
    (m.events.fresh, _, refl, rw (load-alloc_self m.events (record { impl = none })) refl),
  )
