-- ===== src/Lua/Session.antt =====
-- modules/lua/Jacks_lua_wrap.c: the flags of a session event, set and read by a script.
use jacks.Prelude.{
  ℕ, ◌-◌, ◌%◌, ◌^◌, ◌<◌, ◌≡◌, refl, Bool, [], ◌∷◌, none, some, ℤ, pos, negsuc, arith,
}
use jacks.Memory.{Ptr, Store}
use jacks.Memory.Access.{IsAt, saved, save_lem, load-saved}
use jacks.Libraries.{Libs}
use jacks.Exceptions.{clear_exception, check_exception}
use jacks.Event.{get_data}
use jacks.Client.State.{JsEvent}
use jacks.Api.Events.{throw_if_null, SessionEvent, session_of, session_flags, set_session_flags}
use jacks.Lua.Values.{
  LuaLib, number, userdata, event, Method, swig_convert_ptr, int_of, unsigned_of,
}
use jacks.Lua.Act.{ret}
use jacks.Lua.Machine.{Machine, Env, EventBox}
use jacks.Lua.Functions.Events.{
  js_event_get_session_event_flags, js_event_set_session_event_flags, event_of,
}
use jacks.Lua.Wrappers.Events.{
  wrap_js_event_get_session_event_flags, wrap_js_event_set_session_event_flags,
}
use jacks.Lua.Checks.{check_num_args, check_ptr_type, check_number, convert_ptr, protect, rethrow}
use jacks.Lua.Dispatch.{call}

-- An int of 32 bits.
abbrev pub IsInt : ℤ → Type 0
IsInt (pos n) = n < 2 ^ 31
IsInt (negsuc n) = n < 2 ^ 31

mod_small : (n : ℕ) → n < 2 ^ 32 → n % 2 ^ 32 ≡ n
mod_small n h = omega arith

int_of-unsigned_of : (z : ℤ) → IsInt z → int_of (unsigned_of z) ≡ z
int_of-unsigned_of (pos n) h = ground (arith, mod_small n)
int_of-unsigned_of (negsuc n) h = ground (arith, mod_small n, mod_small (2 ^ 32 - 1 - n))

module _ (L : Libs) (Q : LuaLib) (E : Env L) where
  -- On an event that carries a session event, `e:setSessionEventFlags(x)` pushes nothing, and
  -- `e:getSessionEventFlags()` then pushes the number that `x` is as an int, for every int, the
  -- negative ones included.
  pub flags_round_trip :
      (m : Machine L) (p : ℕ) (own : Bool) (x : Q.Number) (box : EventBox) (e : JsEvent)
      (se : SessionEvent)
      → IsAt m.events (some p) box
      → IsAt m.objects.events box.impl e
      → IsAt m.sessions (get_data e) se
      → IsInt (Q.to_int x)
      → (n : Machine L) × (call L Q E Method.set_session_event_flags
            (userdata event p own ∷ number x ∷ [])
            m
          ≡ ret [] n)
        × (call L Q E Method.get_session_event_flags (userdata event p own ∷ []) n
            ≡ ret (number (Q.of_int (Q.to_int x)) ∷ []) n)
  unfolding call js_event_get_session_event_flags js_event_set_session_event_flags event_of
      wrap_js_event_get_session_event_flags wrap_js_event_set_session_event_flags check_num_args
      check_ptr_type check_number convert_ptr swig_convert_ptr protect rethrow session_flags
      set_session_flags session_of get_data clear_exception check_exception
  flags_round_trip m p own x box e se h1 h2 h3 h4 = (
    record m { sessions = after; errors = clear_exception m.errors },
    rw (h1, h2, quiet (get_data e) h3, h3, save_lem m.sessions (get_data e) se new h3) refl,
    rw
        (
          h1,
          h2,
          quiet (get_data e) h3,
          load-saved m.sessions (get_data e) se new h3,
          int_of-unsigned_of (Q.to_int x) h4,
        )
        refl,
  )
    where
      new : SessionEvent
      new = record se { flags = unsigned_of (Q.to_int x) }

      after : Store SessionEvent
      after = saved m.sessions (get_data e) new

      quiet :
          (a : Ptr)
          → IsAt m.sessions a se
          → throw_if_null a (clear_exception m.errors) ≡ clear_exception m.errors
      quiet none h = cc
      quiet (some a) h = refl
