-- ===== src/Python/Ownership.antt =====
-- modules/python3/Jacks_python3_wrap.c: the end of an object that its script destroys.
use jacks.Prelude.{ℕ, ◌≡◌, refl, Bool, true, false, [], ◌∷◌, none, some, arith}
use jacks.Libraries.{Libs}
use jacks.Exceptions.{clear_exception, check_exception}
use jacks.Lua.Values.{
  Class, port_buffer, latency_range, string_list, port, event, client, float_array, void_object,
}
use jacks.Lua.Act.{ret}
use jacks.Lua.Machine.{Machine, Env}
use jacks.Lua.Dispatch.{destructor}
use jacks.Python.Values.{PyLib, py_none, proxy, Process, set_own, new_object}
use jacks.Python.Convert.{as_pointer}
use jacks.Python.Checks.{parse_tuple, checked, arg_pointer, arg_disowned, py_protect}
use jacks.Python.Wrappers.Buffers.{
  py_wrap_delete_js_port_buffer, py_wrap_delete_js_latency_range, py_wrap_delete_string_list,
}
use jacks.Python.Wrappers.Ports.{py_wrap_delete_js_port}
use jacks.Python.Wrappers.Events.{py_wrap_delete_js_event}
use jacks.Python.Wrappers.Clients.{py_wrap_delete_js_client}
use jacks.Python.Dispatch.{py_destroy, dealloc}

abbrev pub has_destructor : Class → Bool
has_destructor float_array = false
has_destructor void_object = false
has_destructor _ = true

module _ (L : Libs) where
  -- The states after the destructor, called at the end of an object and called by the script.
  abbrev pub after_end : Process L → Machine L → Process L
  after_end s m = record (set_own L s.proxies false (new_object L false s).1) { machine = m }

  abbrev pub after_delete : ℕ → Process L → Machine L → Process L
  after_delete id s m = record (set_own L id false s) { machine = m }

module _ (L : Libs) (Y : PyLib) (E : Env L) where
  -- An object that owns what it points to, where the C destructor runs through: when Python drops its
  -- last reference, the C destructor runs. If the script has called the module's destructor before,
  -- that has run it, and left the object without ownership: the end of the object then changes
  -- nothing.
  pub destroyed_once :
      (c : Class) (p id : ℕ) (s : Process L) (m : Machine L)
      → has_destructor c ≡ true
      → s.owned id ≡ true
      → destructor L c (some p) (record (s.machine) { errors = clear_exception s.machine.errors })
        ≡ ret tt m
      → check_exception m.errors ≡ none
      → ((t : Process L) × (dealloc L Y E c p id s ≡ ret tt t) × (t.machine ≡ m))
        × ((t : Process L) × (py_destroy L Y E c (proxy c p id ∷ []) s ≡ ret py_none t)
            × (t.machine ≡ m)
            × (dealloc L Y E c p id t ≡ ret tt t))
  unfolding dealloc py_destroy py_wrap_delete_js_port_buffer py_wrap_delete_js_latency_range
      py_wrap_delete_string_list py_wrap_delete_js_port py_wrap_delete_js_event
      py_wrap_delete_js_client destructor parse_tuple arg_disowned arg_pointer as_pointer checked
      py_protect
  destroyed_once port_buffer p id s m k o h q = (
    (after_end L s m, rw (o, h, q) refl, refl),
    (after_delete L id s m, rw (h, q) refl, refl, ground arith),
  )
  destroyed_once latency_range p id s m k o h q = (
    (after_end L s m, rw (o, h, q) refl, refl),
    (after_delete L id s m, rw (h, q) refl, refl, ground arith),
  )
  destroyed_once string_list p id s m k o h q = (
    (after_end L s m, rw (o, h, q) refl, refl),
    (after_delete L id s m, rw (h, q) refl, refl, ground arith),
  )
  destroyed_once port p id s m k o h q = (
    (after_end L s m, rw (o, h, q) refl, refl),
    (after_delete L id s m, rw (h, q) refl, refl, ground arith),
  )
  destroyed_once event p id s m k o h q = (
    (after_end L s m, rw (o, h, q) refl, refl),
    (after_delete L id s m, rw (h, q) refl, refl, ground arith),
  )
  destroyed_once client p id s m k o h q = (
    (after_end L s m, rw (o, h, q) refl, refl),
    (after_delete L id s m, rw (h, q) refl, refl, ground arith),
  )
  destroyed_once float_array p id s m k o h q = ground arith
  destroyed_once void_object p id s m k o h q = ground arith
