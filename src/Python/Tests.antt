-- ===== src/Python/Tests.antt =====
-- modules/python3/Jacks_python3_wrap.c on a small script.
use jacks.Prelude.{◌⊎◌, ◌^◌, ◌≡◌, refl, true, false, [], ◌∷◌, some, pos}
use jacks.Memory.{Fault}
use jacks.Memory.Access.{released}
use jacks.Exceptions.{clear_exception, check_exception}
use jacks.Event.{get_data}
use jacks.Samples.{libs}
use jacks.Lua.Values.{userdata, port, event, string_list, port_buffer, Method}
use jacks.Lua.Act.{ret, crash}
use jacks.Lua.Machine.{Machine}
use jacks.Lua.Functions.Values.{delete_js_port_buffer}
use jacks.Lua.Dispatch.{call, destructor}
use jacks.Lua.Samples.{ints, env, carrier, session}
use jacks.Lua.Signatures.{signature}
use jacks.Python.Values.{py_none, integer, proxy, Process}
use jacks.Python.Dispatch.{py_call, py_destroy, dealloc}
use jacks.Python.Signatures.{py_taken}
use jacks.Python.Agreement.{call-Agree}
use jacks.Python.Agreement.Outcomes.{Agree, one_more, no_more, same_object}
use jacks.Python.Typing.{py_call-PyChecked}
use jacks.Python.Typing.Outcomes.{PyChecked}
use jacks.Python.Session.{session_texts}
use jacks.Python.Indices.{list_get_lem}
use jacks.Python.Ownership.{destroyed_once}
use jacks.Python.Samples.{toy, names, stock, process, word}

-- The port's name, from both languages.
call-Agree_example :
    Agree libs ints toy
      (call libs ints env Method.port_name (userdata port 0 false ∷ []) stock)
      (py_call libs toy env Method.port_name (proxy port 0 0 ∷ []) process)
unfolding signature
call-Agree_example =
    call-Agree libs ints toy env Method.port_name process (userdata port 0 false ∷ [])
      (proxy port 0 0 ∷ []) refl (one_more (same_object port 0 false 0) no_more)

-- A flag of 33 bits does not fit, and the copy of the name before it is freed.
py_call-PyChecked_example :
    PyChecked libs toy (word ∷ word ∷ integer (pos (2 ^ 32)) ∷ integer (pos 0) ∷ []) process false (
      py_call libs toy env Method.new_client
        (word ∷ word ∷ integer (pos (2 ^ 32)) ∷ integer (pos 0) ∷ [])
        process)
    × ((false ≡ false) ⊎ (false ≡ true))
unfolding py_taken signature
py_call-PyChecked_example =
    py_call-PyChecked libs toy env Method.new_client process
      (word ∷ word ∷ integer (pos (2 ^ 32)) ∷ integer (pos 0) ∷ [])

session_texts_example :
    ((n : Process libs) × (py_call libs toy env Method.set_session_dir
          (proxy event 0 0 ∷ word ∷ [])
          process
        ≡ ret py_none n)
      × (py_call libs toy env Method.get_session_dir (proxy event 0 0 ∷ []) n
          ≡ crash Fault.dangling_pointer))
    × ((n : Process libs) × (py_call libs toy env Method.set_client_uuid
            (proxy event 0 0 ∷ word ∷ [])
            process
          ≡ ret py_none n)
        × (py_call libs toy env Method.get_client_uuid (proxy event 0 0 ∷ []) n
            ≡ crash Fault.dangling_pointer))
    × ((n : Process libs) × (py_call libs toy env Method.set_command_line
            (proxy event 0 0 ∷ word ∷ [])
            process
          ≡ ret py_none n)
        × (py_call libs toy env Method.get_command_line (proxy event 0 0 ∷ []) n ≡ ret word n))
unfolding get_data
session_texts_example =
    session_texts libs toy env process 0 0 (some (b'd' ∷ [])) (some (b'd' ∷ [])) (b'd' ∷ [])
      (record { impl = some 0 }) carrier session refl refl refl refl refl

-- 2^64 reads before the array.
list_get_lem_example :
    py_call libs toy env Method.list_get
      (proxy string_list 0 0 ∷ integer (pos (2 ^ 64)) ∷ [])
      process
    ≡ crash Fault.out_of_bounds
list_get_lem_example = list_get_lem libs toy env process 0 0 names (pos (2 ^ 64)) refl

abbrev emptied : Machine libs
emptied = record stock {
  buffers = released stock.buffers (some 0);
  errors = clear_exception stock.errors;
}

destroyed_once_example :
    ((t : Process libs) × (dealloc libs toy env port_buffer 0 5 process ≡ ret tt t)
      × (t.machine ≡ emptied))
    × ((t : Process libs) × (py_destroy libs toy env port_buffer
            (proxy port_buffer 0 5 ∷ [])
            process
          ≡ ret py_none t)
        × (t.machine ≡ emptied)
        × (dealloc libs toy env port_buffer 0 5 t ≡ ret tt t))
unfolding destructor delete_js_port_buffer clear_exception check_exception jacks.Memory.release
destroyed_once_example =
    destroyed_once libs toy env port_buffer 0 5 process emptied refl refl refl refl
