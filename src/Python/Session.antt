-- ===== src/Python/Session.antt =====
-- modules/python3/Jacks_python3_wrap.c: the texts of a session event, set and read by a script.
use jacks.Prelude.{ℕ, suc, ◌≡◌, refl, List, [], ◌∷◌, none, some}
use jacks.Memory.{Fault, Ptr, Store, update, release}
use jacks.Memory.Access.{IsAt, saved, save_lem, load-saved, update_self}
use jacks.Libraries.{Libs}
use jacks.Exceptions.{clear_exception, check_exception}
use jacks.Event.{get_data}
use jacks.Client.State.{JsEvent}
use jacks.Api.Events.{
  throw_if_null, SessionEvent, session_of, session_dir, set_session_dir, session_uuid,
  set_session_uuid, session_command_line, set_session_command_line,
}
use jacks.Lua.Values.{event, Method, before_nul}
use jacks.Lua.Act.{ret, crash}
use jacks.Lua.Machine.{Machine, Env, EventBox}
use jacks.Lua.Functions.Events.{
  js_event_get_session_dir, js_event_set_session_dir, js_event_get_client_uuid,
  js_event_set_client_uuid, js_event_get_command_line, js_event_set_command_line, event_of,
}
use jacks.Python.Values.{PyLib, py_none, str, proxy, Process}
use jacks.Python.Convert.{as_pointer, as_char_ptr}
use jacks.Python.Checks.{
  parse_tuple, checked, arg_pointer, with_text, free_copy, py_protect, from_char_ptr, from_copy,
  from_text,
}
use jacks.Python.Wrappers.Events.{
  py_wrap_js_event_get_session_dir, py_wrap_js_event_set_session_dir,
  py_wrap_js_event_get_client_uuid, py_wrap_js_event_set_client_uuid,
  py_wrap_js_event_get_command_line, py_wrap_js_event_set_command_line,
}
use jacks.Python.Dispatch.{py_call}

quiet :
    (m : Store SessionEvent) (a : Ptr) (se : SessionEvent) (e : jacks.Exceptions.Exceptions)
    → IsAt m a se
    → throw_if_null a e ≡ e
quiet m none se e h = cc
quiet m (some a) se e h = refl

-- The strings after a copy was made and freed.
abbrev pub used : Store (List ℕ) → List ℕ → Store (List ℕ)
used a x = record {
  fresh = suc a.fresh;
  cell = update (update a.cell a.fresh (some x)) a.fresh none;
}

module _ (L : Libs) where
  abbrev pub after : Process L → List ℕ → Ptr → SessionEvent → Machine L
  after s x a se = record (s.machine) {
    sessions = saved s.machine.sessions a se;
    texts = used s.machine.texts x;
    errors = clear_exception s.machine.errors;
  }

module _ (L : Libs) (Y : PyLib) (E : Env L) (s : Process L) (p id : ℕ) (u : Y.Text) (bytes : List ℕ)
    (box : EventBox) (e : JsEvent) (se : SessionEvent) (h1 : IsAt s.machine.events (some p) box)
    (h2 : IsAt s.machine.objects.events box.impl e) (h3 : IsAt s.machine.sessions (get_data e) se)
    (h4 : Y.encode u ≡ some bytes) where
  dir_dangles :
      (n : Process L) × (py_call L Y E Method.set_session_dir (proxy event p id ∷ str u ∷ []) s
        ≡ ret py_none n)
      × (py_call L Y E Method.get_session_dir (proxy event p id ∷ []) n
          ≡ crash Fault.dangling_pointer)
  unfolding py_call py_wrap_js_event_get_session_dir py_wrap_js_event_set_session_dir parse_tuple
      arg_pointer as_pointer checked with_text as_char_ptr free_copy py_protect from_char_ptr
      from_text js_event_get_session_dir js_event_set_session_dir event_of session_dir
      set_session_dir session_of get_data clear_exception check_exception release
  dir_dangles = (
    record s {
      machine =
          after L s (before_nul bytes) (get_data e)
            (record se { session_dir = some s.machine.texts.fresh });
    },
    rw
        (
          h4,
          h1,
          h2,
          quiet s.machine.sessions (get_data e) se (clear_exception s.machine.errors) h3,
          h3,
          save_lem s.machine.sessions (get_data e) se
              (record se { session_dir = some s.machine.texts.fresh }) h3,
          update_self s.machine.texts.cell s.machine.texts.fresh (some (before_nul bytes)),
        )
        refl,
    rw
        (
          h1,
          h2,
          quiet s.machine.sessions (get_data e) se (clear_exception s.machine.errors) h3,
          load-saved s.machine.sessions (get_data e) se
              (record se { session_dir = some s.machine.texts.fresh }) h3,
          update_self (update s.machine.texts.cell s.machine.texts.fresh (some (before_nul bytes)))
              s.machine.texts.fresh none,
        )
        refl,
  )

  uuid_dangles :
      (n : Process L) × (py_call L Y E Method.set_client_uuid (proxy event p id ∷ str u ∷ []) s
        ≡ ret py_none n)
      × (py_call L Y E Method.get_client_uuid (proxy event p id ∷ []) n
          ≡ crash Fault.dangling_pointer)
  unfolding py_call py_wrap_js_event_get_client_uuid py_wrap_js_event_set_client_uuid parse_tuple
      arg_pointer as_pointer checked with_text as_char_ptr free_copy py_protect from_char_ptr
      from_text js_event_get_client_uuid js_event_set_client_uuid event_of session_uuid
      set_session_uuid session_of get_data clear_exception check_exception release
  uuid_dangles = (
    record s {
      machine =
          after L s (before_nul bytes) (get_data e)
            (record se { client_uuid = some s.machine.texts.fresh });
    },
    rw
        (
          h4,
          h1,
          h2,
          quiet s.machine.sessions (get_data e) se (clear_exception s.machine.errors) h3,
          h3,
          save_lem s.machine.sessions (get_data e) se
              (record se { client_uuid = some s.machine.texts.fresh }) h3,
          update_self s.machine.texts.cell s.machine.texts.fresh (some (before_nul bytes)),
        )
        refl,
    rw
        (
          h1,
          h2,
          quiet s.machine.sessions (get_data e) se (clear_exception s.machine.errors) h3,
          load-saved s.machine.sessions (get_data e) se
              (record se { client_uuid = some s.machine.texts.fresh }) h3,
          update_self (update s.machine.texts.cell s.machine.texts.fresh (some (before_nul bytes)))
              s.machine.texts.fresh none,
        )
        refl,
  )

  command_line_round_trip :
      (w : Y.Text)
      → Y.decode (before_nul bytes) ≡ some w
      → (n : Process L) × (py_call L Y E Method.set_command_line (proxy event p id ∷ str u ∷ []) s
          ≡ ret py_none n)
        × (py_call L Y E Method.get_command_line (proxy event p id ∷ []) n ≡ ret (str w) n)
  unfolding py_call py_wrap_js_event_get_command_line py_wrap_js_event_set_command_line parse_tuple
      arg_pointer as_pointer checked with_text as_char_ptr free_copy py_protect from_text
      js_event_get_command_line js_event_set_command_line event_of session_command_line
      set_session_command_line session_of get_data from_copy clear_exception check_exception release
  command_line_round_trip w d = (
    record s {
      machine =
          after L s (before_nul bytes) (get_data e)
            (record se { command_line = some (before_nul bytes) });
    },
    rw
        (
          h4,
          h1,
          h2,
          update_self s.machine.texts.cell s.machine.texts.fresh (some (before_nul bytes)),
          quiet s.machine.sessions (get_data e) se (clear_exception s.machine.errors) h3,
          h3,
          save_lem s.machine.sessions (get_data e) se
              (record se { command_line = some (before_nul bytes) }) h3,
          update_self s.machine.texts.cell s.machine.texts.fresh (some (before_nul bytes)),
        )
        refl,
    rw
        (
          h1,
          h2,
          quiet s.machine.sessions (get_data e) se (clear_exception s.machine.errors) h3,
          load-saved s.machine.sessions (get_data e) se
              (record se { command_line = some (before_nul bytes) }) h3,
          d,
        )
        refl,
  )

module _ (L : Libs) (Y : PyLib) (E : Env L) where
  -- On an event that carries a session event, and for a text that has a UTF-8 form of which Python
  -- reads the part before a NUL as `w`: `e.setSessionDir(text)` and `e.setClientUuid(text)` return
  -- None, and the getter of the same name then reads memory that was freed, since the wrapper frees
  -- the copy of the text to which the session event now points. `e.setCommandLine(text)` returns None
  -- too, and `e.getCommandLine()` then returns `w`.
  pub session_texts :
      (s : Process L) (p id : ℕ) (u w : Y.Text) (bytes : List ℕ) (box : EventBox) (e : JsEvent)
      (se : SessionEvent)
      → IsAt s.machine.events (some p) box
      → IsAt s.machine.objects.events box.impl e
      → IsAt s.machine.sessions (get_data e) se
      → Y.encode u ≡ some bytes
      → Y.decode (before_nul bytes) ≡ some w
      → ((n : Process L) × (py_call L Y E Method.set_session_dir (proxy event p id ∷ str u ∷ []) s
            ≡ ret py_none n)
          × (py_call L Y E Method.get_session_dir (proxy event p id ∷ []) n
              ≡ crash Fault.dangling_pointer))
        × ((n : Process L) × (py_call L Y E Method.set_client_uuid (proxy event p id ∷ str u ∷ []) s
              ≡ ret py_none n)
            × (py_call L Y E Method.get_client_uuid (proxy event p id ∷ []) n
                ≡ crash Fault.dangling_pointer))
        × ((n : Process L) × (py_call L Y E Method.set_command_line
                (proxy event p id ∷ str u ∷ [])
                s
              ≡ ret py_none n)
            × (py_call L Y E Method.get_command_line (proxy event p id ∷ []) n ≡ ret (str w) n))
  session_texts s p id u w bytes box e se h1 h2 h3 h4 d = (
    dir_dangles L Y E s p id u bytes box e se h1 h2 h3 h4,
    uuid_dangles L Y E s p id u bytes box e se h1 h2 h3 h4,
    command_line_round_trip L Y E s p id u bytes box e se h1 h2 h3 h4 w d,
  )
