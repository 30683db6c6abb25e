-- ===== src/Api/Events.antt =====
-- modules/Jacks.i: the session part of `JsEvent`.
use jacks.Prelude.{ℕ, ◌≡◌, List, [], ◌∷◌, Option, none, some}
use jacks.Memory.{null_pointer, Outcome, ok, fault, ◌>>=◌, Ptr, Store, load, save}
use jacks.Exceptions.{Exceptions, throw_exception, check_exception}
use jacks.Event.{Event, get_data}

-- `jack_session_event_t`. The directory and the identifier are the pointers that were stored; the
-- command line is the text of a copy of its own, `none` for the NULL that JACK starts with.
pub record SessionEvent : Type 0 where
  pub stype : ℕ
  pub session_dir : Ptr
  pub client_uuid : Ptr
  pub command_line : Option (List ℕ)
  pub flags : ℕ

-- "not a session event"
abbrev pub not_session : List ℕ
not_session =
    b'n' ∷ b'o' ∷ b't' ∷ b' ' ∷ b'a' ∷ b' ' ∷ b's' ∷ b'e' ∷ b's' ∷ b's' ∷ b'i' ∷ b'o' ∷ b'n' ∷ b' '
    ∷ b'e' ∷ b'v' ∷ b'e' ∷ b'n' ∷ b't' ∷ []

-- `if (se == NULL) throw_exception("not a session event")`
abbrev pub throw_if_null : Ptr → Exceptions → Exceptions
throw_if_null none e = throw_exception not_session e
throw_if_null (some p) e = e

module _ {W : Type 0} where
  -- The common start: `se`, and the exceptions. What follows reads or writes through `se`, NULL or
  -- not.
  unfoldable pub session_of : Event W → Exceptions → Ptr × Exceptions
  session_of v e = (get_data v, throw_if_null (get_data v) e)

  -- `JsEvent::getSessionEventType`
  unfoldable pub session_type : Store SessionEvent → Event W → Exceptions → Outcome (ℕ × Exceptions)
  unfolding session_of
  session_type m v e = do let found = session_of v e; se ← load m found.0; ok (se.stype, found.1)

  -- `JsEvent::getSessionDir`
  unfoldable pub session_dir :
      Store SessionEvent → Event W → Exceptions → Outcome (Ptr × Exceptions)
  unfolding session_of
  session_dir m v e = do
    let found = session_of v e
    se ← load m found.0
    ok (se.session_dir, found.1)

  -- `JsEvent::getClientUuid`
  unfoldable pub session_uuid :
      Store SessionEvent → Event W → Exceptions → Outcome (Ptr × Exceptions)
  unfolding session_of
  session_uuid m v e = do
    let found = session_of v e
    se ← load m found.0
    ok (se.client_uuid, found.1)

  -- `JsEvent::getCommandLine`
  unfoldable pub session_command_line :
      Store SessionEvent → Event W → Exceptions → Outcome (Option (List ℕ) × Exceptions)
  unfolding session_of
  session_command_line m v e = do
    let found = session_of v e
    se ← load m found.0
    ok (se.command_line, found.1)

  -- `JsEvent::getSessionEventFlags`
  unfoldable pub session_flags :
      Store SessionEvent → Event W → Exceptions → Outcome (ℕ × Exceptions)
  unfolding session_of
  session_flags m v e = do let found = session_of v e; se ← load m found.0; ok (se.flags, found.1)

  -- `JsEvent::setSessionDir`
  unfoldable pub set_session_dir :
      Ptr → Store SessionEvent → Event W → Exceptions → Outcome (Store SessionEvent × Exceptions)
  unfolding session_of
  set_session_dir x m v e = do
    let found = session_of v e
    se ← load m found.0
    m' ← save m found.0 (record se { session_dir = x })
    ok (m', found.1)

  -- `JsEvent::setClientUuid`
  unfoldable pub set_session_uuid :
      Ptr → Store SessionEvent → Event W → Exceptions → Outcome (Store SessionEvent × Exceptions)
  unfolding session_of
  set_session_uuid x m v e = do
    let found = session_of v e
    se ← load m found.0
    m' ← save m found.0 (record se { client_uuid = x })
    ok (m', found.1)

  -- `JsEvent::setCommandLine`
  unfoldable pub set_session_command_line :
      List ℕ → Store SessionEvent → Event W → Exceptions → Outcome (Store SessionEvent × Exceptions)
  unfolding session_of
  set_session_command_line x m v e = do
    let found = session_of v e
    se ← load m found.0
    m' ← save m found.0 (record se { command_line = some x })
    ok (m', found.1)

  -- `JsEvent::setSessionEventFlags`
  unfoldable pub set_session_flags :
      ℕ → Store SessionEvent → Event W → Exceptions → Outcome (Store SessionEvent × Exceptions)
  unfolding session_of
  set_session_flags x m v e = do
    let found = session_of v e
    se ← load m found.0
    m' ← save m found.0 (record se { flags = x })
    ok (m', found.1)

  -- On an event without session data the common start of the nine accessors throws the error "not a
  -- session event", which is then pending, and still hands on the NULL pointer; every one of the nine
  -- goes through it and ends the process.
  pub session_null :
      (m : Store SessionEvent) (v : Event W) (e : Exceptions) (text : List ℕ) (s : Ptr) (n : ℕ)
      → v.payload ≡ none
      → (session_of v e ≡ (none, throw_exception not_session e))
        × (check_exception (session_of v e).1 ≡ some (throw_exception not_session e).error_message)
        × (session_type m v e ≡ fault null_pointer)
        × (session_dir m v e ≡ fault null_pointer)
        × (session_uuid m v e ≡ fault null_pointer)
        × (session_command_line m v e ≡ fault null_pointer)
        × (session_flags m v e ≡ fault null_pointer)
        × (set_session_dir s m v e ≡ fault null_pointer)
        × (set_session_uuid s m v e ≡ fault null_pointer)
        × (set_session_command_line text m v e ≡ fault null_pointer)
        × (set_session_flags n m v e ≡ fault null_pointer)
  unfolding session_type session_dir session_uuid session_command_line session_flags set_session_dir
      set_session_uuid set_session_command_line set_session_flags get_data session_of
      throw_exception check_exception
  session_null m v e text s n h = (rw h, rw h, rw h, rw h, rw h, rw h, rw h, rw h, rw h, rw h, rw h)
