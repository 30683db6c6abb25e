-- ===== src/Lua/Functions/Events.antt =====
-- modules/lua/Jacks_lua_wrap.c: `JsEvent`.
use jacks.Prelude.{Option, ℕ, List, none, some}
use jacks.Memory.{Ptr, load, release, alloc}
use jacks.Libraries.{Libs}
use jacks.Event
use jacks.Event.{get_type, get_data, complete}
use jacks.Client.State.{JsEvent}
use jacks.Api.Events.{
  session_type, session_dir, session_uuid, session_command_line, session_flags, set_session_dir,
  set_session_uuid, set_session_command_line, set_session_flags,
}
use jacks.Lua.Act.{Act, ret, pure, read, modify, update_with, ◌>>=◌, ◌>>◌}
use jacks.Lua.Machine.{Machine, into}

module _ (L : Libs) where
  -- The event struct behind a script's event.
  unfoldable pub event_of : Ptr → Act ⊥ (Machine L) JsEvent
  event_of self = do b ← read (λ m. load m.events self); read (λ m. load m.objects.events b.impl)

  unfoldable pub delete_js_event : Ptr → Act ⊥ (Machine L) (Unit {0})
  unfolding Event.free
  delete_js_event self = do
    b ← read (λ m. load m.events self)
    update_with (λ m.
        into (Event.free b.impl m.objects.events)
          (λ s. record m { objects = record (m.objects) { events = s } }))
    update_with (λ m. into (release m.events self) (λ s. record m { events = s }))

  unfoldable pub js_event_get_type : Ptr → Act ⊥ (Machine L) ℕ
  unfolding event_of
  js_event_get_type self = do e ← event_of self; pure (get_type e)

  unfoldable pub js_event_get_data : Ptr → Act ⊥ (Machine L) Ptr
  unfolding event_of
  js_event_get_data self = do e ← event_of self; pure (get_data e)

  unfoldable pub js_event_complete : Ptr → Act ⊥ (Machine L) (Unit {0})
  unfolding event_of
  js_event_complete self = do
    e ← event_of self
    update_with (λ m.
        into (complete e m.objects.latches)
          (λ s. record m { objects = record (m.objects) { latches = s } }))

  unfoldable pub js_event_get_session_event_type : Ptr → Act ⊥ (Machine L) ℕ
  unfolding event_of
  js_event_get_session_event_type self = do
    e ← event_of self
    got ← read (λ m. session_type m.sessions e m.errors)
    modify (λ m. record m { errors = got.1 })
    pure got.0

  unfoldable pub js_event_get_session_dir : Ptr → Act ⊥ (Machine L) Ptr
  unfolding event_of
  js_event_get_session_dir self = do
    e ← event_of self
    got ← read (λ m. session_dir m.sessions e m.errors)
    modify (λ m. record m { errors = got.1 })
    pure got.0

  unfoldable pub js_event_get_client_uuid : Ptr → Act ⊥ (Machine L) Ptr
  unfolding event_of
  js_event_get_client_uuid self = do
    e ← event_of self
    got ← read (λ m. session_uuid m.sessions e m.errors)
    modify (λ m. record m { errors = got.1 })
    pure got.0

  unfoldable pub js_event_get_command_line : Ptr → Act ⊥ (Machine L) (Option (List ℕ))
  unfolding event_of
  js_event_get_command_line self = do
    e ← event_of self
    got ← read (λ m. session_command_line m.sessions e m.errors)
    modify (λ m. record m { errors = got.1 })
    pure got.0

  unfoldable pub js_event_get_session_event_flags : Ptr → Act ⊥ (Machine L) ℕ
  unfolding event_of
  js_event_get_session_event_flags self = do
    e ← event_of self
    got ← read (λ m. session_flags m.sessions e m.errors)
    modify (λ m. record m { errors = got.1 })
    pure got.0

  unfoldable pub js_event_set_session_dir : Ptr → Ptr → Act ⊥ (Machine L) (Unit {0})
  unfolding event_of
  js_event_set_session_dir self x = do
    e ← event_of self
    done ← read (λ m. set_session_dir x m.sessions e m.errors)
    modify (λ m. record m { sessions = done.0; errors = done.1 })

  unfoldable pub js_event_set_client_uuid : Ptr → Ptr → Act ⊥ (Machine L) (Unit {0})
  unfolding event_of
  js_event_set_client_uuid self x = do
    e ← event_of self
    done ← read (λ m. set_session_uuid x m.sessions e m.errors)
    modify (λ m. record m { sessions = done.0; errors = done.1 })

  unfoldable pub js_event_set_session_event_flags : Ptr → ℕ → Act ⊥ (Machine L) (Unit {0})
  unfolding event_of
  js_event_set_session_event_flags self x = do
    e ← event_of self
    done ← read (λ m. set_session_flags x m.sessions e m.errors)
    modify (λ m. record m { sessions = done.0; errors = done.1 })

  -- `strdup` makes a copy.
  unfoldable pub js_event_set_command_line : Ptr → Ptr → Act ⊥ (Machine L) (Unit {0})
  unfolding event_of
  js_event_set_command_line self cmd = do
    e ← event_of self
    copy ← read (λ m. load m.texts cmd)
    done ← read (λ m. set_session_command_line copy m.sessions e m.errors)
    modify (λ m. record m { sessions = done.0; errors = done.1 })

  unfoldable pub calloc_js_event : Act ⊥ (Machine L) Ptr
  calloc_js_event m =
      let (p, s) = alloc m.events (some (record { impl = none })) in ret p (record m { events = s })
