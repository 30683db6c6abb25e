-- ===== src/Lua/Functions/Clients.antt =====
-- modules/lua/Jacks_lua_wrap.c: `JsClient`.
use jacks.Prelude.{ℕ, suc, List, Option, none, some, ℤ, pos}
use jacks.Memory.{null_pointer, Outcome, ok, fault, Ptr, load, save, release, alloc}
use jacks.Libraries.{Libs}
use jacks.Port
use jacks.Client.State.{World, no_int, yes_int}
use jacks.Client.Setup
use jacks.Client.Events.{Polled, delivered, waits, no_fuel, get_event}
use jacks.Api.Clients.{recompute_latencies}
use jacks.Lua.Act.{Act, blocked, pure, gets, read, modify, update_with, ◌>>=◌, ◌>>◌}
use jacks.Lua.Machine.{Machine, ClientBox, Env, into, jack, text_at, world_at, put_world, new_texts}

abbrev pub address_of : Ptr → Outcome ℕ
address_of none = fault null_pointer
address_of (some a) = ok a

module _ (L : Libs) where
  -- The struct of a script's client, and the client behind it.
  unfoldable pub client_of : Ptr → Act ⊥ (Machine L) (ClientBox × World L)
  client_of self = do
    b ← read (λ m. load m.boxes self)
    w ← read (λ m. world_at L m b.impl)
    pure (b, w)

  -- The two structs and the memory around them go.
  unfoldable pub delete_js_client : Ptr → Act ⊥ (Machine L) (Unit {0})
  unfolding client_of
  delete_js_client self = do
    c ← client_of self
    o ← read (λ m. Setup.free L c.1)
    modify (λ m. record m { objects = o })
    update_with (λ m. into (release m.clients c.0.impl) (λ s. record m { clients = s }))
    update_with (λ m. into (release m.boxes self) (λ s. record m { boxes = s }))

  -- The event that `JacksRbClient_get_event` gives, if any.
  unfoldable pub hold_event : Ptr → Polled L → Act ⊥ (Machine L) Ptr
  hold_event c (delivered e w) = do
    update_with (put_world L c w)
    holder ← gets (λ m. alloc m.events (some (record { impl = e })))
    modify (λ m. record m { events = holder.1 })
    pure holder.0
  hold_event c (waits w) = do update_with (put_world L c w); blocked
  hold_event c no_fuel = blocked

  -- The fuel is enough: each round but the last takes one from the semaphore.
  unfoldable pub js_client_get_event : Ptr → Act ⊥ (Machine L) Ptr
  unfolding client_of hold_event
  js_client_get_event self = do
    c ← client_of self
    polled ← read (λ m. get_event L (suc c.1.self.mutex) c.1)
    hold_event c.0.impl polled

  module _ (E : Env L) where
    unfoldable pub new_js_client : Ptr → Ptr → ℤ → ℕ → Act ⊥ (Machine L) Ptr
    new_js_client name option_str option rb_size = do
      title ← read (λ m. text_at m.texts name)
      extra ← read (λ m. text_at m.texts option_str)
      w ← read (λ m. Setup.new L E.rooms (E.client_open title extra option) rb_size m.objects)
      j ← gets (λ m. alloc m.clients (some w.self))
      holder ← gets (λ m. alloc m.boxes (some (record { impl = j.0; process_audio = no_int })))
      modify (λ m. record m { clients = j.1; objects = w.objects; boxes = holder.1 })
      pure holder.0

    -- A script's list of the names that JACK gives, or NULL.
    unfoldable pub hold_names : Option (List (List ℕ)) → Act ⊥ (Machine L) Ptr
    unfolding new_texts
    hold_names none = pure none
    hold_names (some names) = do
      made ← gets (new_texts L names)
      modify (λ m. made.1)
      holder ← gets (λ m. alloc m.lists (some (record { impl = made.0; len = 0 })))
      modify (λ m. record m { lists = holder.1 })
      pure holder.0

    unfoldable pub js_client_get_port_names_by_type : Ptr → Ptr → Ptr → ℤ → Act ⊥ (Machine L) Ptr
    unfolding client_of hold_names
    js_client_get_port_names_by_type self pattern types flags = do
      c ← client_of self
      wanted ← read (λ m. text_at m.texts pattern)
      kinds ← read (λ m. text_at m.texts types)
      names ← gets (λ m. E.get_ports (jack L m) c.1.self.client wanted kinds flags)
      hold_names names

    unfoldable pub js_client_get_port_names : Ptr → Ptr → Act ⊥ (Machine L) Ptr
    unfolding js_client_get_port_names_by_type
    js_client_get_port_names self pattern =
        js_client_get_port_names_by_type self pattern none (pos 0)

    -- A script's port for a port of JACK, or NULL. It is not among the ports of the client, and its
    -- `clientimpl`, which nothing reads, is not set.
    unfoldable pub hold_port : ClientBox → World L → Ptr → Act ⊥ (Machine L) Ptr
    hold_port b w none = pure none
    hold_port b w (some jport) = do
      p ← gets (λ m.
          alloc m.objects.rb_ports
            (Port.new L.rings E.memory (some jport) b.impl (Setup.get_rb_size L w.self)))
      holder ← gets (λ m. alloc m.ports (some (record { impl = p.0; clientimpl = none })))
      modify (λ m. record m { objects = record (m.objects) { rb_ports = p.1 }; ports = holder.1 })
      pure holder.0

    unfoldable pub js_client_get_port : Ptr → Ptr → Act ⊥ (Machine L) Ptr
    unfolding client_of hold_port
    js_client_get_port self none = pure none
    js_client_get_port self (some name) = do
      c ← client_of self
      text ← read (λ m. load m.texts (some name))
      jport ← gets (λ m. E.port_by_name (jack L m) c.1.self.client text)
      hold_port c.0 c.1 jport

    unfoldable pub js_client_register_port : Ptr → Ptr → ℕ → Act ⊥ (Machine L) Ptr
    unfolding client_of
    js_client_register_port self name options = do
      c ← client_of self
      address ← read (λ m. address_of c.0.impl)
      text ← read (λ m. load m.texts name)
      got ← read (λ m. Setup.register_port L E.memory address text options c.1)
      update_with (put_world L c.0.impl got.1)
      holder ← gets (λ m. alloc m.ports (some (record { impl = got.0; clientimpl = c.0.impl })))
      modify (λ m. record m { ports = holder.1 })
      update_with (λ m.
          into (save m.boxes self (record (c.0) { process_audio = yes_int }))
            (λ s. record m { boxes = s }))
      pure holder.0

    unfoldable pub js_client_get_sample_rate : Ptr → Act ⊥ (Machine L) ℕ
    unfolding client_of
    js_client_get_sample_rate self = do
      c ← client_of self
      gets (λ m. E.sample_rate (jack L m) c.1.self.client)

    unfoldable pub js_client_activate : Ptr → Act ⊥ (Machine L) ℤ
    unfolding client_of
    js_client_activate self = do
      c ← client_of self
      done ← gets (λ m.
          Setup.activate L c.0.process_audio (E.client_activate (jack L m) c.1.self.client) c.1)
      update_with (put_world L c.0.impl done.1)
      pure done.0

    unfoldable pub js_client_get_name : Ptr → Act ⊥ (Machine L) (List ℕ)
    unfolding client_of
    js_client_get_name self = do
      c ← client_of self
      gets (λ m. E.name_of (jack L m) c.1.self.client)

    unfoldable pub js_client_get_transport_state : Ptr → Act ⊥ (Machine L) ℕ
    unfolding client_of
    js_client_get_transport_state self = do
      c ← client_of self
      gets (λ m. E.transport (jack L m) c.1.self.client)

    unfoldable pub js_client_recompute_latencies : Ptr → Act ⊥ (Machine L) (Unit {0})
    unfolding client_of
    js_client_recompute_latencies self = do
      c ← client_of self
      rc ← gets (λ m. E.recompute (jack L m) c.1.self.client)
      modify (λ m. record m { errors = recompute_latencies L rc m.errors })
