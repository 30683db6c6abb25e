-- ===== src/Lua/Delivery.antt =====
-- modules/lua/Jacks_lua_wrap.c over corelib/JacksRbClient.c: an event that a callback queued, given to the
-- script.
use jacks.Prelude.{ℕ, suc, ◌<◌, ◌≡◌, refl, ◌∙◌, ap, Bool, false, [], ◌∷◌, ◌++◌, some, length, arith}
use jacks.Memory.{ok, Ptr, alloc}
use jacks.Memory.Access.{IsAt, saved, save_lem, load-saved}
use jacks.Libraries.{Libs}
use jacks.Exceptions.{clear_exception, check_exception}
use jacks.Client.State.{Client, World}
use jacks.Client.Events.{get_event, delivered}
use jacks.Client.Events.Waiting.{get_event-delivers, requeued}
use jacks.Lua.Values.{LuaLib, number, userdata, client, event, Method, swig_convert_ptr}
use jacks.Lua.Act.{ret}
use jacks.Lua.Machine.{Machine, Env, ClientBox, put_world}
use jacks.Lua.Functions.Clients.{js_client_get_event, client_of, hold_event}
use jacks.Lua.Wrappers.Clients.{wrap_js_client_get_event}
use jacks.Lua.Checks.{check_num_args, check_ptr_type, check_number, convert_ptr, protect, rethrow}
use jacks.Lua.Dispatch.{call}

module _ (L : Libs) (Q : LuaLib) (E : Env L) where
  -- The memory after an event was given to the script.
  abbrev pub handed : Machine L → Ptr → Ptr → World L → Machine L
  handed m i e w = record m {
    clients = saved m.clients i w.self;
    objects = w.objects;
    events = (alloc m.events (some (record { impl = e }))).1;
    errors = clear_exception m.errors;
  }

  get_event-handed :
      (m : Machine L) (c : ℕ) (own : Bool) (x : Q.Number) (box : ClientBox) (self : Client L)
      (e : Ptr) (w : World L)
      → IsAt m.boxes (some c) box
      → IsAt m.clients box.impl self
      → get_event L (suc self.mutex) (record { self = self; objects = m.objects })
        ≡ ok (delivered e w)
      → call L Q E Method.get_event (userdata client c own ∷ number x ∷ []) m
        ≡ ret (userdata event m.events.fresh false ∷ []) (handed m box.impl e w)
  unfolding call wrap_js_client_get_event js_client_get_event client_of hold_event check_num_args
      check_ptr_type check_number convert_ptr swig_convert_ptr protect rethrow clear_exception
      check_exception
  get_event-handed m c own x box self e w h1 h2 h3 =
      rw (h1, h2, h3, save_lem m.clients box.impl self w.self h2) refl

  -- The memory with a client's world after a callback.
  abbrev pub stored_world : Machine L → Ptr → World L → Machine L
  stored_world m i w = record m { clients = saved m.clients i w.self; objects = w.objects }

  -- An event that a callback put in an empty queue is the one that the script gets.
  pub get_event-stored_world :
      (m : Machine L) (c : ℕ) (own : Bool) (x : Q.Number) (box : ClientBox) (self : Client L)
      (w : World L) (q : L.queues.Queue) (e : Ptr)
      → IsAt m.boxes (some c) box
      → IsAt m.clients box.impl self
      → w.self.event_queue ≡ some (L.queues.enqueue q e).1
      → L.queues.entries q ≡ []
      → 0 < L.queues.limit q
      → (q' : L.queues.Queue) × (put_world L box.impl w m ≡ ok (stored_world m box.impl w))
        × (call L Q E Method.get_event
              (userdata client c own ∷ number x ∷ [])
              (stored_world m box.impl w)
            ≡ ret
                (userdata event m.events.fresh false ∷ [])
                (handed (stored_world m box.impl w) box.impl e (requeued L w q')))
  get_event-stored_world m c own x box self w q e h1 h2 h3 h4 h5 =
      let (q', got, _) =
        get_event-delivers L (suc w.self.mutex) w (L.queues.enqueue q e).1 e [] (omega arith) h3 (
          (L.queues.enqueue_room q e (omega (arith, ap length h4))).1
          ∙ ap (λ t. t ++ (e ∷ [])) h4) in
      (
        q',
        rw (save_lem m.clients box.impl self w.self h2) refl,
        get_event-handed (stored_world m box.impl w) c own x box w.self e (requeued L w q') h1
            (load-saved m.clients box.impl self w.self h2) got,
      )
