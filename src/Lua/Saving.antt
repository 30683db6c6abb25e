-- ===== src/Lua/Saving.antt =====
-- modules/lua/Jacks_lua_wrap.c over corelib/JacksRbClient.c and corelib/JacksLatch.c: a session event, from
-- JACK's callback to the script and back.
use jacks.Prelude.{ℕ, ◌<◌, ◌≡◌, refl, Bool, false, [], ◌∷◌, ◌++◌, none, some, pos}
use jacks.Memory.{ok, Ptr, Store}
use jacks.Memory.Access.{IsAt, saved, save_lem, load-saved, load-alloc_self}
use jacks.Libraries.{Libs}
use jacks.Exceptions.{Exceptions, clear_exception, check_exception}
use jacks.Latch.{Latch, not_posted, posted}
use jacks.Latch
use jacks.Event.{complete, set_data, get_data}
use jacks.Client.State.{
  Client, World, JsEvent, EventType, event_code, session_reply, session_event_free,
}
use jacks.Client.Callbacks.{session_begin, session_end}
use jacks.Client.Callbacks.Wired.{
  IsWired, begun, session_begin_lem, begun-IsWired, ended, session_end_waits, session_end_replies,
}
use jacks.Client.Events.Waiting.{requeued}
use jacks.Api.Events.{SessionEvent, throw_if_null, session_of, session_type}
use jacks.Lua.Values.{LuaLib, number, userdata, client, event, Method, int_of, swig_convert_ptr}
use jacks.Lua.Act.{ret}
use jacks.Lua.Machine.{Machine, Env, ClientBox, put_world, world_at}
use jacks.Lua.Functions.Events.{event_of, js_event_complete, js_event_get_session_event_type}
use jacks.Lua.Wrappers.Events.{wrap_js_event_complete, wrap_js_event_get_session_event_type}
use jacks.Lua.Checks.{check_num_args, check_ptr_type, convert_ptr, protect, rethrow}
use jacks.Lua.Dispatch.{call}
use jacks.Lua.Constants.{Constant, constant_value, get_type_lem}
use jacks.Lua.Delivery.{handed, stored_world, get_event-stored_world}

quiet :
    (s : Store SessionEvent) (a : Ptr) (se : SessionEvent) (x : Exceptions)
    → IsAt s a se
    → throw_if_null a x ≡ x
quiet s none se x h = cc
quiet s (some a) se x h = refl

module _ (L : Libs) (Q : LuaLib) (E : Env L) where
  session_type-pushed :
      (m : Machine L) (p : ℕ) (impl : Ptr) (e : JsEvent) (se : SessionEvent)
      → IsAt m.events (some p) (record { impl = impl })
      → IsAt m.objects.events impl e
      → IsAt m.sessions e.payload se
      → call L Q E Method.get_session_event_type (userdata event p false ∷ []) m
        ≡ ret
            (number (Q.of_int (int_of se.stype)) ∷ [])
            (record m { errors = clear_exception m.errors })
  unfolding call wrap_js_event_get_session_event_type js_event_get_session_event_type event_of
      session_type session_of get_data check_num_args check_ptr_type convert_ptr swig_convert_ptr
      protect rethrow clear_exception check_exception
  session_type-pushed m p impl e se h1 h2 h3 =
      rw (h1, h2, quiet m.sessions e.payload se (clear_exception m.errors) h3, h3) refl

  -- The memory after a latch was posted by the script.
  abbrev pub answered : Machine L → Ptr → Machine L
  answered m a = record m {
    objects = record (m.objects) {
      latches = saved m.objects.latches a (record { status = posted });
    };
    errors = clear_exception m.errors;
  }

  complete-answered :
      (m : Machine L) (p : ℕ) (impl a : Ptr) (e : JsEvent) (l : Latch)
      → IsAt m.events (some p) (record { impl = impl })
      → IsAt m.objects.events impl e
      → e.ctoken ≡ some Latch.post
      → e.ctoken_arg ≡ a
      → IsAt m.objects.latches a l
      → call L Q E Method.complete (userdata event p false ∷ []) m ≡ ret [] (answered m a)
  unfolding call wrap_js_event_complete js_event_complete event_of complete Latch.post
      check_num_args check_ptr_type convert_ptr swig_convert_ptr protect rethrow clear_exception
      check_exception
  complete-answered m p impl a e l h1 h2 h3 h4 h5 =
      rw (h1, h2, h3, h4, h5, save_lem m.objects.latches a l (record { status = posted }) h5) refl

  -- A client of a script, at `c`, that waits for a session event: a live session event of the right
  -- type, whose latch is not posted, and an empty queue with room.
  pub record IsResponsive (m : Machine L) (c : ℕ) : Type 0 where
    pub box : ClientBox
    pub self : Client L
    pub wired : IsWired L (record { self = self; objects = m.objects })
    pub box_live : IsAt m.boxes (some c) box
    pub client_live : IsAt m.clients box.impl self
    pub right_type : wired.event.etype ≡ event_code EventType.session
    pub unanswered : wired.latch.status ≡ not_posted
    pub queue_empty : L.queues.entries wired.queue ≡ []
    pub queue_room : 0 < L.queues.limit wired.queue

  -- From JACK to the script and back, for a client that waits for a session event: when JACK sends
  -- one, the callback queues it and waits. The script's `c:getEvent()` gives an event,
  -- `e:getType()` pushes the constant SESSION, `e:getSessionEventType()` the type that JACK's event
  -- has, and `e:complete()` pushes nothing. Then the callback goes on, and JACK gets its reply and
  -- its event back, once each and in that order.
  pub session_reaches_script :
      (m : Machine L) (c : ℕ) (own : Bool) (x : Q.Number) (r : IsResponsive m c) (p : Ptr)
      (se : SessionEvent)
      → IsAt m.sessions p se
      → (w1 w2 w3 : World L) × (m1 n1 n2 n3 n4 : Machine L) × (e : ℕ) × (session_begin L p
            (record { self = r.self; objects = m.objects })
          ≡ ok w1)
        × (session_end L p w1 ≡ ok none)
        × (put_world L r.box.impl w1 m ≡ ok m1)
        × (call L Q E Method.get_event (userdata client c own ∷ number x ∷ []) m1
            ≡ ret (userdata event e false ∷ []) n1)
        × (call L Q E Method.get_type (userdata event e false ∷ []) n1
            ≡ ret (number (Q.of_int (pos (constant_value Constant.session))) ∷ []) n2)
        × (call L Q E Method.get_session_event_type (userdata event e false ∷ []) n2
            ≡ ret (number (Q.of_int (int_of se.stype)) ∷ []) n3)
        × (call L Q E Method.complete (userdata event e false ∷ []) n3 ≡ ret [] n4)
        × (world_at L n4 r.box.impl ≡ ok w2)
        × (session_end L p w2 ≡ ok (some w3))
        × (w3.objects.calls ≡ m.objects.calls ++ (session_reply p ∷ session_event_free p ∷ []))
  unfolding begun-IsWired set_data
  session_reaches_script m c own x r p se live =
      let box : ClientBox = r.box in
      let self : Client L = r.self in
      let w : World L = record { self = self; objects = m.objects } in
      let v : IsWired L w = r.wired in
      let w1 : World L = begun L w v p in
      let v1 : IsWired L w1 = begun-IsWired L w v p in
      let m1 : Machine L = stored_world L Q E m box.impl w1 in
      let (q', put, got) =
        get_event-stored_world L Q E m c own x box self w1 v.queue self.session_event r.box_live
          r.client_live refl r.queue_empty r.queue_room in
      let u : World L = requeued L w1 q' in
      let n1 : Machine L = handed L Q E m1 box.impl self.session_event u in
      let n2 : Machine L = record n1 { errors = clear_exception n1.errors } in
      let n3 : Machine L = record n2 { errors = clear_exception n2.errors } in
      let n4 : Machine L = answered n3 self.session_latch in
      let w2 : World L = record { self = u.self; objects = n4.objects } in
      let v2 : IsWired L w2 = record {
        event = v1.event;
        latch = record { status = posted };
        queue = q';
        event_live = v1.event_live;
        latch_live =
            load-saved m.objects.latches self.session_latch v.latch (record { status = posted })
              v.latch_live;
        token = v.token;
        target = v.target;
        has_queue = refl;
      } in
      let held : IsAt n1.events (some m.events.fresh) (record { impl = self.session_event }) =
        load-alloc_self m.events (record { impl = self.session_event }) in
      (
        w1,
        w2,
        ended L w2 v2 p,
        m1,
        n1,
        n2,
        n3,
        n4,
        m.events.fresh,
        session_begin_lem L w v p,
        session_end_waits L w1 v1 p r.unanswered,
        put,
        got,
        get_type_lem L Q E n1 m.events.fresh false (record { impl = self.session_event }) v1.event
            EventType.session held v1.event_live r.right_type,
        session_type-pushed n2 m.events.fresh self.session_event v1.event se held v1.event_live
            live,
        complete-answered n3 m.events.fresh self.session_event self.session_latch v1.event v.latch
            held v1.event_live v.token v.target v.latch_live,
        rw
            (load-saved m1.clients box.impl w1.self u.self
              (load-saved m.clients box.impl self w1.self r.client_live))
            refl,
        session_end_replies L w2 v2 p refl,
        refl,
      )
