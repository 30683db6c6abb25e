-- ===== src/Lua/Opening.antt =====
-- modules/lua/Jacks_lua_wrap.c over corelib/JacksRbClient.c: a script that opens a client, registers
-- a port and activates.
use jacks.Prelude.{ℕ, ◌≡◌, refl, Bool, true, false, List, [], ◌∷◌, ◌++◌, none, some, arith}
use jacks.Memory.{ok, Ptr, alloc}
use jacks.Memory.Access.{IsAt, saved, save_lem, update_self}
use jacks.Libraries.{Libs}
use jacks.Latch.{not_posted}
use jacks.Latch
use jacks.Event
use jacks.Exceptions.{clear_exception, check_exception}
use jacks.Client.State.{
  Client, Objects, World, no_int, yes_int, on_shutdown, set_sample_rate_callback,
  set_session_callback, set_error_function, set_process_callback, activate_client, called,
}
use jacks.Client.Setup.{new, register_port, activate}
use jacks.Client.Setup.Life.{all_rooms, bare_event, session_event, size_of}
use jacks.Lua.Values.{
  LuaLib, nil, number, text, userdata, client, port, Method, swig_convert_ptr, before_nul,
}
use jacks.Lua.Act.{ret}
use jacks.Lua.Machine.{Machine, Env, ClientBox}
use jacks.Lua.Functions.Clients.{
  client_of, new_js_client, js_client_register_port, js_client_activate,
}
use jacks.Lua.Wrappers.Clients.{
  wrap_new_js_client, wrap_js_client_register_port, wrap_js_client_activate,
}
use jacks.Lua.Checks.{
  check_num_args, check_ptr_type, check_number, check_string, convert_ptr, assert_non_negative,
  arg_string, protect, rethrow,
}
use jacks.Lua.Dispatch.{call}

module _ (L : Libs) where
  open L.queues use {Queue, queue_new}

  -- A client straight from the constructor, and what JACK was given.
  pub record IsOpened (h n : ℕ) (o : Objects L) (q : Queue) (w : World L) : Type 0 where
    pub no_ports : w.self.ports ≡ some []
    pub portless : w.self.nports ≡ 0
    pub sized : w.self.rb_size ≡ size_of L n
    pub has_queue : w.self.event_queue ≡ some q
    pub handle : w.self.client ≡ some h
    pub inactive : w.self.activated ≡ no_int
    pub on_process : IsAt w.objects.events w.self.process_event (bare_event 0)
    pub on_session : IsAt w.objects.events w.self.session_event (session_event w.self.session_latch)
    pub on_latch : IsAt w.objects.latches w.self.session_latch (record { status = not_posted })
    pub calls :
        w.objects.calls
        ≡ o.calls
          ++ (on_shutdown ∷ set_sample_rate_callback ∷ set_session_callback ∷ set_error_function
              ∷ [])

  pub opened :
      (o : Objects L) (h n : ℕ) (q : Queue)
      → queue_new (size_of L n) ≡ some q
      → (w : World L) × (new L all_rooms (some h) n o ≡ ok w) × IsOpened h n o q w
  unfolding new Event.new Latch.new
  opened o h n q made = (
    _,
    refl,
    record {
      no_ports = refl;
      portless = refl;
      sized = refl;
      has_queue = made;
      handle = refl;
      inactive = refl;
      on_process = ground arith;
      on_session = ground arith;
      on_latch = ground arith;
      calls = refl;
    },
  )

module _ (L : Libs) (Q : LuaLib) (E : Env L) where
  -- The memory after `JsClient(name, nil, x, y)`.
  abbrev pub after_new : Machine L → List ℕ → World L → Machine L
  after_new m name w = record m {
    texts = (alloc m.texts (some (before_nul name))).1;
    clients = (alloc m.clients (some w.self)).1;
    boxes =
        (alloc m.boxes (some (record { impl = some m.clients.fresh; process_audio = no_int }))).1;
    objects = w.objects;
    errors = clear_exception m.errors;
  }

  pub new_client-opened :
      (m : Machine L) (name : List ℕ) (x y : Q.Number) (w : World L)
      → Q.non_negative y ≡ true
      → new L E.rooms
          (E.client_open (some (before_nul name)) none (Q.to_int x))
          (Q.to_unsigned y)
          m.objects
        ≡ ok w
      → call L Q E Method.new_client (text name ∷ nil ∷ number x ∷ number y ∷ []) m
        ≡ ret (userdata client m.boxes.fresh true ∷ []) (after_new m name w)
  unfolding call wrap_new_js_client new_js_client check_num_args check_string check_number
      arg_string assert_non_negative protect rethrow clear_exception check_exception
  new_client-opened m name x y w h1 h2 =
      rw (h1, update_self m.texts.cell m.texts.fresh (some (before_nul name)), h2) refl

  -- The memory after a call of a client at `c` that leaves its world as `w`.
  abbrev pub after_call : Machine L → ℕ → World L → Machine L
  after_call m address w = record m {
    clients = saved m.clients (some address) w.self;
    objects = w.objects;
    errors = clear_exception m.errors;
  }

  -- The memory after `c:registerPort(name, z)`.
  abbrev pub after_register : Machine L → ℕ → ℕ → List ℕ → Ptr → World L → Machine L
  after_register m c address name a w = record (after_call m address w) {
    texts = (alloc m.texts (some (before_nul name))).1;
    ports = (alloc m.ports (some (record { impl = a; clientimpl = some address }))).1;
    boxes = saved m.boxes (some c) (record { impl = some address; process_audio = yes_int });
  }

  pub register_port-registered :
      (m : Machine L) (c address : ℕ) (own : Bool) (name : List ℕ) (z : Q.Number) (box : ClientBox)
      (self : Client L) (a : Ptr) (w : World L)
      → IsAt m.boxes (some c) box
      → box.impl ≡ some address
      → IsAt m.clients (some address) self
      → Q.non_negative z ≡ true
      → register_port L E.memory address
          (before_nul name)
          (Q.to_unsigned_long z)
          (record { self = self; objects = m.objects })
        ≡ ok (a, w)
      → call L Q E Method.register_port (userdata client c own ∷ text name ∷ number z ∷ []) m
        ≡ ret (userdata port m.ports.fresh false ∷ []) (after_register m c address name a w)
  unfolding call wrap_js_client_register_port js_client_register_port client_of check_num_args
      check_ptr_type check_string check_number convert_ptr swig_convert_ptr arg_string
      assert_non_negative protect rethrow clear_exception check_exception
  register_port-registered m c address own name z box self a w h1 h2 h3 h4 h5 =
      rw
        (
          h4,
          h1,
          h2,
          h3,
          update_self m.texts.cell m.texts.fresh (some (before_nul name)),
          h5,
          save_lem m.clients (some address) self w.self h3,
          save_lem m.boxes (some c) box (record { impl = some address; process_audio = yes_int })
              h1,
        )
        refl

  pub activate-activated :
      (m : Machine L) (c address : ℕ) (own : Bool) (self : Client L)
      → IsAt m.boxes (some c) (record { impl = some address; process_audio = yes_int })
      → IsAt m.clients (some address) self
      → self.activated ≡ no_int
      → call L Q E Method.activate (userdata client c own ∷ []) m
        ≡ ret (number (Q.of_int (E.client_activate m.objects.server self.client)) ∷ []) (
            after_call m address (record {
              self = record self { activated = yes_int };
              objects = called L m.objects (set_process_callback ∷ activate_client ∷ []);
            }))
  unfolding call wrap_js_client_activate js_client_activate client_of activate check_num_args
      check_ptr_type convert_ptr swig_convert_ptr protect rethrow clear_exception check_exception
  activate-activated m c address own self h1 h2 h3 =
      rw
        (
          h1,
          h2,
          h3,
          save_lem m.clients (some address) self (record self { activated = yes_int }) h2,
        )
        refl
