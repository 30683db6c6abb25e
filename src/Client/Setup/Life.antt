-- ===== src/Client/Setup/Life.antt =====
-- JacksRbClient.c: a new client, its activation, and its end.
use jacks.Prelude.{
  ℕ, ◌≡◌, refl, true, [], ◌∷◌, ◌++◌, none, some, ℤ, minus_one, ◌==◌, if◌then◌else◌, arith,
}
use jacks.Memory.{ok, Ptr, load}
use jacks.Libraries.{Libs}
use jacks.Latch
use jacks.Latch.{Latch, not_posted}
use jacks.Event
use jacks.Client.State.{
  default_rb_size, yes_int, no_int, set_process_callback, activate_client, on_shutdown,
  set_sample_rate_callback, set_session_callback, set_error_function, JsEvent, Objects, World,
}
use jacks.Client.Setup.{Rooms, new, activate}
use jacks.Client.Callbacks.Wired.{IsWired}
use jacks.Client.Callbacks.Live.{IsLive}

abbrev pub all_rooms : Rooms
all_rooms = record {
  client_room = true;
  ports_room = true;
  process_room = true;
  latch_room = true;
  session_room = true;
  sample_rate_room = true;
  shutdown_room = true;
}

-- An event that is completed by nothing, and the session event.
abbrev pub bare_event : ℕ → JsEvent
bare_event t = record { etype = t; payload = none; ctoken = none; ctoken_arg = none }

abbrev pub session_event : Ptr → JsEvent
session_event latch = record {
  etype = 1;
  payload = none;
  ctoken = some Latch.post;
  ctoken_arg = latch;
}

module _ (L : Libs) where
  open L.queues use {Queue, entries, limit, queue_new, new_empty, new_limit}

  -- The ring size that a client gets.
  abbrev pub size_of : ℕ → ℕ
  size_of n = if n == 0 then default_rb_size else n

  -- A client straight from the constructor.
  pub record IsNew (n : ℕ) (w : World L) : Type 0 where
    pub live : IsLive L w
    pub wired : IsWired L w
    pub empty : entries live.queue ≡ []
    pub size : limit live.queue ≡ w.self.rb_size
    pub sized : w.self.rb_size ≡ size_of n
    pub idle : wired.latch.status ≡ not_posted
    pub portless : w.self.nports ≡ 0
    pub inactive : w.self.activated ≡ no_int
    pub one_post : w.self.mutex ≡ 1

  -- The four events of a new client, and that completing any but the session event does nothing.
  pub record HasEvents (w : World L) : Type 0 where
    pub on_process : load w.objects.events w.self.process_event ≡ ok (bare_event 0)
    pub on_session :
        load w.objects.events w.self.session_event ≡ ok (session_event w.self.session_latch)
    pub on_sample_rate : load w.objects.events w.self.sample_rate_event ≡ ok (bare_event 3)
    pub on_shutdown_event : load w.objects.events w.self.shutdown_event ≡ ok (bare_event 4)

  -- With memory, a server and a queue, the constructor gives a client that is ready to run: an empty
  -- queue as long as the ring size (16384 for 0), the latch of the session event not posted, no
  -- port, and four events of four different types, of which only the session event is completed by
  -- a post of the latch. JACK is given four callbacks.
  pub new_lem :
      (o : Objects L) (h n : ℕ) {q : Queue}
      → queue_new (size_of n) ≡ some q
      → (w : World L) × (new L all_rooms (some h) n o ≡ ok w)
        × IsNew n w
        × HasEvents w
        × (w.objects.calls
            ≡ o.calls
              ++ (on_shutdown ∷ set_sample_rate_callback ∷ set_session_callback ∷ set_error_function
                  ∷ []))
  unfolding new Event.new Latch.new
  new_lem o h n {q} made = (
    _,
    refl,
    record {
      live = record {
        queue = q;
        array = [];
        has_queue = made;
        has_array = refl;
        counted = refl;
        ready = tt;
      };
      wired = record {
        event = record {
          etype = 1;
          payload = none;
          ctoken = some Latch.post;
          ctoken_arg = some o.latches.fresh;
        };
        latch = record { status = not_posted };
        queue = q;
        event_live = ground arith;
        latch_live = ground arith;
        token = refl;
        target = refl;
        has_queue = made;
      };
      empty = new_empty (size_of n) made;
      size = new_limit (size_of n) made;
      sized = refl;
      idle = refl;
      portless = refl;
      inactive = refl;
      one_post = refl;
    },
    record {
      on_process = ground arith;
      on_session = ground arith;
      on_sample_rate = ground arith;
      on_shutdown_event = ground arith;
    },
    refl,
  )

  -- On a client that is not yet active, activating with audio gives JACK the process callback and
  -- then activates; from then on every call returns -1 and does nothing, also if JACK's answer `rc`
  -- was a failure. Activating without audio leaves no mark: the next call activates again.
  pub activate_lem :
      (w : World L) (rc sc : ℤ) (audio : ℕ)
      → w.self.activated ≡ no_int
      → let (r, u) = activate L yes_int rc w in
        let (r', u') = activate L no_int rc w in
        (r ≡ rc)
        × (u.objects.calls ≡ w.objects.calls ++ (set_process_callback ∷ activate_client ∷ []))
        × (activate L audio sc u ≡ (minus_one, u))
        × (r' ≡ rc)
        × (u'.objects.calls ≡ w.objects.calls ++ (activate_client ∷ []))
        × ((activate L yes_int sc u').0 ≡ sc)
  unfolding activate
  activate_lem w rc sc audio h = ground arith
