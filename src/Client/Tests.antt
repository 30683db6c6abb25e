-- ===== src/Client/Tests.antt =====
-- JacksRbClient.c on a small client.
use jacks.Prelude.{
  ℕ, zero, suc, length-replicate, ◌≡◌, refl, [], ◌∷◌, some, none, pos, minus_one, arith, replicate,
}
use jacks.Memory.{ok, Ptr}
use jacks.Memory.Access.{saved}
use jacks.Latch.{not_posted}
use jacks.Samples.{Line, malloc, libs}
use jacks.Client.State.{
  World, yes_int, no_int, session_reply, session_event_free, on_shutdown, set_sample_rate_callback,
  set_session_callback, set_error_function, set_process_callback, activate_client,
}
use jacks.Client.Callbacks.{
  process_cb, shutdown_cb, sample_rate_change_cb, session_begin, session_end, complete_at,
}
use jacks.Client.Callbacks.Live.{AllReady, IsLive}
use jacks.Client.Callbacks.Process.{Ran, process_cb_lem}
use jacks.Client.Callbacks.Session.{Handshake, session_waits_then_replies, session_replies_early}
use jacks.Client.Callbacks.Lost.{announced, announce_full}
use jacks.Client.State.{enqueue_event}
use jacks.Client.Threads.{
  posting, waiting, idle, System, Reach, start, later, call, inside, miss, put,
}
use jacks.Client.Threads.Delivery.{Inv, Reach-Inv}
use jacks.Client.Threads.Progress.{Delivers, sleeper_is_served}
use jacks.Client.Events.{dequeue_event}
use jacks.Client.Events.{get_event, delivered, waits, no_fuel}
use jacks.Client.Events.Waiting.{requeued, get_event-delivers, get_event-waits}
use jacks.Client.Setup.{new, activate}
use jacks.Client.Setup.Life.{
  bare_event, session_event, all_rooms, IsNew, HasEvents, new_lem, activate_lem,
}
use jacks.Client.Setup.Register.{Registered, register_port_lem}
use jacks.Client.Setup.Free.{HasObjects}
use jacks.Client.Samples.{four_events, one_port, no_objects, client, live, wired}

process_cb_lem_example :
    (run : Ran libs 1 0 1 (client [] 2) (live [] 2)) × (process_cb libs 1 (client [] 2)
      ≡ ok (run.rc, run.after))
process_cb_lem_example = process_cb_lem libs 1 (client [] 2) (live [] 2) (omega arith)

session_waits_then_replies_example : Handshake libs (client [] 2) (wired [] 2) (some 9)
session_waits_then_replies_example =
    session_waits_then_replies libs (client [] 2) (wired [] 2) (some 9) refl

session_replies_early_example :
    (w1 w2 w3 : World libs) × (complete_at libs (some 1) (client [] 2) ≡ ok w1)
    × (session_begin libs (some 9) w1 ≡ ok w2)
    × (session_end libs (some 9) w2 ≡ ok (some w3))
    × (w3.objects.calls ≡ session_reply (some 9) ∷ session_event_free (some 9) ∷ [])
session_replies_early_example = session_replies_early libs (client [] 2) (wired [] 2) (some 9)

announce_full_example :
    (s r : Line) × (shutdown_cb libs (client (some 0 ∷ []) 0)
      ≡ ok (announced libs (client (some 0 ∷ []) 0) s))
    × (s.line ≡ some 0 ∷ [])
    × (sample_rate_change_cb libs 4 (client (some 0 ∷ []) 0)
        ≡ ok (pos 0, announced libs (client (some 0 ∷ []) 0) r))
    × (r.line ≡ some 0 ∷ [])
announce_full_example =
    announce_full libs (client (some 0 ∷ []) 0) (record { line = some 0 ∷ []; places = 0 }) 4 refl
      (omega arith)

get_event-delivers_example :
    (q : Line) × (get_event libs 1 (client (some 3 ∷ some 2 ∷ []) 0)
      ≡ ok (delivered (some 3) (requeued libs (client (some 3 ∷ some 2 ∷ []) 0) q)))
    × (q.line ≡ some 2 ∷ [])
get_event-delivers_example =
    get_event-delivers libs 1 (client (some 3 ∷ some 2 ∷ []) 0)
      (record { line = some 3 ∷ some 2 ∷ []; places = 0 }) (some 3) (some 2 ∷ []) (omega arith) refl
      refl

get_event-waits_example :
    (q : Line) × (get_event libs 2 (client [] 2)
      ≡ ok (
          waits (record (client [] 2) {
            self = record ((client [] 2).self) { event_queue = some q; mutex = 0 };
          })))
    × (q.line ≡ [])
    × (get_event libs 1 (client [] 2) ≡ ok no_fuel)
get_event-waits_example =
    get_event-waits libs 2 1 (client [] 2) (record { line = []; places = 2 }) (omega arith)
      (omega arith) refl refl

new_lem_example :
    (w : World libs) × (new libs all_rooms (some 3) 2 no_objects ≡ ok w)
    × IsNew libs 2 w
    × HasEvents libs w
    × (w.objects.calls
        ≡ on_shutdown ∷ set_sample_rate_callback ∷ set_session_callback ∷ set_error_function ∷ [])
new_lem_example = new_lem libs no_objects 3 2 refl

activate_lem_example :
    let (r, u) = activate libs yes_int (pos 0) (client [] 2) in
    let (r', u') = activate libs no_int (pos 0) (client [] 2) in
    (r ≡ pos 0)
    × (u.objects.calls ≡ set_process_callback ∷ activate_client ∷ [])
    × (activate libs 0 (pos 5) u ≡ (minus_one, u))
    × (r' ≡ pos 0)
    × (u'.objects.calls ≡ activate_client ∷ [])
    × ((activate libs yes_int (pos 5) u').0 ≡ pos 5)
activate_lem_example = activate_lem libs (client [] 2) (pos 0) (pos 5) 0 refl

register_port_lem_example : Registered libs malloc 0 (b'o' ∷ []) 2 (client [] 2) (live [] 2)
register_port_lem_example =
    register_port_lem libs malloc 0 (b'o' ∷ []) 2 (client [] 2) (live [] 2) (λ k h. ground arith)
      refl refl refl (omega arith) (omega arith) refl

-- The one port, entered 999 times.
abbrev full_client : World libs
full_client = record (client [] 2) {
  self = record ((client [] 2).self) { ports = some (replicate 999 (some 0)); nports = 999 };
}

replicate-AllReady : (n : ℕ) → AllReady libs one_port (replicate n (some 0))
replicate-AllReady zero = tt
replicate-AllReady (suc n) = ((live [] 2).ready.0, replicate-AllReady n)

full_live : IsLive libs full_client
full_live = record {
  queue = record { line = []; places = 2 };
  array = replicate 999 (some 0);
  has_queue = refl;
  has_array = refl;
  counted = length-replicate {A = Ptr} 999 (some 0);
  ready = replicate-AllReady 999;
}

-- A client that waits for the answer to a session event.
abbrev pending : World libs
pending = record (client [] 2) {
  objects = record ((client [] 2).objects) {
    events = saved four_events (some 1) (record (session_event (some 0)) { payload = some 9 });
  };
}

abbrev whole : HasObjects libs pending
whole = record {
  process_at = bare_event 0;
  session_at = record (session_event (some 0)) { payload = some 9 };
  sample_rate_at = bare_event 3;
  shutdown_at = bare_event 4;
  latch_at = record { status = not_posted };
  on_process = refl;
  on_session = refl;
  on_sample_rate = refl;
  on_shutdown = refl;
  on_latch = refl;
  process_typed = refl;
  session_typed = refl;
  sample_rate_typed = refl;
  shutdown_typed = refl;
}

-- Two threads, in the state where one sleeps and the other has queued an event.
abbrev put_one : System libs
put_one = record {
  world = client (some 0 ∷ []) 1;
  threads = posting ∷ waiting ∷ [];
  accepted = some 0 ∷ [];
  got = [];
}

put_one-Reach : Reach libs put_one
unfolding dequeue_event enqueue_event
put_one-Reach =
    later
      (later
        (later
          (start (client [] 2) (record { line = []; places = 2 }) (idle ∷ idle ∷ []) refl refl
            (refl, (refl, tt)))
          (call (idle ∷ []) [] refl))
        (inside (miss (idle ∷ []) [] none (client [] 2) refl refl)))
      (put [] (waiting ∷ []) (some 0) (client (some 0 ∷ []) 1) refl refl)

Reach-Inv_example : Inv libs put_one
Reach-Inv_example = Reach-Inv libs put_one-Reach

sleeper_is_served_example : Delivers libs put_one (some 0)
sleeper_is_served_example =
    sleeper_is_served libs put_one-Reach (record { line = some 0 ∷ []; places = 1 }) (some 0) []
      refl refl (posting ∷ [], [], refl)
