-- ===== src/Client/State.antt =====
-- corelib/JacksRbClient.h and the struct of JacksRbClient.c, with the objects that it points to.
use jacks.Prelude.{ℕ, suc, List, ◌++◌, Option, none, some}
use jacks.Memory.{assert_failed, Outcome, ok, fault, ◌>>=◌, Ptr, Store}
use jacks.Libraries.{Libs}
use jacks.Latch.{Latch}
use jacks.Event.{Event}
use jacks.Port.{Port}

-- `enum JACKSCRIPT_EVENT_TYPE`, with C's numbering
pub data EventType : Type 0 where
  process session err sample_rate_change shutdown : EventType

abbrev pub event_code : EventType → ℕ
event_code process = 0
event_code session = 1
event_code err = 2
event_code sample_rate_change = 3
event_code shutdown = 4

abbrev pub max_ports : ℕ
max_ports = 999

abbrev pub default_rb_size : ℕ
default_rb_size = 16384

-- `YES` and `NO`
abbrev pub yes_int : ℕ
yes_int = 1

abbrev pub no_int : ℕ
no_int = 0

-- The calls of JACK that return nothing, or an answer that the model takes as an argument.
pub data Call : Type 0 where
  on_shutdown set_sample_rate_callback set_session_callback set_error_function : Call
  set_process_callback activate_client client_close : Call
  session_reply session_event_free : Ptr → Call

-- Completion callbacks change latches.
abbrev pub JsEvent : Type 0
JsEvent = Event (Store Latch)

module _ (L : Libs) where
  -- `struct jacks_rb_client_T`. `ports` is `none` where the array was not allocated, and otherwise
  -- holds what was stored in its `max_ports` places; `mutex` is the count of the semaphore.
  pub record Client : Type 0 where
    pub ports : Option (List Ptr)
    pub nports : ℕ
    pub rb_size : ℕ
    pub client : Ptr
    pub event_queue : Option L.queues.Queue
    pub mutex : ℕ
    pub process_event : Ptr
    pub session_event : Ptr
    pub session_latch : Ptr
    pub sample_rate_event : Ptr
    pub shutdown_event : Ptr
    pub activated : ℕ

  -- What the C heap holds, the JACK server, and the calls made of it, oldest first.
  pub record Objects : Type 0 where
    pub events : Store JsEvent
    pub latches : Store Latch
    pub rb_ports : Store (Port L.rings.Ring)
    pub server : L.jack.Server
    pub calls : List Call

  pub record World : Type 0 where
    pub self : Client
    pub objects : Objects

  abbrev pub called : Objects → List Call → Objects
  called o cs = record o { calls = o.calls ++ cs }

  -- The queue asserts that it is not NULL.
  abbrev pub the_queue : Option L.queues.Queue → Outcome L.queues.Queue
  the_queue none = fault assert_failed
  the_queue (some q) = ok q

  -- `queue_enqueue(_this_->event_queue, event)`
  unfoldable pub enqueue_event : World → Ptr → Outcome (ℕ × World)
  enqueue_event w e = do
    q ← the_queue w.self.event_queue
    let put = L.queues.enqueue q e
    ok (put.0, record w { self = record (w.self) { event_queue = some put.1 } })

  -- `sem_post(&_this_->mutex)`
  unfoldable pub post_mutex : World → World
  post_mutex w = record w { self = record (w.self) { mutex = suc w.self.mutex } }
