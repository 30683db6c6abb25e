-- ===== src/Client/Threads.antt =====
-- JacksRbClient.c: the queue and the semaphore between any number of threads, some of JACK's in the
-- callbacks and some of the program's in `JacksRbClient_get_event`, a shared access at a time.
pub mod Moves
pub mod Delivery
pub mod Progress
use jacks.Prelude.{ℕ, ◌≡◌, ◌≢◌, List, [], ◌∷◌, ◌++◌, some, Option}
use jacks.Memory.{Outcome, ok, Ptr}
use jacks.Libraries.{Libs}
use jacks.Client.State.{Client, World, enqueue_event, post_mutex}
use jacks.Client.Events.{dequeue_event, wait_mutex}

-- Where a thread stands: outside, or between two rounds of `_process_cb`; between `queue_enqueue` and `sem_post`; before `queue_dequeue`;
-- before or in `sem_wait`.
pub data Pc : Type 0 where
  idle posting trying waiting : Pc

-- The other threads stay where they are.
abbrev pub move : List Pc → Pc → List Pc → List Pc
move before p after = before ++ (p ∷ after)

-- All threads are outside.
abbrev pub AllIdle : List Pc → Type 0
AllIdle [] = Unit {0}
AllIdle (p ∷ ps) = (p ≡ idle) × AllIdle ps

module _ (L : Libs) where
  -- `accepted` and `got` record the events that the queue took, and those that were delivered.
  pub record System : Type 0 where
    pub world : World L
    pub threads : List Pc
    pub accepted : List Ptr
    pub got : List Ptr

  -- The steps of threads that are already inside a call.
  pub data Inside (s : System) : System → Type 0 where
    post :
        (before after : List Pc)
        → s.threads ≡ move before posting after
        → Inside s (record s { world = post_mutex L s.world; threads = move before idle after })
    take :
        (before after : List Pc) (n : ℕ) (e : Ptr) (w : World L)
        → s.threads ≡ move before trying after
        → dequeue_event L s.world ≡ ok (n, e, w)
        → n ≢ 0
        → Inside s
            (record s { world = w; threads = move before idle after; got = s.got ++ (e ∷ []) })
    miss :
        (before after : List Pc) (e : Ptr) (w : World L)
        → s.threads ≡ move before trying after
        → dequeue_event L s.world ≡ ok (0, e, w)
        → Inside s (record s { world = w; threads = move before waiting after })
    wait :
        (before after : List Pc) (w : World L)
        → s.threads ≡ move before waiting after
        → wait_mutex L s.world ≡ some w
        → Inside s (record s { world = w; threads = move before trying after })

  pub data Step (s : System) : System → Type 0 where
    inside : {t : System} → Inside s t → Step s t
    -- A call of `JacksRbClient_get_event`.
    call :
        (before after : List Pc)
        → s.threads ≡ move before idle after
        → Step s (record s { threads = move before trying after })
    -- `queue_enqueue` in a callback, with room in the queue.
    put :
        (before after : List Pc) (e : Ptr) (w : World L)
        → s.threads ≡ move before idle after
        → enqueue_event L s.world e ≡ ok (1, w)
        → Step s (record s {
          world = w;
          threads = move before posting after;
          accepted = s.accepted ++ (e ∷ []);
        })
    -- With none, the process callback stops, and the others go on to `sem_post`.
    refused :
        (before after : List Pc) (n : ℕ) (e : Ptr) (w : World L)
        → s.threads ≡ move before idle after
        → enqueue_event L s.world e ≡ ok (n, w)
        → n ≢ 1
        → Step s (record s { world = w; threads = move before idle after })
    ignored :
        (before after : List Pc) (n : ℕ) (e : Ptr) (w : World L)
        → s.threads ≡ move before idle after
        → enqueue_event L s.world e ≡ ok (n, w)
        → n ≢ 1
        → Step s (record s { world = w; threads = move before posting after })

  -- Reachable from a client with an empty queue.
  pub data Reach : System → Type 0 where
    start :
        (w : World L) (q : L.queues.Queue) (ps : List Pc)
        → w.self.event_queue ≡ some q
        → L.queues.entries q ≡ []
        → AllIdle ps
        → Reach (record { world = w; threads = ps; accepted = []; got = [] })
    later : {s t : System} → Reach s → Step s t → Reach t
