-- ===== src/Client/Callbacks/Wired.antt =====
-- JacksRbClient.c: a client whose session event posts its latch, and the two halves of `_session_cb`.
use jacks.Prelude.{ℕ, suc, ◌≡◌, refl, [], ◌∷◌, none, some, arith, pos}
use jacks.Memory.{ok, Ptr}
use jacks.Memory.Access.{IsAt, saved, save_lem, load-saved}
use jacks.Libraries.{Libs}
use jacks.Latch.{Latch, not_posted, posted}
use jacks.Latch
use jacks.Event.{complete, set_data}
use jacks.Client.State.{
  JsEvent, World, called, session_reply, session_event_free, enqueue_event, post_mutex,
}
use jacks.Client.Callbacks.{put_data, session_begin, session_end, complete_at}

get-empty : (l : Latch) → l.status ≡ not_posted → Latch.get l ≡ none
unfolding Latch.get
get-empty l h = ground arith

get-posted :
    (l : Latch) → l.status ≡ posted → Latch.get l ≡ some (pos 0, record { status = not_posted })
unfolding Latch.get
get-posted l h = ground arith

module _ (L : Libs) where
  open L.queues use {Queue, entries, limit, enqueue, enqueue_room}

  -- The session event and its latch are live; completing the event posts that latch.
  pub record IsWired (w : World L) : Type 0 where
    pub event : JsEvent
    pub latch : Latch
    pub queue : Queue
    pub event_live : IsAt w.objects.events w.self.session_event event
    pub latch_live : IsAt w.objects.latches w.self.session_latch latch
    pub token : event.ctoken ≡ some Latch.post
    pub target : event.ctoken_arg ≡ w.self.session_latch
    pub has_queue : w.self.event_queue ≡ some queue

  -- The world with the session event's data, and the latch's status, set.
  abbrev pub with_data : (w : World L) → IsWired w → Ptr → World L
  with_data w v p = record w {
    objects = record (w.objects) {
      events = saved w.objects.events w.self.session_event (set_data v.event p);
    };
  }

  abbrev pub with_status : World L → ℕ → World L
  with_status w n = record w {
    objects = record (w.objects) {
      latches = saved w.objects.latches w.self.session_latch (record { status = n });
    };
  }

  pub put_data_lem :
      (w : World L) (v : IsWired w) (p : Ptr)
      → put_data L w w.self.session_event p ≡ ok (with_data w v p)
  unfolding put_data
  put_data_lem w v p = rw (
    v.event_live,
    save_lem w.objects.events w.self.session_event v.event (set_data v.event p) v.event_live,
  )

  -- Completing the session event posts the client's latch, and does nothing else.
  pub complete_lem :
      (w : World L) (v : IsWired w)
      → complete_at L w.self.session_event w ≡ ok (with_status w posted)
  unfolding complete_at complete Latch.post
  complete_lem w v = rw (
    v.event_live,
    v.token,
    v.target,
    v.latch_live,
    save_lem w.objects.latches w.self.session_latch v.latch (record { status = posted })
        v.latch_live,
  )

  -- A session callback sets the event's data, queues the event and posts the semaphore.
  abbrev pub begun : (w : World L) → IsWired w → Ptr → World L
  begun w v p =
      let u = with_data w v p in
      record u {
        self = record (u.self) {
          event_queue = some (enqueue v.queue w.self.session_event).1;
          mutex = suc u.self.mutex;
        };
      }

  pub session_begin_lem :
      (w : World L) (v : IsWired w) (p : Ptr) → session_begin L p w ≡ ok (begun w v p)
  unfolding session_begin enqueue_event post_mutex
  session_begin_lem w v p = rw (put_data_lem w v p, v.has_queue)

  -- After that the event and the latch are as live as before.
  unfoldable pub begun-IsWired : (w : World L) (v : IsWired w) (p : Ptr) → IsWired (begun w v p)
  unfolding set_data
  begun-IsWired w v p = record {
    event = set_data v.event p;
    latch = v.latch;
    queue = (enqueue v.queue w.self.session_event).1;
    event_live =
        load-saved w.objects.events w.self.session_event v.event (set_data v.event p) v.event_live;
    latch_live = v.latch_live;
    token = v.token;
    target = v.target;
    has_queue = refl;
  }

  abbrev pub status-IsWired : (w : World L) (v : IsWired w) (n : ℕ) → IsWired (with_status w n)
  status-IsWired w v n = record {
    event = v.event;
    latch = record { status = n };
    queue = v.queue;
    event_live = v.event_live;
    latch_live =
        load-saved w.objects.latches w.self.session_latch v.latch (record { status = n })
          v.latch_live;
    token = v.token;
    target = v.target;
    has_queue = v.has_queue;
  }

  -- The end of the callback: the latch is taken, the data forgotten, the reply sent and the event
  -- of JACK given back.
  abbrev pub ended : (w : World L) → IsWired w → Ptr → World L
  ended w v p =
      let u = with_data (with_status w not_posted) (status-IsWired w v not_posted) none in
      record u { objects = called L u.objects (session_reply p ∷ session_event_free p ∷ []) }

  pub session_end_waits :
      (w : World L) (v : IsWired w) (p : Ptr)
      → v.latch.status ≡ not_posted
      → session_end L p w ≡ ok none
  unfolding session_end
  session_end_waits w v p h = rw (v.latch_live) (rw (get-empty v.latch h))

  pub session_end_replies :
      (w : World L) (v : IsWired w) (p : Ptr)
      → v.latch.status ≡ posted
      → session_end L p w ≡ ok (some (ended w v p))
  unfolding session_end
  session_end_replies w v p h = rw (
    v.latch_live,
    get-posted v.latch h,
    save_lem w.objects.latches w.self.session_latch v.latch (record { status = not_posted })
        v.latch_live,
    put_data_lem (with_status w not_posted) (status-IsWired w v not_posted) none,
  )

  -- After the end the event and the latch are live again, and the latch is not posted.
  unfoldable pub ended-IsWired : (w : World L) (v : IsWired w) (p : Ptr) → IsWired (ended w v p)
  unfolding set_data
  ended-IsWired w v p = record {
    event = set_data v.event none;
    latch = record { status = not_posted };
    queue = v.queue;
    event_live =
        load-saved w.objects.events w.self.session_event v.event (set_data v.event none)
          v.event_live;
    latch_live =
        load-saved w.objects.latches w.self.session_latch v.latch (record { status = not_posted })
          v.latch_live;
    token = v.token;
    target = v.target;
    has_queue = v.has_queue;
  }
