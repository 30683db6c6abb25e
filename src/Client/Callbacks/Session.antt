-- ===== src/Client/Callbacks/Session.antt =====
-- JacksRbClient.c: a session event, from JACK's callback to the reply.
use jacks.Prelude.{◌≡◌, refl, [], ◌∷◌, ◌++◌, none, some}
use jacks.Memory.{ok, Ptr, load}
use jacks.Libraries.{Libs}
use jacks.Latch.{not_posted, posted}
use jacks.Event.{set_data}
use jacks.Client.State.{World, session_reply, session_event_free}
use jacks.Client.Callbacks.{session_begin, session_end, complete_at}
use jacks.Client.Callbacks.Wired.{
  IsWired, with_status, complete_lem, begun, session_begin_lem, begun-IsWired, status-IsWired,
  ended, session_end_waits, session_end_replies, ended-IsWired,
}

module _ (L : Libs) where
  open L.queues use {Queue, entries, limit, enqueue, enqueue_room}

  -- A run of one session event: the callback begins, the program completes the event, the callback
  -- ends.
  pub record Handshake (w : World L) (v : IsWired L w) (p : Ptr) : Type 0 where
    pub first : World L
    pub second : World L
    pub third : World L
    pub begins : session_begin L p w ≡ ok first
    pub waits : session_end L p first ≡ ok none
    pub shown : load first.objects.events w.self.session_event ≡ ok (set_data v.event p)
    pub completes : complete_at L w.self.session_event first ≡ ok second
    pub ends : session_end L p second ≡ ok (some third)
    pub replied :
        third.objects.calls ≡ w.objects.calls ++ (session_reply p ∷ session_event_free p ∷ [])
    pub forgotten : load third.objects.events w.self.session_event ≡ ok (set_data v.event none)
    pub wired : IsWired L third
    pub rearmed : wired.latch.status ≡ not_posted

  -- From a latch that is not posted: the callback waits, with its data shown to the program, until
  -- the program completes the event. Then, and not before, it replies to JACK and frees JACK's
  -- event, once each and in that order; it forgets the data and leaves the latch as it found it.
  pub session_waits_then_replies :
      (w : World L) (v : IsWired L w) (p : Ptr) → v.latch.status ≡ not_posted → Handshake w v p
  unfolding set_data begun-IsWired ended-IsWired
  session_waits_then_replies w v p idle = record {
    first = w1;
    second = with_status L w1 posted;
    third = ended L w2 v2 p;
    begins = session_begin_lem L w v p;
    waits = session_end_waits L w1 v1 p idle;
    shown = v1.event_live;
    completes = complete_lem L w1 v1;
    ends = session_end_replies L w2 v2 p refl;
    replied = refl;
    forgotten = (ended-IsWired L w2 v2 p).event_live;
    wired = ended-IsWired L w2 v2 p;
    rearmed = refl;
  }
    where
      w1 : World L
      w1 = begun L w v p

      v1 : IsWired L w1
      v1 = begun-IsWired L w v p

      w2 : World L
      w2 = with_status L w1 posted

      v2 : IsWired L w2
      v2 = status-IsWired L w1 v1 posted

  -- A completion while no session callback waits, such as a second one of the same event, is
  -- remembered: at the next session event the callback replies at once, before the program has
  -- completed that event.
  pub session_replies_early :
      (w : World L) (v : IsWired L w) (p : Ptr)
      → (w1 w2 w3 : World L) × (complete_at L w.self.session_event w ≡ ok w1)
        × (session_begin L p w1 ≡ ok w2)
        × (session_end L p w2 ≡ ok (some w3))
        × (w3.objects.calls ≡ w.objects.calls ++ (session_reply p ∷ session_event_free p ∷ []))
  unfolding begun-IsWired
  session_replies_early w v p = (
    w1,
    begun L w1 v1 p,
    ended L (begun L w1 v1 p) (begun-IsWired L w1 v1 p) p,
    complete_lem L w v,
    session_begin_lem L w1 v1 p,
    session_end_replies L (begun L w1 v1 p) (begun-IsWired L w1 v1 p) p refl,
    refl,
  )
    where
      w1 : World L
      w1 = with_status L w posted

      v1 : IsWired L w1
      v1 = status-IsWired L w v posted
