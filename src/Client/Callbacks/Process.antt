-- ===== src/Client/Callbacks/Process.antt =====
-- JacksRbClient.c: `_process_cb` on a client whose ports are in order.
use jacks.Prelude.{
  ℕ, zero, suc, ◌+◌, ◌^◌, ◌≤◌, ◌<◌, ◌≡◌, refl, sym, ◌∙◌, ap, [], ◌∷◌, ◌++◌, append-nil,
  append_assoc, some, ◌⊎◌, inl, inr, ℤ, pos, minus_one, arith, dec_le, length, replicate,
}
use jacks.Memory.{ok, Ptr, Store}
use jacks.Libraries.{Libs}
use jacks.Port.{Port}
use jacks.Client.State.{World, enqueue_event, post_mutex}
use jacks.Client.Callbacks.{process_from, process_cb}
use jacks.Client.Callbacks.Live.{AllReady, IsLive, Round, round}

module _ (L : Libs) where
  open L.queues use {Queue, entries, limit, enqueue, enqueue_room, enqueue_full, enqueue_limit}

  -- What the loop leaves, `done` rounds on.
  pub record Ran (k i nframes : ℕ) (w : World L) (v : IsLive L w) : Type 0 where
    pub done : ℕ
    pub rc : ℤ
    pub after : World L
    pub live : IsLive L after
    pub returns : process_from L nframes k i w ≡ ok (rc, after)
    pub queued : entries live.queue ≡ entries v.queue ++ replicate done w.self.process_event
    pub posted : after.self.mutex ≡ w.self.mutex + done
    pub verdict : ((rc ≡ pos 0) × (done ≡ k)) ⊎ ((rc ≡ minus_one) × (done < k))

  -- The world after the write of a round.
  abbrev ported : World L → Store (Port L.rings.Ring) → World L
  ported w m = record w { objects = record (w.objects) { rb_ports = m } }

  abbrev with_ports :
      (w : World L) (v : IsLive L w) (m : Store (Port L.rings.Ring))
      → AllReady L m v.array
      → IsLive L (ported w m)
  with_ports w v m r = record {
    queue = v.queue;
    array = v.array;
    has_queue = v.has_queue;
    has_array = v.has_array;
    counted = v.counted;
    ready = r;
  }

  -- The world after a round: other ports, queue and semaphore count.
  abbrev moved : World L → Store (Port L.rings.Ring) → Queue → ℕ → World L
  moved w m q n = record {
    self = record (w.self) { event_queue = some q; mutex = n };
    objects = record (w.objects) { rb_ports = m };
  }

  abbrev moved-IsLive :
      (w : World L) (v : IsLive L w) (m : Store (Port L.rings.Ring)) (q : Queue) (n : ℕ)
      → AllReady L m v.array
      → IsLive L (moved w m q n)
  moved-IsLive w v m q n r = record {
    queue = q;
    array = v.array;
    has_queue = refl;
    has_array = v.has_array;
    counted = v.counted;
    ready = r;
  }

  abbrev requeued : World L → Queue → World L
  requeued w q = record w { self = record (w.self) { event_queue = some q } }

  enqueue_event_lem :
      (w : World L) (q : Queue) (e : Ptr)
      → w.self.event_queue ≡ some q
      → enqueue_event L w e ≡ ok ((enqueue q e).0, requeued w (enqueue q e).1)
  unfolding enqueue_event
  enqueue_event_lem w q e has = rw has

  -- The ring of a port overruns.
  stopped_by_ring :
      (k i nframes : ℕ) (w : World L) (v : IsLive L w) (r : Round L nframes i w v)
      → r.rc ≡ minus_one
      → Ran (suc k) i nframes w v
  unfolding process_from
  stopped_by_ring k i nframes w v r bad = record {
    done = 0;
    rc = minus_one;
    after = ported w r.ports;
    live = with_ports w v r.ports r.ready;
    returns = rw (r.returns, bad);
    queued = sym (append-nil (entries v.queue));
    posted = omega arith;
    verdict = inr (refl, omega arith);
  }

  -- The event queue is full.
  stopped_by_queue :
      (k i nframes : ℕ) (w : World L) (v : IsLive L w) (r : Round L nframes i w v)
      → r.rc ≡ pos 0
      → limit v.queue ≤ length (entries v.queue)
      → Ran (suc k) i nframes w v
  unfolding process_from
  stopped_by_queue k i nframes w v r good full = record {
    done = 0;
    rc = minus_one;
    after = moved w r.ports q w.self.mutex;
    live = moved-IsLive w v r.ports q w.self.mutex r.ready;
    returns = rw (
      r.returns,
      good,
      enqueue_event_lem (ported w r.ports) v.queue w.self.process_event v.has_queue,
      kept.0,
    );
    queued = kept.1 ∙ sym (append-nil (entries v.queue));
    posted = omega arith;
    verdict = inr (refl, omega arith);
  }
    where
      q : Queue
      q = (enqueue v.queue w.self.process_event).1

      kept : ((enqueue v.queue w.self.process_event).0 ≡ 0) × (entries q ≡ entries v.queue)
      kept = enqueue_full v.queue w.self.process_event full

  -- The round went well, and the loop goes on.
  goes_on :
      (k i nframes : ℕ) (w : World L) (v : IsLive L w) (r : Round L nframes i w v)
      → r.rc ≡ pos 0
      → length (entries v.queue) < limit v.queue
      → Ran k
          (i + 1)
          nframes
          (moved w r.ports (enqueue v.queue w.self.process_event).1 (suc w.self.mutex))
          (moved-IsLive w v r.ports
            (enqueue v.queue w.self.process_event).1
            (suc w.self.mutex)
            r.ready)
      → Ran (suc k) i nframes w v
  unfolding process_from post_mutex
  goes_on k i nframes w v r good room next = record {
    done = suc next.done;
    rc = next.rc;
    after = next.after;
    live = next.live;
    returns =
        rw
          (
            r.returns,
            good,
            enqueue_event_lem (ported w r.ports) v.queue w.self.process_event v.has_queue,
            added.0,
          )
          next.returns;
    queued =
        next.queued
        ∙ (ap (λ t. t ++ replicate next.done w.self.process_event) added.1
            ∙ append_assoc (entries v.queue) (w.self.process_event ∷ [])
                (replicate next.done w.self.process_event));
    posted = omega (arith, next.posted);
    verdict = ground (arith, next.verdict);
  }
    where
      added :
          ((enqueue v.queue w.self.process_event).0 ≡ 1)
          × (entries (enqueue v.queue w.self.process_event).1
              ≡ entries v.queue ++ (w.self.process_event ∷ []))
      added = enqueue_room v.queue w.self.process_event room

  process_from_lem :
      (k i nframes : ℕ) (w : World L) (v : IsLive L w)
      → nframes < 2 ^ 32
      → i + k ≡ w.self.nports
      → Ran k i nframes w v
  unfolding process_from
  process_from_lem zero i nframes w v small e = record {
    done = 0;
    rc = pos 0;
    after = w;
    live = v;
    returns = refl;
    queued = sym (append-nil (entries v.queue));
    posted = omega arith;
    verdict = inl (refl, refl);
  }
  process_from_lem (suc k) i nframes w v small e = elim r.verdict [
    | inr bad ↦ stopped_by_ring k i nframes w v r bad
    | inl good ↦ elim (dec_le (limit v.queue) (length (entries v.queue))) [
      | yes full ↦ stopped_by_queue k i nframes w v r good full
      | no room ↦ goes_on k i nframes w v r good (omega arith) (
          process_from_lem k (i + 1) nframes
            (moved w r.ports (enqueue v.queue w.self.process_event).1 (suc w.self.mutex))
            (moved-IsLive w v r.ports (enqueue v.queue w.self.process_event).1 (suc w.self.mutex)
              r.ready)
            small (omega arith))
    ]
  ]
    where
      r : Round L nframes i w v
      r = round L nframes i w v small (omega arith)

  -- In a live client, whose ports JACK registered, `_process_cb` does not fault and leaves the client
  -- live. It stops early exactly if it returns -1; and each of the rounds that it completed, no more and no less, put the process
  -- event once at the end of the queue and posted the semaphore once.
  pub process_cb_lem :
      (nframes : ℕ) (w : World L) (v : IsLive L w)
      → nframes < 2 ^ 32
      → (run : Ran w.self.nports 0 nframes w v) × (process_cb L nframes w ≡ ok (run.rc, run.after))
  unfolding process_cb
  process_cb_lem nframes w v small =
      let run : Ran w.self.nports 0 nframes w v =
        process_from_lem w.self.nports 0 nframes w v small (omega arith) in
      (run, run.returns)
