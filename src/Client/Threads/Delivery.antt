-- ===== src/Client/Threads/Delivery.antt =====
-- JacksRbClient.c: every event that the queue takes is delivered once and in order, and is not
-- stranded behind the semaphore.
use jacks.Prelude.{
  ℕ, ◌+◌, ◌≤◌, ◌≡◌, ◌≢◌, sym, ◌∙◌, ap, [], ◌∷◌, ◌++◌, append_assoc, some, arith, length,
  length-append, inl, inr,
}
use jacks.Memory.{ok, Ptr}
use jacks.Libraries.{Libs}
use jacks.Client.State.{World, enqueue_event}
use jacks.Client.Threads.{
  idle, posting, trying, waiting, System, Inside, Step, Reach, post, take, miss, wait, inside, call,
  put, refused, ignored, start, later,
}
use jacks.Client.Threads.Moves.{
  weight, Requeued, took, missed, accepts, weighed, post_lem, wait_lem,
}

module _ (L : Libs) where
  open L.queues use {
    Queue, entries, limit, enqueue, dequeue, enqueue_room, enqueue_full, dequeue_empty,
    dequeue_some,
  }

  pub record Inv (s : System L) : Type 0 where
    pub queue : Queue
    pub has_queue : s.world.self.event_queue ≡ some queue
    -- What was accepted was delivered, oldest first, or is still in the queue.
    pub in_order : s.accepted ≡ s.got ++ entries queue
    -- Each event in the queue has a post, or a thread that will post or look.
    pub covered : length (entries queue) ≤ s.world.self.mutex + weight s.threads

  Inside-Inv : {s t : System L} → Inside L s t → Inv s → Inv t
  Inside-Inv {s} (post before after at) v = record {
    queue = v.queue;
    has_queue = (post_lem L s.world).1 ∙ v.has_queue;
    in_order = v.in_order;
    covered =
        omega
          (arith, v.covered, post_lem L s.world, weighed L s.threads before after posting idle at);
  }
  Inside-Inv {s} (take before after n e w at did ne) v =
      let (r, held) = took L s.world w v.queue n e v.has_queue did ne in
      record {
        queue = r.queue;
        has_queue = r.has_queue;
        in_order =
            v.in_order
            ∙ ap (λ x. s.got ++ x) held
            ∙ sym (append_assoc s.got (e ∷ []) (entries r.queue));
        covered = omega (
          arith,
          v.covered,
          r.same_mutex,
          ap length held,
          weighed L s.threads before after trying idle at,
        );
      }
  Inside-Inv {s} (miss before after e w at did) v =
      let (r, was, left) = missed L s.world w v.queue e v.has_queue did in
      record {
        queue = r.queue;
        has_queue = r.has_queue;
        in_order = v.in_order ∙ ap (λ x. s.got ++ x) (was ∙ sym left);
        covered = omega (arith, ap length left);
      }
  Inside-Inv {s} (wait before after w at did) v =
      let (down, same) = wait_lem L s.world w did in
      record {
        queue = v.queue;
        has_queue = same ∙ v.has_queue;
        in_order = v.in_order;
        covered =
            omega (arith, v.covered, down, weighed L s.threads before after waiting trying at);
      }

  -- A queue that does not take an event stays as it was.
  declined :
      (s : System L) (w : World L) (n : ℕ) (e : Ptr) (v : Inv s)
      → enqueue_event L s.world e ≡ ok (n, w)
      → n ≢ 1
      → (r : Requeued L s.world w) × (entries r.queue ≡ entries v.queue)
  declined s w n e v did ne =
      let (r, which) = accepts L s.world w v.queue n e v.has_queue did in
      elim which [ inl (one, _) ↦ absurd (ne one) | inr (_, h) ↦ (r, h) ]

  Step-Inv : {s t : System L} → Step L s t → Inv s → Inv t
  Step-Inv (inside h) v = Inside-Inv h v
  Step-Inv {s} (call before after at) v = record {
    queue = v.queue;
    has_queue = v.has_queue;
    in_order = v.in_order;
    covered = omega (arith, v.covered, weighed L s.threads before after idle trying at);
  }
  Step-Inv {s} (put before after e w at did) v =
      let (r, which) = accepts L s.world w v.queue 1 e v.has_queue did in
      let grown : entries r.queue ≡ entries v.queue ++ (e ∷ []) = elim which [
        | inl (_, h) ↦ h
        | inr (z, _) ↦ absurd (omega (arith, z))
      ] in
      record {
        queue = r.queue;
        has_queue = r.has_queue;
        in_order =
            ap (λ x. x ++ (e ∷ [])) v.in_order
            ∙ append_assoc s.got (entries v.queue) (e ∷ [])
            ∙ ap (λ x. s.got ++ x) (sym grown);
        covered = omega (
          arith,
          v.covered,
          r.same_mutex,
          ap length grown,
          length-append (entries v.queue) (e ∷ []),
          weighed L s.threads before after idle posting at,
        );
      }
  Step-Inv {s} (refused before after n e w at did ne) v =
      let (r, same) = declined s w n e v did ne in
      record {
        queue = r.queue;
        has_queue = r.has_queue;
        in_order = v.in_order ∙ ap (λ x. s.got ++ x) (sym same);
        covered = omega (
          arith,
          v.covered,
          r.same_mutex,
          ap length same,
          weighed L s.threads before after idle idle at,
        );
      }
  Step-Inv {s} (ignored before after n e w at did ne) v =
      let (r, same) = declined s w n e v did ne in
      record {
        queue = r.queue;
        has_queue = r.has_queue;
        in_order = v.in_order ∙ ap (λ x. s.got ++ x) (sym same);
        covered = omega (
          arith,
          v.covered,
          r.same_mutex,
          ap length same,
          weighed L s.threads before after idle posting at,
        );
      }

  -- In every reachable state: the events that the queue accepted are those delivered and then those
  -- still in the queue, in the order in which they were accepted; and for each event in the queue
  -- there is a post that no one has waited for, or a thread that is about to post or to look into
  -- the queue.
  pub Reach-Inv : {s : System L} → Reach L s → Inv s
  Reach-Inv (start w q ps has empty idle_all) = record {
    queue = q;
    has_queue = has;
    in_order = sym empty;
    covered = omega (arith, ap length empty);
  }
  Reach-Inv (later r h) = Step-Inv h (Reach-Inv r)
