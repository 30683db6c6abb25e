-- ===== src/Client/Threads/Moves.antt =====
-- JacksRbClient.c: what one access to the queue or the semaphore does.
use jacks.Prelude.{
  ℕ, suc, ◌+◌, ◌-◌, ◌≡◌, ◌≢◌, refl, sym, ◌∙◌, ap, List, [], ◌∷◌, ◌++◌, Option, none, some, arith,
  length, ◌⊎◌, inl, inr, dec_lt, ℕ_discrete,
}
use jacks.Memory.{Outcome, ok, fault, Ptr}
use jacks.Libraries.{Libs}
use jacks.Client.State.{World, enqueue_event, post_mutex}
use jacks.Client.Events.{dequeue_event, wait_mutex}
use jacks.Client.Threads.{Pc, idle, posting, trying, waiting, move}

-- Threads that will post, or will look into the queue, before they sleep.
abbrev pub weight : List Pc → ℕ
weight [] = 0
weight (posting ∷ ps) = suc (weight ps)
weight (trying ∷ ps) = suc (weight ps)
weight (idle ∷ ps) = weight ps
weight (waiting ∷ ps) = weight ps

weight-append : (ps qs : List Pc) → weight (ps ++ qs) ≡ weight ps + weight qs
weight-append [] qs = omega arith
weight-append (posting ∷ ps) qs = omega (arith, weight-append ps qs)
weight-append (trying ∷ ps) qs = omega (arith, weight-append ps qs)
weight-append (idle ∷ ps) qs = weight-append ps qs
weight-append (waiting ∷ ps) qs = weight-append ps qs

from_ok {ℓ} : {A : Type ℓ} → A → Outcome A → A
from_ok a (ok b) = b
from_ok a (fault e) = a

unfoldable pub from_some {ℓ} : {A : Type ℓ} → A → Option A → A
from_some a (some b) = b
from_some a none = a

-- Two results of one call are one.
ok_inj {ℓ} : {A : Type ℓ} {o : Outcome A} {a b : A} → o ≡ ok a → o ≡ ok b → a ≡ b
unfolding from_ok
ok_inj {a = a} h k = ap (from_ok a) (sym h ∙ k)

queue_cases : (es : List Ptr) → (es ≡ []) ⊎ ((e : Ptr) × (rest : List Ptr) × (es ≡ e ∷ rest))
queue_cases [] = inl refl
queue_cases (e ∷ rest) = inr (e, rest, refl)

module _ (L : Libs) where
  open L.queues use {
    Queue, entries, limit, enqueue, dequeue, enqueue_room, enqueue_full, dequeue_empty,
    dequeue_some,
  }

  -- A client that differs in its queue alone.
  pub record Requeued (w u : World L) : Type 0 where
    pub queue : Queue
    pub has_queue : u.self.event_queue ≡ some queue
    pub same_mutex : u.self.mutex ≡ w.self.mutex

  pub dequeue_lem :
      (w : World L) (q : Queue)
      → w.self.event_queue ≡ some q
      → dequeue_event L w
        ≡ ok (
          (dequeue q).0,
          (dequeue q).1,
          record w { self = record (w.self) { event_queue = some (dequeue q).2 } },
        )
  unfolding dequeue_event
  dequeue_lem w q h = rw h

  pub enqueue_lem :
      (w : World L) (q : Queue) (e : Ptr)
      → w.self.event_queue ≡ some q
      → enqueue_event L w e
        ≡ ok (
          (enqueue q e).0,
          record w { self = record (w.self) { event_queue = some (enqueue q e).1 } },
        )
  unfolding enqueue_event
  enqueue_lem w q e h = rw h

  -- What a dequeue that gave an event did.
  pub took :
      (w u : World L) (q : Queue) (n : ℕ) (e : Ptr)
      → w.self.event_queue ≡ some q
      → dequeue_event L w ≡ ok (n, e, u)
      → n ≢ 0
      → (r : Requeued w u) × (entries q ≡ e ∷ entries r.queue)
  took w u q n e has h ne =
      let same = ok_inj (dequeue_lem w q has) h in
      let r : Requeued w u = record {
        queue = (dequeue q).2;
        has_queue = sym (ap (λ x. x.2.self.event_queue) same);
        same_mutex = sym (ap (λ x. x.2.self.mutex) same);
      } in
      elim (queue_cases (entries q)) [
        | inl none_left ↦ absurd (ne (sym (ap (λ x. x.0) same) ∙ (dequeue_empty q none_left).0))
        | inr (e', rest, held) ↦
            let out = dequeue_some q e' rest held in
            let first : e' ≡ e = sym out.1 ∙ ap (λ x. x.1) same in (r, held ∙ (rw (first, out.2)))
      ]

  pub missed :
      (w u : World L) (q : Queue) (e : Ptr)
      → w.self.event_queue ≡ some q
      → dequeue_event L w ≡ ok (0, e, u)
      → (r : Requeued w u) × (entries q ≡ []) × (entries r.queue ≡ [])
  missed w u q e has h =
      let same = ok_inj (dequeue_lem w q has) h in
      let r : Requeued w u = record {
        queue = (dequeue q).2;
        has_queue = sym (ap (λ x. x.2.self.event_queue) same);
        same_mutex = sym (ap (λ x. x.2.self.mutex) same);
      } in
      elim (queue_cases (entries q)) [
        | inl none_left ↦ (r, none_left, (dequeue_empty q none_left).2)
        | inr (e', rest, held) ↦
            let out = dequeue_some q e' rest held in
            let zeroed : (dequeue q).0 ≡ 0 = ap (λ x. x.0) same in
            absurd (omega (arith, out.0, zeroed))
      ]

  pub accepts :
      (w u : World L) (q : Queue) (n : ℕ) (e : Ptr)
      → w.self.event_queue ≡ some q
      → enqueue_event L w e ≡ ok (n, u)
      → (r : Requeued w u) × (((n ≡ 1) × (entries r.queue ≡ entries q ++ (e ∷ [])))
          ⊎ ((n ≡ 0) × (entries r.queue ≡ entries q)))
  accepts w u q n e has h =
      let same = ok_inj (enqueue_lem w q e has) h in
      let r : Requeued w u = record {
        queue = (enqueue q e).1;
        has_queue = sym (ap (λ x. x.1.self.event_queue) same);
        same_mutex = sym (ap (λ x. x.1.self.mutex) same);
      } in
      let which : (enqueue q e).0 ≡ n = ap (λ x. x.0) same in
      elim (dec_lt (length (entries q)) (limit q)) [
        | yes room ↦ let put = enqueue_room q e room in (r, inl (sym which ∙ put.0, put.1))
        | no over ↦
            let kept = enqueue_full q e (omega arith) in (r, inr (sym which ∙ kept.0, kept.1))
      ]

  -- The weight before and after a step of one thread.
  pub weighed :
      (ps before after : List Pc) (p r : Pc)
      → ps ≡ move before p after
      → weight ps + weight (r ∷ []) ≡ weight (move before r after) + weight (p ∷ [])
  weighed ps before after p r h =
      let one : weight (move before p after) ≡ weight before + weight (p ∷ after) =
        weight-append before (p ∷ after) in
      let two = weight-append before (r ∷ after) in rw h (ground (arith, one, two))

  pub post_lem :
      (w : World L)
      → ((post_mutex L w).self.mutex ≡ suc w.self.mutex)
        × ((post_mutex L w).self.event_queue ≡ w.self.event_queue)
  unfolding post_mutex
  post_lem w = (refl, refl)

  pub wait_lem :
      (w u : World L)
      → wait_mutex L w ≡ some u
      → (w.self.mutex ≡ suc u.self.mutex) × (u.self.event_queue ≡ w.self.event_queue)
  unfolding wait_mutex from_some
  wait_lem w u h = elim (ℕ_discrete w.self.mutex 0) [
    | yes z ↦ absurd (ground (arith, z, h))
    | no nz ↦
        let up : wait_mutex L w
            ≡ some (record w { self = record (w.self) { mutex = w.self.mutex - 1 } }) =
          ground (arith, nz) in
        let same = ap (from_some w) (sym up ∙ h) in
        let less : w.self.mutex - 1 ≡ u.self.mutex = ap (λ x. x.self.mutex) same in
        (omega (arith, nz, less), sym (ap (λ x. x.self.event_queue) same))
  ]
