-- ===== src/Client/Threads/Progress.antt =====
-- JacksRbClient.c: a thread that sleeps in `sem_wait` is not left behind with an event in the queue.
use jacks.Prelude.{
  ℕ, suc, ◌+◌, ◌-◌, ◌<◌, ◌≡◌, refl, sym, ◌∙◌, ap, List, [], ◌∷◌, ◌++◌, some, arith, ◌⊎◌, inl, inr,
  dec_lt, length,
}
use jacks.Memory.{Ptr}
use jacks.Libraries.{Libs}
use jacks.Client.State.{World, post_mutex}
use jacks.Client.Events.{wait_mutex}
use jacks.Client.Threads.{
  Pc, idle, posting, trying, waiting, System, Inside, Reach, move, post, take, wait,
}
use jacks.Client.Threads.Moves.{weight, from_some, dequeue_lem, post_lem}
use jacks.Client.Threads.Delivery.{Inv, Reach-Inv}

-- How many threads sleep.
abbrev sleepers : List Pc → ℕ
sleepers [] = 0
sleepers (waiting ∷ ps) = suc (sleepers ps)
sleepers (posting ∷ ps) = sleepers ps
sleepers (trying ∷ ps) = sleepers ps
sleepers (idle ∷ ps) = sleepers ps

sleepers-append : (ps qs : List Pc) → sleepers (ps ++ qs) ≡ sleepers ps + sleepers qs
sleepers-append [] qs = omega arith
sleepers-append (waiting ∷ ps) qs = omega (arith, sleepers-append ps qs)
sleepers-append (posting ∷ ps) qs = sleepers-append ps qs
sleepers-append (trying ∷ ps) qs = sleepers-append ps qs
sleepers-append (idle ∷ ps) qs = sleepers-append ps qs

-- A thread of the list stands at `p`.
abbrev pub Stands : Pc → List Pc → Type 0
Stands p ps = (before after : List Pc) × (ps ≡ move before p after)

Stands-behind : {p : Pc} {ps : List Pc} (r : Pc) → Stands p ps → Stands p (r ∷ ps)
Stands-behind r (before, after, h) = (r ∷ before, after, ap (λ x. r ∷ x) h)

sleeper : (ps : List Pc) → 0 < sleepers ps → Stands waiting ps
sleeper [] h = absurd (omega arith)
sleeper (waiting ∷ ps) h = ([], ps, refl)
sleeper (posting ∷ ps) h = Stands-behind posting (sleeper ps h)
sleeper (trying ∷ ps) h = Stands-behind trying (sleeper ps h)
sleeper (idle ∷ ps) h = Stands-behind idle (sleeper ps h)

awake : (ps : List Pc) → 0 < weight ps → Stands posting ps ⊎ Stands trying ps
awake [] h = absurd (omega arith)
awake (posting ∷ ps) h = inl ([], ps, refl)
awake (trying ∷ ps) h = inr ([], ps, refl)
awake (waiting ∷ ps) h = elim (awake ps h) [
  | inl a ↦ inl (Stands-behind waiting a)
  | inr a ↦ inr (Stands-behind waiting a)
]
awake (idle ∷ ps) h = elim (awake ps h) [
  | inl a ↦ inl (Stands-behind idle a)
  | inr a ↦ inr (Stands-behind idle a)
]

-- A sleeper sleeps on when another thread moves from `sem_post`.
still_sleeps :
    (ps : List Pc)
    → Stands waiting ps
    → (a : Stands posting ps) → Stands waiting (move a.0 idle a.1)
still_sleeps ps (b, c, h) (b', c', k) =
    let one = ap sleepers h ∙ sleepers-append b (waiting ∷ c) in
    let two = ap sleepers k ∙ sleepers-append b' (posting ∷ c') in
    let three : sleepers (move b' idle c') ≡ sleepers b' + sleepers c' =
      sleepers-append b' (idle ∷ c') in
    sleeper (move b' idle c') (ground (arith, one, two, three))

module _ (L : Libs) where
  open L.queues use {Queue, entries, dequeue, dequeue_some}

  -- Steps of threads that are already inside a call.
  pub data Runs : System L → System L → Type 0 where
    done : {s : System L} → Runs s s
    next : {s t u : System L} → Inside L s t → Runs t u → Runs s u

  -- A run of the threads inside that delivers `e`.
  pub record Delivers (s : System L) (e : Ptr) : Type 0 where
    pub after : System L
    pub runs : Runs s after
    pub delivered : after.got ≡ s.got ++ (e ∷ [])

  by_take :
      (s : System L) (q : Queue) (e : Ptr) (es : List Ptr)
      → s.world.self.event_queue ≡ some q
      → entries q ≡ e ∷ es
      → Stands trying s.threads
      → Delivers s e
  by_take s q e es has held (before, after, at) =
      let out = dequeue_some q e es held in
      record {
        after = record s {
          world = record (s.world) {
            self = record (s.world.self) { event_queue = some (dequeue q).2 };
          };
          threads = move before idle after;
          got = s.got ++ (e ∷ []);
        };
        runs =
            next
              (take before after 1 e
                (record (s.world) {
                  self = record (s.world.self) { event_queue = some (dequeue q).2 };
                })
                at (dequeue_lem L s.world q has ∙ rw (out.0, out.1)) (λ z. omega arith))
              done;
        delivered = refl;
      }

  wakes :
      (w : World L)
      → 0 < w.self.mutex
      → wait_mutex L w ≡ some (record w { self = record (w.self) { mutex = w.self.mutex - 1 } })
  unfolding wait_mutex
  wakes w up = ground arith

  by_wait :
      (s : System L) (q : Queue) (e : Ptr) (es : List Ptr)
      → s.world.self.event_queue ≡ some q
      → entries q ≡ e ∷ es
      → 0 < s.world.self.mutex
      → Stands waiting s.threads
      → Delivers s e
  by_wait s q e es has held up (before, after, at) =
      let w : World L = record (s.world) {
        self = record (s.world.self) { mutex = s.world.self.mutex - 1 };
      } in
      let d =
        by_take (record s { world = w; threads = move before trying after }) q e es has held
          (before, after, refl) in
      record {
        after = d.after;
        runs = next (wait before after w at (wakes s.world up)) d.runs;
        delivered = d.delivered;
      }

  by_post :
      (s : System L) (q : Queue) (e : Ptr) (es : List Ptr)
      → s.world.self.event_queue ≡ some q
      → entries q ≡ e ∷ es
      → Stands waiting s.threads
      → Stands posting s.threads
      → Delivers s e
  by_post s q e es has held sleeps (before, after, at) =
      let posted = post_lem L s.world in
      let d =
        by_wait (record s { world = post_mutex L s.world; threads = move before idle after }) q e es
          (posted.1 ∙ has) held (omega (arith, posted.0))
          (still_sleeps s.threads sleeps (before, after, at)) in
      record { after = d.after; runs = next (post before after at) d.runs; delivered = d.delivered }

  uncovered :
      {s : System L}
      → Reach L s
      → (q : Queue) (e : Ptr) (es : List Ptr) → s.world.self.event_queue ≡ some q
      → entries q ≡ e ∷ es
      → s.world.self.mutex ≡ 0
      → 0 < weight s.threads
  unfolding from_some
  uncovered {s} r q e es has held down =
      let v : Inv L s = Reach-Inv L r in
      let same : v.queue ≡ q = ap (from_some q) (sym v.has_queue ∙ has) in
      let long : length (entries v.queue) ≡ length (e ∷ es) = ap length (ap entries same ∙ held) in
      omega (arith, v.covered, long, down)

  -- In every reachable state with an event in the queue and a thread asleep in `sem_wait`, the
  -- oldest event is delivered without help from outside: some run of the threads that are already
  -- inside a call delivers it, with no new call and no further event.
  pub sleeper_is_served :
      {s : System L}
      → Reach L s
      → (q : Queue) (e : Ptr) (es : List Ptr) → s.world.self.event_queue ≡ some q
      → entries q ≡ e ∷ es
      → Stands waiting s.threads
      → Delivers s e
  sleeper_is_served {s} r q e es has held sleeps = elim (dec_lt 0 s.world.self.mutex) [
    | yes up ↦ by_wait s q e es has held up sleeps
    | no down ↦ elim (awake s.threads (uncovered r q e es has held (omega arith))) [
      | inl a ↦ by_post s q e es has held sleeps a
      | inr a ↦ by_take s q e es has held a
    ]
  ]
