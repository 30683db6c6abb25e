-- ===== src/Client/Callbacks/Live.antt =====
-- JacksRbClient.c: a client whose ports are in order, and one round of the loop of `_process_cb`.
use jacks.Prelude.{
  ℕ, zero, suc, ◌^◌, ◌<◌, ◌≡◌, refl, sym, ◌∙◌, subst, List, [], ◌∷◌, Option, some, ◌⊎◌, inl, inr, ℤ,
  pos, minus_one, arith, length, get_elem?,
}
use jacks.Memory.{ok, Ptr, Store}
use jacks.Memory.Access.{IsAt, saved, save_lem, load-saved_cases}
use jacks.Libraries.{Libs}
use jacks.Port.{Port, IsRegistered, write_to_ringbuffer}
use jacks.Port.Stream.{IsReady}
use jacks.Port.Flow.{Wrote, write_lem}
use jacks.Client.State.{World}
use jacks.Client.Callbacks.{port_at, write_port}

port_at_lem :
    (ports : Option (List Ptr)) (array : List Ptr) (i : ℕ) (a : Ptr)
    → ports ≡ some array
    → get_elem? array i ≡ some a
    → port_at ports i ≡ ok a
port_at_lem ports array i a e h = ground arith

module _ (L : Libs) where
  open L.queues use {Queue, entries, limit, enqueue, enqueue_room, enqueue_full, enqueue_limit}

  -- Every pointer of the list is that of a live port that JACK registered, with its ring and
  -- its frame buffer.
  abbrev pub AllReady : Store (Port L.rings.Ring) → List Ptr → Type 0
  AllReady m [] = Unit {0}
  AllReady m (a ∷ rest) =
      ((p : Port L.rings.Ring) × IsAt m a p × IsReady L.rings p × IsRegistered p) × AllReady m rest

  pub AllReady-saved :
      (m : Store (Port L.rings.Ring)) (a : Ptr) (p q : Port L.rings.Ring) (rest : List Ptr)
      → IsAt m a p
      → IsReady L.rings q
      → IsRegistered q
      → AllReady m rest
      → AllReady (saved m a q) rest
  AllReady-saved m a p q [] h r g v = tt
  AllReady-saved m a p q (b ∷ rest) h r g v =
      let (d, at, which) = load-saved_cases m a b p q v.0.0 h v.0.1 in
      ((d, at, is_ready which, is_registered which), AllReady-saved m a p q rest h r g v.1)
    where
      is_ready : {d : Port L.rings.Ring} → (d ≡ v.0.0) ⊎ (d ≡ q) → IsReady L.rings d
      is_ready (inl e) = subst (IsReady L.rings) (sym e) v.0.2
      is_ready (inr e) = subst (IsReady L.rings) (sym e) r

      is_registered : {d : Port L.rings.Ring} → (d ≡ v.0.0) ⊎ (d ≡ q) → IsRegistered d
      is_registered (inl e) = subst (λ (c : Port L.rings.Ring). IsRegistered c) (sym e) v.0.3
      is_registered (inr e) = subst (λ (c : Port L.rings.Ring). IsRegistered c) (sym e) g

  -- A client that can run: a queue, and `nports` ports in order.
  pub record IsLive (w : World L) : Type 0 where
    pub queue : Queue
    pub array : List Ptr
    pub has_queue : w.self.event_queue ≡ some queue
    pub has_array : w.self.ports ≡ some array
    pub counted : length array ≡ w.self.nports
    pub ready : AllReady w.objects.rb_ports array

  ready_port :
      (m : Store (Port L.rings.Ring)) (array : List Ptr) (i : ℕ)
      → i < length array
      → AllReady m array
      → (a : Ptr) × (get_elem? array i ≡ some a)
        × ((p : Port L.rings.Ring) × IsAt m a p × IsReady L.rings p × IsRegistered p)
  ready_port m [] i h v = absurd (omega arith)
  ready_port m (a ∷ rest) zero h v = (a, refl, v.0)
  ready_port m (a ∷ rest) (suc i) h v = ready_port m rest i (omega arith) v.1

  -- What the round for port `i` does in a live client, up to its `queue_enqueue`.
  pub record Round (nframes i : ℕ) (w : World L) (v : IsLive w) : Type 0 where
    pub rc : ℤ
    pub ports : Store (Port L.rings.Ring)
    pub returns :
        write_port L nframes i w
        ≡ ok (rc, record w { objects = record (w.objects) { rb_ports = ports } })
    pub ready : AllReady ports v.array
    pub verdict : (rc ≡ pos 0) ⊎ (rc ≡ minus_one)

  pub write_port_lem :
      (nframes i : ℕ) (w : World L) (array : List Ptr) (a : Ptr) (p after : Port L.rings.Ring)
      (rc : ℤ)
      → w.self.ports ≡ some array
      → get_elem? array i ≡ some a
      → IsAt w.objects.rb_ports a p
      → write_to_ringbuffer L.rings L.jack w.objects.server p nframes ≡ ok (rc, after)
      → write_port L nframes i w
        ≡ ok (
          rc,
          record w { objects = record (w.objects) { rb_ports = saved w.objects.rb_ports a after } },
        )
  unfolding write_port
  write_port_lem nframes i w array a p after rc has found here wrote = rw (
    port_at_lem w.self.ports array i a has found,
    here,
    wrote,
    save_lem w.objects.rb_ports a p after here,
  )

  pub round :
      (nframes i : ℕ) (w : World L) (v : IsLive w)
      → nframes < 2 ^ 32
      → i < w.self.nports
      → Round nframes i w v
  round nframes i w v small h =
      let (a, found, p, here, r, (j, given)) = pick in
      let wrote : Wrote L.rings L.jack p r j w.objects.server nframes =
        write_lem L.rings L.jack p r j w.objects.server nframes given small in
      record {
        rc = wrote.rc;
        ports = saved w.objects.rb_ports a wrote.after;
        returns =
            write_port_lem nframes i w v.array a p wrote.after wrote.rc v.has_array found here
              wrote.returns;
        ready =
            AllReady-saved w.objects.rb_ports a p wrote.after v.array here wrote.ready
              (j, wrote.kept ∙ given) v.ready;
        verdict = wrote.verdict;
      }
    where
      pick :
          (a : Ptr) × (get_elem? v.array i ≡ some a)
          × (p : Port L.rings.Ring) × IsAt w.objects.rb_ports a p
          × IsReady L.rings p
          × IsRegistered p
      pick =
          let (a, found, (p, here, r, g)) =
            ready_port w.objects.rb_ports v.array i (omega (arith, v.counted)) v.ready in
          (a, found, p, here, r, g)
