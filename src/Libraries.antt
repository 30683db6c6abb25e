-- ===== src/Libraries.antt =====
-- What Jacks calls and does not implement, as parameters with the documented behaviour that the
-- code relies on: JACK (`jack/jack.h`), its ring buffer, malloc, and the queue of liblfds
-- (corelib/lfds, a copy of that library).
use jacks.Prelude.{
  ℕ, ◌-◌, ◌*◌, ◌≤◌, ◌<◌, ◌≡◌, List, [], ◌∷◌, ◌++◌, Option, none, some, Bool, min, length, take,
  drop, ℤ,
}
use jacks.Memory.{Ptr}

-- `jack_ringbuffer_t`: a byte FIFO of bounded capacity.
pub record RingLib : Type 1 where
  pub Ring : Type 0
  pub contents : Ring → List ℕ
  pub capacity : Ring → ℕ
  pub create : ℕ → Option Ring
  pub write : Ring → List ℕ → ℕ × Ring
  pub read_space : Ring → ℕ
  pub read : Ring → ℕ → List ℕ × Ring
  pub create_empty : (n : ℕ) {r : Ring} → create n ≡ some r → contents r ≡ []
  pub bounded : (r : Ring) → length (contents r) ≤ capacity r
  pub write_count :
      (r : Ring) (bs : List ℕ) → (write r bs).0 ≡ min (length bs) (capacity r - length (contents r))
  pub write_contents :
      (r : Ring) (bs : List ℕ) → contents (write r bs).1 ≡ contents r ++ take (write r bs).0 bs
  pub write_capacity : (r : Ring) (bs : List ℕ) → capacity (write r bs).1 ≡ capacity r
  pub read_space_lem : (r : Ring) → read_space r ≡ length (contents r)
  pub read_bytes : (r : Ring) (n : ℕ) → (read r n).0 ≡ take n (contents r)
  pub read_contents : (r : Ring) (n : ℕ) → contents (read r n).1 ≡ drop n (contents r)
  pub read_capacity : (r : Ring) (n : ℕ) → capacity (read r n).1 ≡ capacity r

-- `struct queue_state`: a FIFO of pointers, with a limit on their number.
pub record QueueLib : Type 1 where
  pub Queue : Type 0
  pub entries : Queue → List Ptr
  pub limit : Queue → ℕ
  pub queue_new : ℕ → Option Queue
  pub enqueue : Queue → Ptr → ℕ × Queue
  pub dequeue : Queue → ℕ × Ptr × Queue
  pub new_empty : (n : ℕ) {q : Queue} → queue_new n ≡ some q → entries q ≡ []
  pub new_limit : (n : ℕ) {q : Queue} → queue_new n ≡ some q → limit q ≡ n
  pub enqueue_room :
      (q : Queue) (p : Ptr)
      → length (entries q) < limit q
      → ((enqueue q p).0 ≡ 1) × (entries (enqueue q p).1 ≡ entries q ++ (p ∷ []))
  pub enqueue_full :
      (q : Queue) (p : Ptr)
      → limit q ≤ length (entries q)
      → ((enqueue q p).0 ≡ 0) × (entries (enqueue q p).1 ≡ entries q)
  pub enqueue_limit : (q : Queue) (p : Ptr) → limit (enqueue q p).1 ≡ limit q
  pub dequeue_empty :
      (q : Queue)
      → entries q ≡ []
      → ((dequeue q).0 ≡ 0) × ((dequeue q).1 ≡ none) × (entries (dequeue q).2 ≡ [])
  pub dequeue_some :
      (q : Queue) (p : Ptr) (ps : List Ptr)
      → entries q ≡ p ∷ ps
      → ((dequeue q).0 ≡ 1) × ((dequeue q).1 ≡ p) × (entries (dequeue q).2 ≡ ps)
  pub dequeue_limit : (q : Queue) → limit (dequeue q).2 ≡ limit q

-- The two functions that Jacks gives to `jack_set_latency_callback`.
pub data LatencyCallback : Type 0 where
  latency_listener_fd latency_listener : LatencyCallback

-- The JACK server as its clients see it. A call may change the server.
pub record JackLib : Type 1 where
  pub Server : Type 0
  pub port_register : Server → Ptr → List ℕ → ℕ → Ptr × Server
  pub port_name : Server → Ptr → List ℕ
  pub connect : Server → Ptr → List ℕ → List ℕ → ℤ × Server
  pub set_latency_callback : Server → Ptr → LatencyCallback → Ptr → ℤ × Server
  -- Of a port that JACK gave; of NULL the documentation says nothing.
  pub port_get_buffer : Server → ℕ → ℕ → List ℕ
  -- A port's buffer holds the samples of one cycle, four bytes each.
  pub port_get_buffer_length :
      (s : Server) (p : ℕ) (nframes : ℕ) → length (port_get_buffer s p nframes) ≡ 4 * nframes

-- What malloc does in a constructor: whether the struct is there, a block of bytes, and what an int
-- field holds that the constructor never assigns.
pub record Malloc : Type 0 where
  pub room : Bool
  pub bytes : ℕ → Option (List ℕ)
  pub bytes_length : (n : ℕ) {b : List ℕ} → bytes n ≡ some b → length b ≡ n
  pub leftover : ℕ

-- The libraries together.
pub record Libs : Type 1 where
  pub rings : RingLib
  pub queues : QueueLib
  pub jack : JackLib
