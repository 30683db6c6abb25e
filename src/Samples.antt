-- ===== src/Samples.antt =====
-- Small concrete libraries, which show that what `Libraries` asks can be had, and run the tests.
use jacks.Prelude.{
  ℕ, ◌+◌, ◌-◌, ◌*◌, ◌≤◌, ◌<◌, ◌≡◌, refl, List, [], ◌∷◌, ◌++◌, none, some, true, ltb, if◌then◌else◌,
  min, length, take, drop, replicate, length-replicate, length-append, length-take, length-drop, ℤ,
  arith,
}
use jacks.Memory.{Ptr}
use jacks.Libraries.{RingLib, QueueLib, JackLib, Malloc, Libs}

-- A byte ring: what it holds, and how many bytes more it has room for.
pub record Bytes : Type 0 where
  pub held : List ℕ
  pub room : ℕ

abbrev pub put_bytes : Bytes → List ℕ → ℕ × Bytes
put_bytes r bs =
    let n = min (length bs) r.room in (n, record { held = r.held ++ take n bs; room = r.room - n })

abbrev pub get_bytes : Bytes → ℕ → List ℕ × Bytes
get_bytes r n =
    (take n r.held, record { held = drop n r.held; room = r.room + min n (length r.held) })

pub put_count :
    (r : Bytes) (bs : List ℕ)
    → (put_bytes r bs).0 ≡ min (length bs) (length r.held + r.room - length r.held)
put_count r bs = omega arith

pub put_capacity :
    (r : Bytes) (bs : List ℕ)
    → length (put_bytes r bs).1.held + (put_bytes r bs).1.room ≡ length r.held + r.room
put_capacity r bs = omega (
  arith,
  length-append r.held (take (min (length bs) r.room) bs),
  length-take (min (length bs) r.room) bs,
)

pub get_capacity :
    (r : Bytes) (n : ℕ)
    → length (get_bytes r n).1.held + (get_bytes r n).1.room ≡ length r.held + r.room
get_capacity r n = omega (arith, length-drop n r.held)

pub created : (n : ℕ) {r : Bytes} → some (record { held = []; room = n - 1 }) ≡ some r → r.held ≡ []
created n e = ground arith

pub bytes_bounded : (r : Bytes) → length r.held ≤ length r.held + r.room
bytes_bounded r = omega arith

abbrev pub ring_lib : RingLib
ring_lib = record {
  Ring = Bytes;
  contents = λ r. r.held;
  capacity = λ r. length r.held + r.room;
  create = λ n. some (record { held = []; room = n - 1 });
  write = put_bytes;
  read_space = λ r. length r.held;
  read = get_bytes;
  create_empty = created;
  bounded = bytes_bounded;
  write_count = put_count;
  write_contents = λ r bs. refl;
  write_capacity = put_capacity;
  read_space_lem = λ r. refl;
  read_bytes = λ r n. refl;
  read_contents = λ r n. refl;
  read_capacity = get_capacity;
}

-- A queue of pointers, with the places that are left.
pub record Line : Type 0 where
  pub line : List Ptr
  pub places : ℕ

abbrev pub join : Line → Ptr → ℕ × Line
join q p =
    if ltb 0 q.places
    then (1, record { line = q.line ++ (p ∷ []); places = q.places - 1 })
    else (0, q)

abbrev pub leave_line : List Ptr → ℕ → ℕ × Ptr × Line
leave_line [] k = (0, none, record { line = []; places = k })
leave_line (p ∷ ps) k = (1, p, record { line = ps; places = k + 1 })

pub join_room :
    (q : Line) (p : Ptr)
    → length q.line < length q.line + q.places
    → ((join q p).0 ≡ 1) × ((join q p).1.line ≡ q.line ++ (p ∷ []))
join_room q p h = ground arith

pub join_full :
    (q : Line) (p : Ptr)
    → length q.line + q.places ≤ length q.line
    → ((join q p).0 ≡ 0) × ((join q p).1.line ≡ q.line)
join_full q p h = ground arith

pub join_limit :
    (q : Line) (p : Ptr) → length (join q p).1.line + (join q p).1.places ≡ length q.line + q.places
join_limit q p = ground (arith, length-append q.line (p ∷ []))

pub leave_empty :
    (q : Line)
    → q.line ≡ []
    → ((leave_line q.line q.places).0 ≡ 0)
      × ((leave_line q.line q.places).1 ≡ none)
      × ((leave_line q.line q.places).2.line ≡ [])
leave_empty q e = rw e (refl, refl, refl)

pub leave_some :
    (q : Line) (p : Ptr) (ps : List Ptr)
    → q.line ≡ p ∷ ps
    → ((leave_line q.line q.places).0 ≡ 1)
      × ((leave_line q.line q.places).1 ≡ p)
      × ((leave_line q.line q.places).2.line ≡ ps)
leave_some q p ps e = rw e (refl, refl, refl)

pub leave_limit :
    (ps : List Ptr) (k : ℕ)
    → length (leave_line ps k).2.line + (leave_line ps k).2.places ≡ length ps + k
leave_limit [] k = refl
leave_limit (p ∷ ps) k = omega arith

pub line_new : (n : ℕ) {q : Line} → some (record { line = []; places = n }) ≡ some q → q.line ≡ []
line_new n e = ground arith

pub line_limit :
    (n : ℕ) {q : Line}
    → some (record { line = []; places = n }) ≡ some q
    → length q.line + q.places ≡ n
line_limit n e = ground arith

abbrev pub queue_lib : QueueLib
queue_lib = record {
  Queue = Line;
  entries = λ q. q.line;
  limit = λ q. length q.line + q.places;
  queue_new = λ n. some (record { line = []; places = n });
  enqueue = join;
  dequeue = λ q. leave_line q.line q.places;
  new_empty = line_new;
  new_limit = line_limit;
  enqueue_room = join_room;
  enqueue_full = join_full;
  enqueue_limit = join_limit;
  dequeue_empty = leave_empty;
  dequeue_some = leave_some;
  dequeue_limit = λ q. leave_limit q.line q.places;
}

-- A server that gives every call one answer, and plays one byte.
pub record Answers : Type 0 where
  pub rc : ℤ
  pub byte : ℕ

abbrev pub jack_lib : JackLib
jack_lib = record {
  Server = Answers;
  port_register = λ s c name options. (some 7, s);
  port_name = λ s p. b'p' ∷ [];
  connect = λ s c a b. (s.rc, s);
  set_latency_callback = λ s c f p. (s.rc, s);
  port_get_buffer = λ s p n. replicate (4 * n) s.byte;
  port_get_buffer_length = λ s p n. length-replicate (4 * n) s.byte;
}

pub zeros_length : (n : ℕ) {b : List ℕ} → some (replicate n 0) ≡ some b → length b ≡ n
zeros_length n e = ground (arith, length-replicate {A = ℕ} n 0)

-- malloc with room, that hands out zeros
abbrev pub malloc : Malloc
malloc = record {
  room = true;
  bytes = λ n. some (replicate n 0);
  bytes_length = zeros_length;
  leftover = 99;
}

abbrev pub libs : Libs
libs = record { rings = ring_lib; queues = queue_lib; jack = jack_lib }
