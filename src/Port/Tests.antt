-- ===== src/Port/Tests.antt =====
-- JacksRbPort.c on a small port.
use jacks.Prelude.{
  ℕ, List, ◌++◌, ◌%◌, ◌≡◌, ◌≢◌, refl, [], ◌∷◌, some, false, length, pos, negsuc, minus_one, arith,
}
use jacks.Memory.{ok}
use jacks.Samples.{Bytes, ring_lib, jack_lib, malloc, Answers}
use jacks.Port.{Port, no_fds, new, read_from_ringbuffer, write_to_ringbuffer}
use jacks.Port.Stream.{IsReady, Fetched, read_from_ringbuffer_lem}
use jacks.Port.Torn.{overrun_tears}
use jacks.Port.Flow.{cycle, fetch, Flowed, run_lem}

-- `rb_size` 2: a frame buffer of two bytes, and a ring that holds seven.
abbrev small : Port Bytes
small = record {
  playback_lat_cb_fd = no_fds;
  capture_lat_cb_fd = no_fds;
  lat_cb_is_init = false;
  rb_size = 2;
  jport = some 7;
  jackclient = some 0;
  rb = some (record { held = []; room = 7 });
  framebuf = some (0 ∷ 0 ∷ []);
  overruns = 99;
}

new_small : new ring_lib malloc (some 7) (some 0) 2 ≡ some small
unfolding new
new_small = refl

abbrev ready : IsReady ring_lib small
ready = record {
  ring = record { held = []; room = 7 };
  buffer = 0 ∷ 0 ∷ [];
  has_ring = refl;
  has_buffer = refl;
  sized = refl;
  small = omega arith;
}

abbrev server : Answers
server = record { rc = pos 0; byte = 5 }

abbrev refusing : Answers
refusing = record { rc = negsuc 4; byte = 0 }

read_from_ringbuffer_lem_example : Fetched ring_lib small ready
read_from_ringbuffer_lem_example = read_from_ringbuffer_lem ring_lib small ready

-- The same with four bytes at a time.
abbrev four : Port Bytes
four = record small { rb_size = 4; framebuf = some (0 ∷ 0 ∷ 0 ∷ 0 ∷ []) }

abbrev four_ready : IsReady ring_lib four
four_ready = record {
  ring = record { held = []; room = 7 };
  buffer = 0 ∷ 0 ∷ 0 ∷ 0 ∷ [];
  has_ring = refl;
  has_buffer = refl;
  sized = refl;
  small = omega arith;
}

abbrev later : Answers
later = record { rc = pos 0; byte = 6 }

overrun_tears_example :
    (p1 p2 p3 : Port Bytes) × (array torn : List ℕ) × (len : ℕ) × (ring : Bytes)
    × (write_to_ringbuffer ring_lib jack_lib server four 2 ≡ ok (minus_one, p1))
    × (read_from_ringbuffer ring_lib p1 ≡ ok (some array, len, p2))
    × (len ≡ 4)
    × (write_to_ringbuffer ring_lib jack_lib later p2 1 ≡ ok (pos 0, p3))
    × (p3.rb ≡ some ring)
    × (ring.held ≡ torn ++ (6 ∷ 6 ∷ 6 ∷ 6 ∷ []))
    × (length torn % 4 ≢ 0)
overrun_tears_example =
    overrun_tears ring_lib jack_lib server later four four_ready 7 2 1 refl (omega arith)
      (omega arith) (omega arith) (omega arith) refl (omega arith) (omega arith)

run_lem_example :
    Flowed ring_lib jack_lib small ready 7 (cycle server 1 ∷ fetch ∷ fetch ∷ cycle server 1 ∷ [])
run_lem_example =
    run_lem ring_lib jack_lib (cycle server 1 ∷ fetch ∷ fetch ∷ cycle server 1 ∷ []) small ready 7
      refl (omega arith)
