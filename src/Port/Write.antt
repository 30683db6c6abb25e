-- ===== src/Port/Write.antt =====
-- JacksRbPort.c: what one process cycle adds to a port's ring buffer.
use jacks.Prelude.{
  ℕ, ◌+◌, ◌-◌, ◌*◌, ◌%◌, ◌^◌, ◌≤◌, ◌<◌, ◌≡◌, refl, ◌∙◌, ap, List, ◌++◌, some, lt→ltb, le→ltb,
  length, take, pos, minus_one, min, arith, take_all, length-take, length-append,
}
use jacks.Memory.{ok}
use jacks.Libraries.{RingLib, JackLib}
use jacks.Port.{Port, write_to_ringbuffer}

module _ (R : RingLib) (J : JackLib) (s : J.Server) (p : Port R.Ring) (j nframes : ℕ) where
  open R use {Ring, contents, capacity, write, write_count, write_contents, write_capacity, bounded}
  open J use {port_get_buffer, port_get_buffer_length}

  -- The samples of this cycle.
  abbrev pub cycle_bytes : List ℕ
  cycle_bytes = port_get_buffer s j nframes

  -- The bytes that still fit into a ring.
  abbrev pub space : Ring → ℕ
  space r = capacity r - length (contents r)

  whole : (n : ℕ) → n ≡ 4 * nframes → take n cycle_bytes ≡ cycle_bytes
  whole n e = take_all n cycle_bytes (omega (arith, port_get_buffer_length s j nframes))

  size_fits : nframes < 2 ^ 32 → 4 * nframes % 2 ^ 64 ≡ 4 * nframes
  size_fits h = omega arith

  put_count : (r : Ring) → (write r cycle_bytes).0 ≡ min (4 * nframes) (space r)
  put_count r =
      write_count r cycle_bytes
      ∙ ap (λ (k : ℕ). min k (space r)) (port_get_buffer_length s j nframes)

  -- With room for the whole cycle, the write returns 0 and appends every sample; nothing else of
  -- the port changes.
  pub write-fits :
      {r : Ring}
      → p.jport ≡ some j
      → p.rb ≡ some r
      → nframes < 2 ^ 32
      → 4 * nframes ≤ space r
      → (r' : Ring) × (write_to_ringbuffer R J s p nframes ≡ ok (pos 0, record p { rb = some r' }))
        × (contents r' ≡ contents r ++ cycle_bytes)
        × (capacity r' ≡ capacity r)
  unfolding write_to_ringbuffer
  write-fits {r} given has small fits = (
    (write r cycle_bytes).1,
    rw (
      given,
      has,
      size_fits small,
      whole (4 * nframes) refl,
      le→ltb (write r cycle_bytes).0 (4 * nframes) (omega (arith, put_count r)),
    ),
    write_contents r cycle_bytes ∙ ap (λ t. contents r ++ t) (whole _ (omega (arith, put_count r))),
    write_capacity r cycle_bytes,
  )

  -- Without, it returns -1, counts an overrun, and has filled the ring to the brim with the first
  -- bytes of the cycle.
  pub write_overruns :
      {r : Ring}
      → p.jport ≡ some j
      → p.rb ≡ some r
      → nframes < 2 ^ 32
      → space r < 4 * nframes
      → (r' : Ring) × (write_to_ringbuffer R J s p nframes
          ≡ ok (minus_one, record p { rb = some r'; overruns = (p.overruns + 1) % 2 ^ 32 }))
        × (contents r' ≡ contents r ++ take (space r) cycle_bytes)
        × (length (contents r') ≡ capacity r)
        × (capacity r' ≡ capacity r)
  unfolding write_to_ringbuffer
  write_overruns {r} given has small over = (
    (write r cycle_bytes).1,
    rw (
      given,
      has,
      size_fits small,
      whole (4 * nframes) refl,
      lt→ltb (write r cycle_bytes).0 (4 * nframes) (omega (arith, put_count r)),
    ),
    added,
    omega (
      arith,
      ap length added,
      length-append (contents r) (take (space r) cycle_bytes),
      length-take (space r) cycle_bytes,
      port_get_buffer_length s j nframes,
      bounded r,
    ),
    write_capacity r cycle_bytes,
  )
    where
      added : contents (write r cycle_bytes).1 ≡ contents r ++ take (space r) cycle_bytes
      added =
          write_contents r cycle_bytes
          ∙ ap (λ (k : ℕ). contents r ++ take k cycle_bytes) (omega (arith, put_count r))
