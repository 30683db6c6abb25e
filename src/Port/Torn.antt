-- ===== src/Port/Torn.antt =====
-- JacksRbPort.c: what an overrun does to the samples of later cycles.
use jacks.Prelude.{
  ℕ, ◌+◌, ◌-◌, ◌*◌, ◌%◌, ◌^◌, ◌≤◌, ◌<◌, ◌≡◌, ◌≢◌, refl, ◌∙◌, ap, List, ◌++◌, some, pos, minus_one,
  length, drop, arith, length-drop,
}
use jacks.Memory.{ok}
use jacks.Libraries.{RingLib, JackLib}
use jacks.Port.{Port, read_from_ringbuffer, write_to_ringbuffer}
use jacks.Port.Stream.{IsReady, Fetched, read_from_ringbuffer_lem}
use jacks.Port.Write.{space, write-fits, write_overruns}
use jacks.Port.Flow.{refilled}

module _ (R : RingLib) (J : JackLib) where
  open R use {Ring, contents, capacity}
  open J use {Server, port_get_buffer}

  left_over :
      (cap size : ℕ) (xs : List ℕ)
      → length xs ≡ cap
      → size ≤ cap
      → size % 4 ≡ 0
      → cap % 4 ≢ 0
      → length (drop size xs) % 4 ≢ 0
  left_over cap size xs full below whole odd e = odd (omega (arith, length-drop size xs))

  -- An overrun shifts the samples of the cycles behind it. On a ready port of JACK's whose ring has a
  -- capacity that is no multiple of four bytes and at least `rb_size`, which is one: a cycle that
  -- overruns returns -1; the program's next read takes `rb_size` bytes; and a next cycle that has
  -- room for its samples returns 0, but puts them behind a number of bytes that is no multiple of
  -- four.
  pub overrun_tears :
      (s s' : Server) (p : Port Ring) (v : IsReady R p) (j n k : ℕ)
      → p.jport ≡ some j
      → n < 2 ^ 32
      → space R J s p j n v.ring < 4 * n
      → k < 2 ^ 32
      → 4 * k ≤ p.rb_size
      → p.rb_size % 4 ≡ 0
      → p.rb_size ≤ capacity v.ring
      → capacity v.ring % 4 ≢ 0
      → (p1 p2 p3 : Port Ring) × (array torn : List ℕ) × (len : ℕ) × (ring : Ring)
        × (write_to_ringbuffer R J s p n ≡ ok (minus_one, p1))
        × (read_from_ringbuffer R p1 ≡ ok (some array, len, p2))
        × (len ≡ p.rb_size)
        × (write_to_ringbuffer R J s' p2 k ≡ ok (pos 0, p3))
        × (p3.rb ≡ some ring)
        × (contents ring ≡ torn ++ port_get_buffer s' j k)
        × (length torn % 4 ≢ 0)
  overrun_tears s s' p v j n k given small over small' fits whole below odd =
      let (r, wrote, _, full, same) = write_overruns R J s p j n given v.has_ring small over in
      let over' : ℕ = (p.overruns + 1) % 2 ^ 32 in
      let p1 : Port Ring = record p { rb = some r; overruns = over' } in
      let v1 : IsReady R p1 = refilled R J p v r over' in
      let got : Fetched R p1 v1 = read_from_ringbuffer_lem R p1 v1 in
      let left : length (drop p.rb_size (contents r)) ≡ capacity v.ring - p.rb_size =
        length-drop p.rb_size (contents r) ∙ ap (λ (l : ℕ). l - p.rb_size) full in
      let (ring, wrote', held, _) =
        write-fits R J s' got.after j k (got.kept ∙ given) got.ready.has_ring small'
          (omega (arith, ap length got.rest, got.same, same, left, below, fits)) in
      (
        p1,
        got.after,
        record (got.after) { rb = some ring },
        got.array,
        drop p.rb_size (contents r),
        got.len,
        ring,
        wrote,
        got.returns,
        got.count ∙ omega (arith, full, below),
        wrote',
        refl,
        held ∙ ap (λ t. t ++ port_get_buffer s' j k) got.rest,
        left_over (capacity v.ring) p.rb_size (contents r) full below whole odd,
      )
