-- ===== src/Port/Stream.antt =====
-- JacksRbPort.c: the bytes that pass through a port's ring buffer.
use jacks.Prelude.{
  ℕ, zero, suc, ◌%◌, ◌^◌, ◌≤◌, ◌<◌, ◌≡◌, refl, sym, ◌∙◌, ap, List, [], ◌∷◌, ◌++◌, some, ltb, le→ltb,
  if◌then◌else◌, length, take, drop, min, arith, dec_lt, take_all, drop_all, length-take,
  length-drop, length-append,
}
use jacks.Memory.{ok}
use jacks.Libraries.{RingLib}
use jacks.Port.{Port, read_from_ringbuffer, copy_to}

copy_to_fits :
    (block bs : List ℕ)
    → length bs ≤ length block
    → copy_to (some block) bs ≡ ok (some (bs ++ drop (length bs) block))
copy_to_fits block bs h = rw (le→ltb (length block) (length bs) h)

take-append_self : (n : ℕ) (xs ys : List ℕ) → length xs ≡ n → take n (xs ++ ys) ≡ xs
take-append_self zero [] ys h = refl
take-append_self zero (x ∷ xs) ys h = absurd (omega arith)
take-append_self (suc n) [] ys h = absurd (omega arith)
take-append_self (suc n) (x ∷ xs) ys h = ap (λ t. x ∷ t) (take-append_self n xs ys (omega arith))

take-min : (n : ℕ) (xs : List ℕ) → take (min (length xs) n) xs ≡ take n xs
take-min n xs = elim (dec_lt (length xs) n) [
  | yes h ↦
      let e : min (length xs) n ≡ length xs = omega arith in
      rw e (take_all (length xs) xs (omega arith) ∙ sym (take_all n xs (omega arith)))
  | no h ↦ ap (λ k. take k xs) (omega arith)
]

drop-min : (n : ℕ) (xs : List ℕ) → drop (min (length xs) n) xs ≡ drop n xs
drop-min n xs = elim (dec_lt (length xs) n) [
  | yes h ↦
      let e : min (length xs) n ≡ length xs = omega arith in
      rw e (drop_all (length xs) xs (omega arith) ∙ sym (drop_all n xs (omega arith)))
  | no h ↦ ap (λ k. drop k xs) (omega arith)
]

smaller : (a b : ℕ) → (if ltb a b then a else b) ≡ min a b
smaller a b = ground arith

module _ (R : RingLib) where
  open R use {
    Ring, read, contents, capacity, write_count, write_contents, write_capacity, bounded,
    read_space_lem, read_bytes, read_contents, read_capacity, create_empty,
  }

  -- Both allocations of the constructor succeeded; the frame buffer has `rb_size` bytes.
  pub record IsReady (p : Port Ring) : Type 0 where
    pub ring : Ring
    pub buffer : List ℕ
    pub has_ring : p.rb ≡ some ring
    pub has_buffer : p.framebuf ≡ some buffer
    pub sized : length buffer ≡ p.rb_size
    pub small : p.rb_size < 2 ^ 32

  -- What one read gives: `len` bytes at the start of the returned array.
  pub record Fetched (p : Port Ring) (v : IsReady p) : Type 0 where
    pub array : List ℕ
    pub len : ℕ
    pub after : Port Ring
    pub ready : IsReady after
    pub returns : read_from_ringbuffer R p ≡ ok (some array, len, after)
    pub count : len ≡ min (length (contents v.ring)) p.rb_size
    pub bytes : take len array ≡ take p.rb_size (contents v.ring)
    pub rest : contents ready.ring ≡ drop p.rb_size (contents v.ring)
    pub kept : after.jport ≡ p.jport
    pub same : capacity ready.ring ≡ capacity v.ring

  -- From a ready port a read never faults, and in particular never writes past the frame buffer. It
  -- takes the oldest `rb_size` bytes, or all if there are fewer, and leaves the others.
  pub read_from_ringbuffer_lem : (p : Port Ring) (v : IsReady p) → Fetched p v
  unfolding read_from_ringbuffer
  read_from_ringbuffer_lem p v = record {
    array = got.0 ++ drop (length got.0) v.buffer;
    len = blen;
    after = next;
    ready = record {
      ring = got.1;
      buffer = got.0 ++ drop (length got.0) v.buffer;
      has_ring = refl;
      has_buffer = refl;
      sized = omega (
        arith,
        length-append got.0 (drop (length got.0) v.buffer),
        length-drop (length got.0) v.buffer,
        got_length,
        v.sized,
      );
      small = v.small;
    };
    returns = rw (
      v.has_ring,
      v.has_buffer,
      read_space_lem v.ring,
      smaller (length (contents v.ring)) p.rb_size,
      le→ltb (length v.buffer) (length got.0) (omega (arith, got_length, v.sized)),
      in_int,
    );
    count = refl;
    bytes =
        take-append_self blen got.0 (drop (length got.0) v.buffer) got_length
        ∙ (read_bytes v.ring blen ∙ take-min p.rb_size (contents v.ring));
    rest = read_contents v.ring blen ∙ drop-min p.rb_size (contents v.ring);
    kept = refl;
    same = read_capacity v.ring blen;
  }
    where
      blen : ℕ
      blen = min (length (contents v.ring)) p.rb_size

      got : List ℕ × Ring
      got = read v.ring blen

      next : Port Ring
      next = record p { rb = some got.1; framebuf = some (got.0 ++ drop (length got.0) v.buffer) }

      got_length : length got.0 ≡ blen
      got_length =
          ap length (read_bytes v.ring blen) ∙ (length-take blen (contents v.ring) ∙ omega arith)

      in_int : blen % 2 ^ 32 ≡ blen
      in_int = omega (arith, v.small)
