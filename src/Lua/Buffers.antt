-- ===== src/Lua/Buffers.antt =====
-- modules/lua/Jacks_lua_wrap.c: the samples that reach a script, and the buffers that hold them.
use jacks.Prelude.{
  ℕ, suc, ◌%◌, ◌^◌, ◌≡◌, ◌≢◌, refl, ap₂, ◌∙◌, Bool, false, List, [], ◌∷◌, Option, some, inl, inr,
  Option-cases, length, take, drop, min, arith, ltb, if◌then◌else◌,
}
use jacks.Memory.{Outcome, ok, fault, ◌>>=◌, Ptr, Store, alloc}
use jacks.Memory.Access.{IsAt, saved, save_lem, load-saved, load-alloc_self, update_self, update_ne}
use jacks.Libraries.{Libs, RingLib}
use jacks.Exceptions.{clear_exception, check_exception}
use jacks.Port.{Port, read_from_ringbuffer, copy_to}
use jacks.Port.Stream.{IsReady, Fetched, read_from_ringbuffer_lem}
use jacks.Lua.Values.{LuaLib, userdata, port, port_buffer, Method, swig_convert_ptr}
use jacks.Lua.Act.{ret}
use jacks.Lua.Machine.{Machine, Env, PortBox, buffer_at}
use jacks.Lua.Functions.Ports.{js_port_get_buffer, port_of, put_port}
use jacks.Lua.Wrappers.Ports.{wrap_js_port_get_buffer}
use jacks.Lua.Checks.{check_num_args, check_ptr_type, convert_ptr, protect, rethrow}
use jacks.Lua.Dispatch.{call}

module _ (R : RingLib) where
  open R use {Ring, contents}

  -- The array that a read returns is the port's own.
  framebuf_lem :
      (p p' : Port Ring) (fb : Option (List ℕ)) (len : ℕ)
      → read_from_ringbuffer R p ≡ ok (fb, len, p')
      → (p'.framebuf ≡ fb) × (p'.rb_size ≡ p.rb_size)
  unfolding read_from_ringbuffer
  framebuf_lem p p' fb len e = elim (Option-cases p.rb) [
    | inl h ↦ let gone = rw h at e in cc
    | inr (r, h) ↦ at_copy r (rw h at e)
  ]
    where
      size : Ring → ℕ
      size r = if ltb (R.read_space r) p.rb_size then R.read_space r else p.rb_size

      last : Ring → Option (List ℕ) → Outcome (Option (List ℕ) × ℕ × Port Ring)
      last r b = ok (b, size r % 2 ^ 32, record p { rb = some (R.read r (size r)).1; framebuf = b })

      copied :
          (r : Ring) (o : Outcome (Option (List ℕ)))
          → (o >>= last r) ≡ ok (fb, len, p')
          → (p'.framebuf ≡ fb) × (p'.rb_size ≡ p.rb_size)
      copied r (ok b) e = ground arith
      copied r (fault x) e = cc

      at_copy :
          (r : Ring)
          → (copy_to p.framebuf (R.read r (size r)).0 >>= last r) ≡ ok (fb, len, p')
          → (p'.framebuf ≡ fb) × (p'.rb_size ≡ p.rb_size)
      at_copy r e = copied r (copy_to p.framebuf (R.read r (size r)).0) e

load-alloc_older :
    {A : Type 0} (s : Store A) (x y : A)
    → IsAt (alloc (alloc s (some x)).1 (some y)).1 (some s.fresh) x
load-alloc_older s x y = rw (
  update_ne (alloc s (some x)).1.cell (suc s.fresh) s.fresh (some y) (λ e. omega arith),
  update_self s.cell s.fresh (some x),
)

module _ (L : Libs) (Q : LuaLib) (E : Env L) where
  -- What a buffer object shows is in the port that it points to.
  shows :
      (m : Machine L) (b a len : ℕ) (here : Port L.rings.Ring) (fb : Option (List ℕ))
      → IsAt m.buffers (some b) (record { framebuf = some a; len = len })
      → IsAt m.objects.rb_ports (some a) here
      → here.framebuf ≡ fb
      → buffer_at L m (some b) ≡ ok (record { framebuf = fb; len = len })
  shows m b a len here fb h1 h2 h3 = rw (h1, h2, h3) refl

  abbrev fetched : Machine L → Ptr → Port L.rings.Ring → ℕ → Machine L
  fetched m a p len = record m {
    objects = record (m.objects) { rb_ports = saved m.objects.rb_ports a p };
    buffers = (alloc m.buffers (some (record { framebuf = a; len = len }))).1;
    errors = clear_exception m.errors;
  }

  fetched_lem :
      (m : Machine L) (p : ℕ) (own : Bool) (box : PortBox) (here after : Port L.rings.Ring)
      (fb : Option (List ℕ)) (len : ℕ)
      → IsAt m.ports (some p) box
      → IsAt m.objects.rb_ports box.impl here
      → read_from_ringbuffer L.rings here ≡ ok (fb, len, after)
      → call L Q E Method.get_buffer (userdata port p own ∷ []) m
        ≡ ret (userdata port_buffer m.buffers.fresh false ∷ []) (fetched m box.impl after len)
  unfolding call wrap_js_port_get_buffer js_port_get_buffer port_of put_port check_num_args
      check_ptr_type convert_ptr swig_convert_ptr protect rethrow clear_exception check_exception
  fetched_lem m p own box here after fb len h1 h2 e =
      rw (h1, h2, e, save_lem m.objects.rb_ports box.impl here after h2) refl

  -- Two reads, and what the two buffers show afterwards.
  two_reads :
      (m : Machine L) (p a : ℕ) (own : Bool) (c : Ptr) (here next last : Port L.rings.Ring)
      (one two : List ℕ) (k k' : ℕ)
      → IsAt m.ports (some p) (record { impl = some a; clientimpl = c })
      → IsAt m.objects.rb_ports (some a) here
      → read_from_ringbuffer L.rings here ≡ ok (some one, k, next)
      → read_from_ringbuffer L.rings next ≡ ok (some two, k', last)
      → (q q' : ℕ) × (n n' : Machine L) × (call L Q E Method.get_buffer (userdata port p own ∷ []) m
          ≡ ret (userdata port_buffer q false ∷ []) n)
        × (call L Q E Method.get_buffer (userdata port p own ∷ []) n
            ≡ ret (userdata port_buffer q' false ∷ []) n')
        × (q ≢ q')
        × (buffer_at L n (some q) ≡ ok (record { framebuf = some one; len = k }))
        × (buffer_at L n' (some q) ≡ ok (record { framebuf = some two; len = k }))
        × (buffer_at L n' (some q') ≡ ok (record { framebuf = some two; len = k' }))
  two_reads m p a own c here next last one two k k' h1 h2 e1 e2 =
      let box : PortBox = record { impl = some a; clientimpl = c } in
      let n : Machine L = fetched m (some a) next k in
      let n' : Machine L = fetched n (some a) last k' in
      let there : IsAt n.objects.rb_ports (some a) next =
        load-saved m.objects.rb_ports (some a) here next h2 in
      let at_last : IsAt n'.objects.rb_ports (some a) last =
        load-saved n.objects.rb_ports (some a) next last there in
      let grown : last.framebuf ≡ some two = (framebuf_lem L.rings next last (some two) k' e2).0 in
      (
        m.buffers.fresh,
        suc m.buffers.fresh,
        n,
        n',
        fetched_lem m p own box here next (some one) k h1 h2 e1,
        fetched_lem n p own box next last (some two) k' h1 there e2,
        (λ e. omega arith),
        shows n m.buffers.fresh a k next (some one)
            (load-alloc_self m.buffers (record { framebuf = some a; len = k })) there
            (framebuf_lem L.rings here next (some one) k e1).0,
        shows n' m.buffers.fresh a k last (some two)
            (load-alloc_older m.buffers (record { framebuf = some a; len = k })
              (record { framebuf = some a; len = k' }))
            at_last grown,
        shows n' (suc m.buffers.fresh) a k' last (some two)
            (load-alloc_self n.buffers (record { framebuf = some a; len = k' })) at_last grown,
      )

  -- On a live port, `p:getBuffer()` gives a buffer with the oldest `rb_size` bytes that wait in the
  -- ring, or all if there are fewer, and a second `p:getBuffer()` one with those that follow. But
  -- both buffers point to the array of the port: after the second call, the first buffer shows the
  -- second's bytes, under the length that it had.
  pub get_buffer_lem :
      (m : Machine L) (p a : ℕ) (own : Bool) (c : Ptr) (here : Port L.rings.Ring)
      (v : IsReady L.rings here)
      → IsAt m.ports (some p) (record { impl = some a; clientimpl = c })
      → IsAt m.objects.rb_ports (some a) here
      → (q q' : ℕ) × (n n' : Machine L) × (one two : List ℕ) × (k k' : ℕ) × (call L Q E
            Method.get_buffer
            (userdata port p own ∷ [])
            m
          ≡ ret (userdata port_buffer q false ∷ []) n)
        × (call L Q E Method.get_buffer (userdata port p own ∷ []) n
            ≡ ret (userdata port_buffer q' false ∷ []) n')
        × (q ≢ q')
        × (buffer_at L n (some q) ≡ ok (record { framebuf = some one; len = k }))
        × (buffer_at L n' (some q) ≡ ok (record { framebuf = some two; len = k }))
        × (buffer_at L n' (some q') ≡ ok (record { framebuf = some two; len = k' }))
        × (k ≡ min (length (L.rings.contents v.ring)) here.rb_size)
        × (take k one ≡ take here.rb_size (L.rings.contents v.ring))
        × (take k' two ≡ take here.rb_size (drop here.rb_size (L.rings.contents v.ring)))
  get_buffer_lem m p a own c here v h1 h2 =
      let f : Fetched L.rings here v = read_from_ringbuffer_lem L.rings here v in
      let g : Fetched L.rings f.after f.ready = read_from_ringbuffer_lem L.rings f.after f.ready in
      let (q, q', n, n', c1, c2, ne, b1, b2, b3) =
        two_reads m p a own c here f.after g.after f.array g.array f.len g.len h1 h2 f.returns
          g.returns in
      let size : f.after.rb_size ≡ here.rb_size =
        (framebuf_lem L.rings here f.after (some f.array) f.len f.returns).1 in
      (
        q,
        q',
        n,
        n',
        f.array,
        g.array,
        f.len,
        g.len,
        c1,
        c2,
        ne,
        b1,
        b2,
        b3,
        f.count,
        f.bytes,
        g.bytes ∙ ap₂ take size f.rest,
      )
