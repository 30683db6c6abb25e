-- ===== src/Port.antt =====
-- corelib/JacksRbPort.c: a JACK port with a ring buffer between the process callback, which writes,
-- and the program, which reads; and the sockets by which a program waits for latency callbacks.
pub mod Stream
pub mod Write
pub mod Flow
pub mod Torn
pub mod Latency
mod Tests
use jacks.Prelude.{
  ℕ, zero, suc, ◌+◌, ◌-◌, ◌*◌, ◌%◌, ◌^◌, ◌<◌, ◌≡◌, Bool, true, false, not, ◌&&◌, List, [], ◌∷◌,
  ◌++◌, Option, none, some, ltb, if◌then◌else◌, length, take, drop, ℤ, pos, minus_one, nonzero,
  ◌==◌,
}
use jacks.Memory.{
  Fault, null_pointer, out_of_bounds, assert_failed, Outcome, ok, fault, ◌>>=◌, Ptr, Store, release,
}
use jacks.Libraries.{
  RingLib, JackLib, Malloc, LatencyCallback, latency_listener_fd, latency_listener,
}

-- `int fd[2]`
pub record Fds : Type 0 where
  pub near : ℤ
  pub far : ℤ

abbrev pub no_fds : Fds
no_fds = record { near = pos 0; far = pos 0 }

-- `struct JacksRbPort`. `framebuf` and `rb` are `none` where their allocation failed; `overruns` is
-- an int's bit pattern.
pub record Port (Ring : Type 0) : Type 0 where
  pub playback_lat_cb_fd : Fds
  pub capture_lat_cb_fd : Fds
  pub lat_cb_is_init : Bool
  pub rb_size : ℕ
  pub jport : Ptr
  pub jackclient : Ptr
  pub rb : Option Ring
  pub framebuf : Option (List ℕ)
  pub overruns : ℕ

-- `sizeof(jack_default_audio_sample_t)`, a float
abbrev pub jacks_sample_size : ℕ
jacks_sample_size = 4

-- What a latency callback does: write "b" to a socket, or raise SIGUSR2.
pub data Wakeup : Type 0 where
  write_b : ℤ → Wakeup
  raise_sigusr2 : Wakeup

-- `jack_latency_callback_mode_t`
pub data Mode : Type 0 where
  capture_latency playback_latency unknown_latency : Mode

-- `latency_listener_fd`
unfoldable pub listener_fd : {Ring : Type 0} → Mode → Port Ring → List Wakeup
listener_fd capture_latency p =
    if nonzero p.capture_lat_cb_fd.near then write_b p.capture_lat_cb_fd.near ∷ [] else []
listener_fd playback_latency p =
    if nonzero p.playback_lat_cb_fd.near then write_b p.playback_lat_cb_fd.near ∷ [] else []
listener_fd unknown_latency p = []

-- `latency_listener`, and `JacksRbPort_wakeup_sig_latency_cb`, which calls it
unfoldable pub wakeup_sig_latency_cb : {Ring : Type 0} → Port Ring → List Wakeup
wakeup_sig_latency_cb p = raise_sigusr2 ∷ []

-- `JacksRbPort_wakeup_latency_callbacks`
unfoldable pub wakeup_latency_callbacks : {Ring : Type 0} → Port Ring → List Wakeup
unfolding listener_fd
wakeup_latency_callbacks p = listener_fd playback_latency p ++ listener_fd capture_latency p

-- `JacksRbPort_get_port`
unfoldable pub get_port : {Ring : Type 0} → Port Ring → Ptr
get_port p = p.jport

-- `JacksRbPort_free`: the struct and its frame buffer.
unfoldable pub free : {Ring : Type 0} → Ptr → Store (Port Ring) → Outcome (Store (Port Ring))
free p m = elim p [ none ↦ fault assert_failed | some a ↦ release m (some a) ]

-- `n` bytes copied to the start of a block.
abbrev pub copy_to : Option (List ℕ) → List ℕ → Outcome (Option (List ℕ))
copy_to none [] = ok none
copy_to none (b ∷ bs) = fault null_pointer
copy_to (some block) bs =
    if ltb (length block) (length bs)
    then fault out_of_bounds
    else ok (some (bs ++ drop (length bs) block))

-- A library call through the pointer `rb`.
abbrev pub the_ring : {Ring : Type 0} → Option Ring → Outcome Ring
the_ring none = fault null_pointer
the_ring (some r) = ok r

-- JACK goes through the pointer to a port.
abbrev pub the_port : Ptr → Outcome ℕ
the_port none = fault null_pointer
the_port (some j) = ok j

-- The port is one that JACK gave, and not the NULL of a failed registration.
abbrev pub IsRegistered : {Ring : Type 0} → Port Ring → Type 0
IsRegistered p = (j : ℕ) × (p.jport ≡ some j)

module _ (R : RingLib) where
  open R use {Ring, create, write, read_space, read}

  -- `JacksRbPort_new`
  unfoldable pub new : Malloc → Ptr → Ptr → ℕ → Option (Port Ring)
  new m jport jackclient rb_size =
      if m.room
      then some (record {
        playback_lat_cb_fd = no_fds;
        capture_lat_cb_fd = no_fds;
        lat_cb_is_init = false;
        rb_size = rb_size;
        jport = jport;
        jackclient = jackclient;
        rb = create (jacks_sample_size * rb_size % 2 ^ 64);
        framebuf = m.bytes rb_size;
        overruns = m.leftover;
      })
      else none

  -- `JacksRbPort_read_from_ringbuffer`: the array that it returns, `*len`, and the port.
  unfoldable pub read_from_ringbuffer : Port Ring → Outcome (Option (List ℕ) × ℕ × Port Ring)
  read_from_ringbuffer p = do
    r ← the_ring p.rb
    let avail = read_space r
    let blen = if ltb avail p.rb_size then avail else p.rb_size
    let got = read r blen
    buffer ← copy_to p.framebuf got.0
    ok (buffer, blen % 2 ^ 32, record p { rb = some got.1; framebuf = buffer })

module _ (R : RingLib) (J : JackLib) where
  open R use {Ring, write}
  open J use {Server, port_register, port_name, connect, set_latency_callback, port_get_buffer}

  -- `JacksRbPort_write_to_ringbuffer`
  unfoldable pub write_to_ringbuffer : Server → Port Ring → ℕ → Outcome (ℤ × Port Ring)
  write_to_ringbuffer s p nframes = do
    j ← the_port p.jport
    let buff = port_get_buffer s j nframes
    let write_size = jacks_sample_size * nframes % 2 ^ 64
    r ← the_ring p.rb
    let put = write r (take write_size buff)
    ok (
        if ltb put.0 write_size
        then (minus_one, record p { rb = some put.1; overruns = (p.overruns + 1) % 2 ^ 32 })
        else (pos 0, record p { rb = some put.1 }))

  -- `client_of` is `JacksRbClient_get_client`: it reads the JACK handle of the client at an address.
  module _ (client_of : Ptr → Ptr) where
    -- `JacksRbPort_new_port`
    unfoldable pub new_port : Malloc → Server → List ℕ → ℕ → Ptr → ℕ → Option (Port Ring) × Server
    unfolding new
    new_port m s name options jackclient rb_size =
        let (jport, s') = port_register s (client_of jackclient) name options in
        (new R m jport jackclient rb_size, s')

    -- `JacksRbPort_connect`
    unfoldable pub connect_ports : Server → Port Ring → Port Ring → ℤ × Server
    connect_ports s this that =
        let (rc, s') =
          connect s (client_of this.jackclient) (port_name s this.jport) (port_name s that.jport) in
        (if nonzero rc then minus_one else pos 0, s')

    -- `register_lat_cb`; `self` is the address of the port `p`.
    unfoldable pub register_lat_cb : Server → Ptr → Port Ring → ℤ × Port Ring × Server
    register_lat_cb s self p =
        let (rc, s') = set_latency_callback s (client_of p.jackclient) latency_listener_fd self in
        (rc, if nonzero rc then p else record p { lat_cb_is_init = true }, s')

    -- The common end of the two functions below: `!lat_cb_is_init && register_lat_cb(_this_) != 0`.
    unfoldable pub ensure_lat_cb : Server → Ptr → Port Ring → ℤ → ℤ × Port Ring × Server
    unfolding register_lat_cb
    ensure_lat_cb s self p fd =
        if p.lat_cb_is_init
        then (fd, p, s)
        else (let (rc, p', s') = register_lat_cb s self p in
            (if nonzero rc then minus_one else fd, p', s'))

    -- `JacksRbPort_init_capture_latency_listener`; `pair` is what `socketpair` makes, `none` where
    -- it fails.
    unfoldable pub init_capture : Server → Ptr → Port Ring → Option Fds → ℤ × Port Ring × Server
    unfolding ensure_lat_cb
    init_capture s self p pair =
        if nonzero p.capture_lat_cb_fd.far then (p.capture_lat_cb_fd.far, p, s) else elim pair [
          | none ↦ (minus_one, p, s)
          | some fds ↦ ensure_lat_cb s self (record p { capture_lat_cb_fd = fds }) fds.far
        ]

    -- `JacksRbPort_init_playback_latency_listener`
    unfoldable pub init_playback : Server → Ptr → Port Ring → Option Fds → ℤ × Port Ring × Server
    unfolding ensure_lat_cb
    init_playback s self p pair =
        if nonzero p.playback_lat_cb_fd.far then (p.playback_lat_cb_fd.far, p, s) else elim pair [
          | none ↦ (minus_one, p, s)
          | some fds ↦ ensure_lat_cb s self (record p { playback_lat_cb_fd = fds }) fds.far
        ]

    -- `JacksRbPort_init_latency_listener`
    unfoldable pub init_signal : Server → Ptr → Port Ring → ℤ × Server
    init_signal s self p =
        let (rc, s') = set_latency_callback s (client_of p.jackclient) latency_listener self in
        (if nonzero rc then minus_one else pos 0, s')
