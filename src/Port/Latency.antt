-- ===== src/Port/Latency.antt =====
-- JacksRbPort.c: the sockets of the latency callbacks.
use jacks.Prelude.{◌≡◌, true, false, [], ◌∷◌, Option, some, ℤ, minus_one, nonzero, arith}
use jacks.Memory.{Ptr}
use jacks.Libraries.{RingLib, JackLib, latency_listener_fd}
use jacks.Port.{Port, Fds, no_fds, write_b, init_capture, init_playback, wakeup_latency_callbacks}

module _ (R : RingLib) (J : JackLib) (client_of : Ptr → Ptr) (self : Ptr) where
  open J use {Server, set_latency_callback}

  -- What the registration with JACK answers.
  abbrev pub answer : Server → Port R.Ring → ℤ × Server
  answer s p = set_latency_callback s (client_of p.jackclient) latency_listener_fd self

  -- On a port with no socket and no callback: the first call of `init_capture_latency_listener`
  -- asks JACK once. Where JACK accepts, the capture socket is returned, a call for playback then
  -- asks JACK nothing more and returns the playback socket, and a wakeup reaches both sockets,
  -- playback first.
  one_registration :
      (s : Server) (p : Port R.Ring) (fds gds : Fds)
      → p.capture_lat_cb_fd ≡ no_fds
      → p.playback_lat_cb_fd ≡ no_fds
      → p.lat_cb_is_init ≡ false
      → nonzero (answer s p).0 ≡ false
      → nonzero fds.near ≡ true
      → nonzero gds.near ≡ true
      → let (fd, q, t) = init_capture R J client_of s self p (some fds) in
        let (gd, r, u) = init_playback R J client_of t self q (some gds) in
        (fd ≡ fds.far)
        × (gd ≡ gds.far)
        × (u ≡ (answer s p).1)
        × (wakeup_latency_callbacks r ≡ write_b gds.near ∷ write_b fds.near ∷ [])
  unfolding init_capture init_playback wakeup_latency_callbacks
  one_registration s p fds gds c b i a nf ng = ground arith

  -- A failed registration is forgotten. The first call returns -1 and leaves the sockets in the
  -- port, so every later call, whatever JACK would answer, returns the socket as if all were well,
  -- asks JACK nothing, and leaves the callback unregistered.
  init_capture_retry :
      (s t : Server) (p : Port R.Ring) (fds : Fds) (pair : Option Fds)
      → nonzero p.capture_lat_cb_fd.far ≡ false
      → p.lat_cb_is_init ≡ false
      → nonzero (answer s p).0 ≡ true
      → nonzero fds.far ≡ true
      → let (fd, q, _) = init_capture R J client_of s self p (some fds) in
        (fd ≡ minus_one)
        × (init_capture R J client_of t self q pair ≡ (fds.far, q, t))
        × (q.lat_cb_is_init ≡ false)
  unfolding init_capture
  init_capture_retry s t p fds pair c i a nf = ground arith

  -- The playback call has the same flaw.
  init_playback_retry :
      (s t : Server) (p : Port R.Ring) (fds : Fds) (pair : Option Fds)
      → nonzero p.playback_lat_cb_fd.far ≡ false
      → p.lat_cb_is_init ≡ false
      → nonzero (answer s p).0 ≡ true
      → nonzero fds.far ≡ true
      → let (fd, q, _) = init_playback R J client_of s self p (some fds) in
        (fd ≡ minus_one)
        × (init_playback R J client_of t self q pair ≡ (fds.far, q, t))
        × (q.lat_cb_is_init ≡ false)
  unfolding init_playback
  init_playback_retry s t p fds pair c i a nf = ground arith
