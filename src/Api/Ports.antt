-- ===== src/Api/Ports.antt =====
-- modules/Jacks.i: `JsPort`, whose failures are errors of the script.
use jacks.Prelude.{
  ℕ, ◌≡◌, List, [], ◌∷◌, Bool, Option, if◌then◌else◌, ℤ, pos, nonzero, negative, Bool-cases, inl,
  inr,
}
use jacks.Memory.{Outcome, ok, ◌>>=◌, Ptr, Store}
use jacks.Libraries.{RingLib, JackLib}
use jacks.Exceptions.{Exceptions, throw_exception, clear_exception, check_exception}
use jacks.Port
use jacks.Port.{
  Port, Fds, connect_ports, init_capture, init_playback, init_signal, read_from_ringbuffer,
}
use jacks.Api.Call.{returned, raised, wrapped}
use jacks.Api.Hex.{PortBuffer}

-- The messages of the three wrappers below.
abbrev pub connect_message : List ℕ
connect_message =
    b'c' ∷ b'a' ∷ b'n' ∷ b' ' ∷ b'n' ∷ b'o' ∷ b't' ∷ b' ' ∷ b'c' ∷ b'o' ∷ b'n' ∷ b'n' ∷ b'e' ∷ b'c'
    ∷ b't' ∷ b' ' ∷ b'p' ∷ b'o' ∷ b'r' ∷ b't' ∷ b's' ∷ []

abbrev pub capture_message : List ℕ
capture_message =
    b'c' ∷ b'a' ∷ b'n' ∷ b' ' ∷ b'n' ∷ b'o' ∷ b't' ∷ b' ' ∷ b'i' ∷ b'n' ∷ b'i' ∷ b't' ∷ b' ' ∷ b'c'
    ∷ b'a' ∷ b'p' ∷ b't' ∷ b'u' ∷ b'r' ∷ b'e' ∷ b' ' ∷ b'l' ∷ b'a' ∷ b't' ∷ b'e' ∷ b'n' ∷ b'c'
    ∷ b'y' ∷ b' ' ∷ b'c' ∷ b'a' ∷ b'l' ∷ b'l' ∷ b'b' ∷ b'a' ∷ b'c' ∷ b'k' ∷ []

abbrev pub playback_message : List ℕ
playback_message =
    b'c' ∷ b'a' ∷ b'n' ∷ b' ' ∷ b'n' ∷ b'o' ∷ b't' ∷ b' ' ∷ b'i' ∷ b'n' ∷ b'i' ∷ b't' ∷ b' ' ∷ b'p'
    ∷ b'l' ∷ b'a' ∷ b'y' ∷ b'b' ∷ b'a' ∷ b'c' ∷ b'k' ∷ b' ' ∷ b'l' ∷ b'a' ∷ b't' ∷ b'e' ∷ b'n'
    ∷ b'c' ∷ b'y' ∷ b' ' ∷ b'c' ∷ b'a' ∷ b'l' ∷ b'l' ∷ b'b' ∷ b'a' ∷ b'c' ∷ b'k' ∷ []

abbrev pub signal_message : List ℕ
signal_message =
    b'c' ∷ b'a' ∷ b'n' ∷ b' ' ∷ b'n' ∷ b'o' ∷ b't' ∷ b' ' ∷ b'i' ∷ b'n' ∷ b'i' ∷ b't' ∷ b' ' ∷ b'l'
    ∷ b'a' ∷ b't' ∷ b'e' ∷ b'n' ∷ b'c' ∷ b'y' ∷ b' ' ∷ b'c' ∷ b'a' ∷ b'l' ∷ b'l' ∷ b'b' ∷ b'a'
    ∷ b'c' ∷ b'k' ∷ []

-- `if (failed) throw_exception(msg)`
abbrev pub throw_if : Bool → List ℕ → Exceptions → Exceptions
throw_if b msg e = if b then throw_exception msg e else e

module _ (R : RingLib) where
  -- `JsPort::getBuffer`: the buffer object, and the port.
  unfoldable pub get_buffer : Port R.Ring → Outcome (PortBuffer × Port R.Ring)
  get_buffer p = do
    got ← read_from_ringbuffer R p
    ok (record { framebuf = got.0; len = got.1 }, got.2)

  -- `~JsPort`
  unfoldable pub delete_port : Ptr → Store (Port R.Ring) → Outcome (Store (Port R.Ring))
  unfolding Port.free
  delete_port p m = Port.free p m

module _ (R : RingLib) (J : JackLib) (client_of : Ptr → Ptr) where
  open J use {Server}

  -- `JsPort::connect`: `rc`, the server, and the exceptions.
  unfoldable pub connect :
      Server → Port R.Ring → Port R.Ring → Exceptions → (ℤ × Server) × Exceptions
  connect s this that e =
      let (rc, s') = connect_ports R J client_of s this that in
      ((rc, s'), throw_if (nonzero rc) connect_message e)

  -- `JsPort::initCaptureLatencyListener`
  unfoldable pub init_capture_listener :
      Server → Ptr → Port R.Ring → Option Fds → Exceptions → (ℤ × Port R.Ring × Server) × Exceptions
  init_capture_listener s self p pair e =
      let (fd, p', s') = init_capture R J client_of s self p pair in
      ((fd, p', s'), throw_if (negative fd) capture_message e)

  -- `JsPort::initPlaybackLatencyListener`
  unfoldable pub init_playback_listener :
      Server → Ptr → Port R.Ring → Option Fds → Exceptions → (ℤ × Port R.Ring × Server) × Exceptions
  init_playback_listener s self p pair e =
      let (fd, p', s') = init_playback R J client_of s self p pair in
      ((fd, p', s'), throw_if (negative fd) playback_message e)

  -- `JsPort::initLatencyListener`
  unfoldable pub init_listener : Server → Ptr → Port R.Ring → Exceptions → (ℤ × Server) × Exceptions
  init_listener s self p e =
      let (rc, s') = init_signal R J client_of s self p in
      ((rc, s'), throw_if (nonzero rc) signal_message e)

  -- Whatever error an earlier call left: the wrapped `connect` returns 0 where JACK connects the
  -- ports, and raises an error, with what its message made of the buffer, where JACK refuses.
  wrapped_connect :
      (s : Server) (this that : Port R.Ring) (e : Exceptions)
      → let (rc, s') =
          J.connect s
            (client_of this.jackclient)
            (J.port_name s this.jport)
            (J.port_name s that.jport) in
        wrapped (λ x. ok (connect s this that x)) e
        ≡ ok (
            if nonzero rc
            then (
              raised (throw_exception connect_message e).error_message,
              throw_exception connect_message e,
            )
            else (returned (pos 0, s'), clear_exception e))
  unfolding wrapped connect connect_ports throw_exception check_exception clear_exception
  wrapped_connect s this that e =
      elim (Bool-cases (
        nonzero
          (J.connect s (client_of this.jackclient) (J.port_name s this.jport)
            (J.port_name s that.jport)).0)) [ inl h ↦ rw h | inr h ↦ rw h ]
