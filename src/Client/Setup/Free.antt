-- ===== src/Client/Setup/Free.antt =====
-- JacksRbClient.c: `JacksRbClient_free`.
use jacks.Prelude.{ℕ, ◌≡◌}
use jacks.Memory.{Outcome, ok, fault}
use jacks.Memory.Access.{IsAt}
use jacks.Libraries.{Libs}
use jacks.Latch
use jacks.Latch.{Latch}
use jacks.Event
use jacks.Client.State.{process, session, sample_rate_change, shutdown, event_code, JsEvent, World}

abbrev type_of : Outcome JsEvent → ℕ
type_of (ok e) = e.etype
type_of (fault e) = 0

module _ (L : Libs) where
  -- The four events of a client, each of its type, and its latch are live; what the events carry,
  -- and the status of the latch, are open.
  pub record HasObjects (w : World L) : Type 0 where
    pub process_at : JsEvent
    pub session_at : JsEvent
    pub sample_rate_at : JsEvent
    pub shutdown_at : JsEvent
    pub latch_at : Latch
    pub on_process : IsAt w.objects.events w.self.process_event process_at
    pub on_session : IsAt w.objects.events w.self.session_event session_at
    pub on_sample_rate : IsAt w.objects.events w.self.sample_rate_event sample_rate_at
    pub on_shutdown : IsAt w.objects.events w.self.shutdown_event shutdown_at
    pub on_latch : IsAt w.objects.latches w.self.session_latch latch_at
    pub process_typed : process_at.etype ≡ event_code process
    pub session_typed : session_at.etype ≡ event_code session
    pub sample_rate_typed : sample_rate_at.etype ≡ event_code sample_rate_change
    pub shutdown_typed : shutdown_at.etype ≡ event_code shutdown
