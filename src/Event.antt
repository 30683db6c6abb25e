-- ===== src/Event.antt =====
-- corelib/JacksEvent.c: the events that a client hands to the program, with a completion callback.
use jacks.Prelude.{ℕ, Bool, Option, none, some, if◌then◌else◌, ℤ}
use jacks.Memory.{assert_failed, Outcome, ok, fault, ◌>>=◌, Ptr, Store, release}

-- `JSEVENT_CTOKEN`: a function of its argument that may change the memory `W`.
abbrev pub CToken : Type 0 → Type 0
CToken W = Ptr → W → Outcome (ℤ × W)

-- `struct jacks_event_T`; `payload` is its field `data`, a pointer to a session event.
pub record Event (W : Type 0) : Type 0 where
  pub etype : ℕ
  pub payload : Ptr
  pub ctoken : Option (CToken W)
  pub ctoken_arg : Ptr

module _ {W : Type 0} where
  -- `JacksEvent_new`; the first argument says whether malloc succeeds.
  unfoldable pub new : Bool → ℕ → Option (CToken W) → Ptr → Option (Event W)
  new room etype ctoken ctoken_arg =
      if room
      then some (record { etype = etype; payload = none; ctoken = ctoken; ctoken_arg = ctoken_arg })
      else none

  -- `JacksEvent_free`
  unfoldable pub free : Ptr → Store (Event W) → Outcome (Store (Event W))
  free p m = elim p [ none ↦ fault assert_failed | some a ↦ release m (some a) ]

  -- `JacksEvent_complete`
  unfoldable pub complete : Event W → W → Outcome W
  complete e w = elim e.ctoken [ none ↦ ok w | some f ↦ f e.ctoken_arg w >>= λ r. ok r.1 ]

  unfoldable pub get_type : Event W → ℕ
  get_type e = e.etype

  unfoldable pub get_data : Event W → Ptr
  get_data e = e.payload

  unfoldable pub set_data : Event W → Ptr → Event W
  set_data e p = record e { payload = p }
