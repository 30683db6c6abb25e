-- ===== src/Lua/Machine.antt =====
-- modules/lua/Jacks_lua_wrap.c: the memory of a script, and what JACK answers to it.
use jacks.Prelude.{ℕ, List, [], ◌∷◌, Option, none, some, ℤ}
use jacks.Memory.{Outcome, ok, ◌>>=◌, Ptr, Store, load, save, alloc}
use jacks.Libraries.{Libs, Malloc}
use jacks.Exceptions.{Exceptions}
use jacks.Port.{Wakeup, Fds}
use jacks.Client.State.{Client, Objects, World}
use jacks.Client.Setup.{Rooms}
use jacks.Api.Values.{LatencyRange, StringList}
use jacks.Api.Hex.{PortBuffer}
use jacks.Api.Events.{SessionEvent}

-- The structs of corelib/Jacks.h behind pointers. `framebuf` points to the frame buffer of the port
-- struct at that address.
pub record BufferBox : Type 0 where
  pub framebuf : Ptr
  pub len : ℕ

pub record PortBox : Type 0 where
  pub impl : Ptr
  pub clientimpl : Ptr

pub record EventBox : Type 0 where
  pub impl : Ptr

pub record ClientBox : Type 0 where
  pub impl : Ptr
  pub process_audio : ℕ

-- What a script meets besides the libraries: the answers of JACK, of `socketpair` and of malloc.
pub record Env (L : Libs) : Type 0 where
  pub client_open : Option (List ℕ) → Option (List ℕ) → ℤ → Ptr
  pub client_activate : L.jack.Server → Ptr → ℤ
  pub port_by_name : L.jack.Server → Ptr → List ℕ → Ptr
  pub get_ports :
      L.jack.Server → Ptr → Option (List ℕ) → Option (List ℕ) → ℤ → Option (List (List ℕ))
  pub latency_range : L.jack.Server → Ptr → ℤ → ℕ × ℕ
  pub set_latency : L.jack.Server → Ptr → ℤ → ℕ → ℕ → L.jack.Server
  pub sample_rate : L.jack.Server → Ptr → ℕ
  pub name_of : L.jack.Server → Ptr → List ℕ
  pub transport : L.jack.Server → Ptr → ℕ
  pub recompute : L.jack.Server → Ptr → ℤ
  pub socket_pair : L.jack.Server → Option Fds
  pub memory : Malloc
  pub rooms : Rooms

abbrev pub into {ℓ κ} : {A : Type ℓ} {B : Type κ} → Outcome A → (A → B) → Outcome B
into o f = o >>= λ a. ok (f a)

-- The text that a C function is given, or NULL.
abbrev pub text_at : Store (List ℕ) → Ptr → Outcome (Option (List ℕ))
text_at s none = ok none
text_at s (some p) = into (load s (some p)) some

module _ (L : Libs) where
  -- `clients` holds the structs of corelib/JacksRbClient.c, `objects` what they point to, `sessions`
  -- JACK's session events, `texts` the strings that are reached by a pointer, and the next six the
  -- objects of the script. `errors` are the statics of corelib/JacksHelper.c, `wakeups` what the
  -- latency listeners have done.
  pub record Machine : Type 0 where
    pub clients : Store (Client L)
    pub objects : Objects L
    pub sessions : Store SessionEvent
    pub texts : Store (List ℕ)
    pub buffers : Store BufferBox
    pub ranges : Store LatencyRange
    pub lists : Store StringList
    pub ports : Store PortBox
    pub events : Store EventBox
    pub boxes : Store ClientBox
    pub errors : Exceptions
    pub wakeups : List Wakeup

  abbrev pub jack : Machine → L.jack.Server
  jack m = m.objects.server

  abbrev pub with_jack : Machine → L.jack.Server → Machine
  with_jack m s = record m { objects = record (m.objects) { server = s } }

  -- The client struct at a pointer, with the memory around it.
  abbrev pub world_at : Machine → Ptr → Outcome (World L)
  world_at m p = load m.clients p >>= λ c. ok (record { self = c; objects = m.objects })

  abbrev pub put_world : Ptr → World L → Machine → Outcome Machine
  put_world p w m =
      save m.clients p w.self >>= λ s. ok (record m { clients = s; objects = w.objects })

  -- A new C string.
  abbrev pub new_text : List ℕ → Machine → Ptr × Machine
  new_text t m = let (p, s) = alloc m.texts (some t) in (p, record m { texts = s })

  -- `jack_get_ports` gives an array of strings that NULL ends.
  unfoldable pub new_texts : List (List ℕ) → Machine → List Ptr × Machine
  new_texts [] m = (none ∷ [], m)
  new_texts (t ∷ ts) m =
      let (p, m') = new_text t m in let (ps, m'') = new_texts ts m' in (p ∷ ps, m'')

  -- A buffer object with the bytes that it points to.
  abbrev pub buffer_at : Machine → Ptr → Outcome PortBuffer
  buffer_at m self = load m.buffers self >>= λ b. elim b.framebuf [
    | none ↦ ok (record { framebuf = none; len = b.len })
    | some a ↦
        load m.objects.rb_ports (some a) >>= λ p. ok (record { framebuf = p.framebuf; len = b.len })
  ]
