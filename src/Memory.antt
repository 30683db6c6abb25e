-- ===== src/Memory.antt =====
-- C memory: faults, and a store of objects of one struct type behind pointers.
pub mod Access
use jacks.Prelude.{ℕ, suc, Option, none, some, ◌==◌, if◌then◌else◌}

-- What ends a run of the C code: a null or dangling pointer is used, an index or a string read
-- leaves its array, an `assert` fails, the process exits.
pub data Fault : Type 0 where
  null_pointer dangling_pointer out_of_bounds assert_failed exited : Fault

pub data Outcome {ℓ} (A : Type ℓ) : Type ℓ where
  ok : A → Outcome A
  fault : Fault → Outcome A

infixl 5 ◌>>=◌ ◌>>◌
abbrev pub ◌>>=◌ {ℓ κ} : {A : Type ℓ} {B : Type κ} → Outcome A → (A → Outcome B) → Outcome B
ok a >>= f = f a
fault e >>= f = fault e

abbrev pub ◌>>◌ {ℓ} : {B : Type ℓ} → Outcome (Unit {0}) → Outcome B → Outcome B
m >> k = m >>= λ _. k

-- `none` is NULL.
abbrev pub Ptr : Type 0
Ptr = Option ℕ

-- The live objects of one type. An address is never handed out twice.
pub record Store {ℓ} (A : Type ℓ) : Type ℓ where
  pub fresh : ℕ
  pub cell : ℕ → Option A

module _ {ℓ} {A : Type ℓ} where
  abbrev pub empty : Store A
  empty = record { fresh = 0; cell = λ _. none }

  abbrev pub update : (ℕ → Option A) → ℕ → Option A → ℕ → Option A
  update f p v q = if p == q then v else f q

  abbrev pub at_address : Option A → Outcome A
  at_address none = fault Fault.dangling_pointer
  at_address (some a) = ok a

  -- `*p`
  abbrev pub load : Store A → Ptr → Outcome A
  load s none = fault Fault.null_pointer
  load s (some p) = at_address (s.cell p)

  -- `*p = a`
  unfoldable pub save : Store A → Ptr → A → Outcome (Store A)
  save s p a = load s p >>= λ _. elim p [
    | none ↦ fault Fault.null_pointer
    | some q ↦ ok (record s { cell = update s.cell q (some a) })
  ]

  -- `malloc` and the assignments to the new struct; a constructor that returns NULL adds nothing.
  abbrev pub alloc : Store A → Option A → Ptr × Store A
  alloc s none = (none, s)
  alloc s (some a) =
      (some s.fresh, record { fresh = suc s.fresh; cell = update s.cell s.fresh (some a) })

  -- `free(p)`: of NULL nothing, of a pointer that was freed before a fault.
  unfoldable pub release : Store A → Ptr → Outcome (Store A)
  release s none = ok s
  release s (some p) = at_address (s.cell p) >>= λ _. ok (record s { cell = update s.cell p none })
