-- ===== src/Lua/Act.antt =====
-- A call: it returns, raises an error, ends the process, or waits. A C function has no error to
-- raise, a function that Lua calls has those of `LuaError`.
use jacks.Prelude.{Bool, true, false}
use jacks.Memory.{Fault, Outcome, ok, fault}

-- `blocked`: the call waits in the kernel until another thread moves.
pub data Run (R S A : Type 0) : Type 0 where
  ret : A → S → Run R S A
  err : R → S → Run R S A
  crash : Fault → Run R S A
  blocked : S → Run R S A

abbrev pub Act : Type 0 → Type 0 → Type 0 → Type 0
Act R S A = S → Run R S A

module _ {R S A : Type 0} where
  abbrev pub pure : A → Act R S A
  pure a s = ret a s

  abbrev pub raise : R → Act R S A
  raise e s = err e s

  -- A part of the state, and a computation on it that may fault.
  abbrev pub gets : (S → A) → Act R S A
  gets f s = ret (f s) s

  abbrev pub lift : Outcome A → Act R S A
  lift (ok a) s = ret a s
  lift (fault e) s = crash e

  abbrev pub read : (S → Outcome A) → Act R S A
  read f s = lift (f s) s

  abbrev pub bind_run : {B : Type 0} → Run R S A → (A → Act R S B) → Run R S B
  bind_run (ret a s) f = f a s
  bind_run (err e s) f = err e s
  bind_run (crash e) f = crash e
  bind_run (blocked s) f = blocked s

infixl 5 ◌>>=◌ ◌>>◌
abbrev pub ◌>>=◌ : {R S A B : Type 0} → Act R S A → (A → Act R S B) → Act R S B
◌>>=◌ m f s = bind_run (m s) f

abbrev pub ◌>>◌ : {R S A B : Type 0} → Act R S A → Act R S B → Act R S B
m >> k = m >>= λ _. k

module _ {R S : Type 0} where
  abbrev pub modify : (S → S) → Act R S (Unit {0})
  modify f s = ret tt (f s)

  abbrev pub stored : Outcome S → Run R S (Unit {0})
  stored (ok t) = ret tt t
  stored (fault e) = crash e

  abbrev pub update_with : (S → Outcome S) → Act R S (Unit {0})
  update_with f s = stored (f s)

  -- `if(!test) … goto fail;`
  abbrev pub fail_unless : Bool → R → Act R S (Unit {0})
  fail_unless true e s = ret tt s
  fail_unless false e s = err e s
