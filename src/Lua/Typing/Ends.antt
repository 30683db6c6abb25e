-- ===== src/Lua/Typing/Ends.antt =====
-- modules/lua/Jacks_lua_wrap.c: what follows the checks of a wrapper.
use jacks.Prelude.{Option, ℕ, ◌≡◌, refl, false, List, none, some}
use jacks.Libraries.{Libs}
use jacks.Memory.{load, ok, fault, Ptr}
use jacks.Exceptions.{clear_exception, check_exception}
use jacks.Lua.Values.{LuaLib, Value, to_text}
use jacks.Lua.Act.{Run, ret, err, crash, blocked, Act, bind_run, lift, ◌>>=◌}
use jacks.Lua.Machine.{Machine}
use jacks.Lua.Checks.{
  arg_char, first_char, arg, protect, rethrow, Pushed, push_string, push_copy, push_text, ran,
  raise_if,
}
use jacks.Lua.Typing.Outcomes.{refuses}

module _ (L : Libs) (Q : LuaLib) where
  -- What follows the checks is a C function and the push of its result, and raises what was thrown.
  pub protect_lem :
      {A : Type 0} (call : Act ⊥ (Machine L) A) (k : A → Pushed L Q) (m : Machine L)
      → ((a : A) (s : Machine L) → refuses (k a s) ≡ false)
      → refuses ((protect L Q call >>= k) m) ≡ false
  unfolding protect rethrow
  protect_lem {A = A} call k m h = at_end (call (record m { errors = clear_exception m.errors }))
    where
      at_end :
          (r : Run ⊥ (Machine L) A)
          → refuses (
              bind_run
                (bind_run (ran r) (λ result s. bind_run (rethrow L Q s) (λ x s'. ret result s')))
                k)
            ≡ false
      at_end (ret a s) =
          elim (check_exception s.errors)
            as (λ o.
              refuses (bind_run (bind_run (raise_if L Q o s) (λ x s'. ret a s')) k) ≡ false) [
                | none ↦ h a s
                | some t ↦ refl
              ]
      at_end (err e s) = elim e [ ]
      at_end (crash e) = refl
      at_end (blocked s) = refl

  pub push_copy_lem : (t : Option (List ℕ)) (s : Machine L) → refuses (push_copy L Q t s) ≡ false
  unfolding push_copy
  push_copy_lem none s = refl
  push_copy_lem (some t) s = refl

  pub push_string_lem : (p : Ptr) (s : Machine L) → refuses (push_string L Q p s) ≡ false
  unfolding push_string
  push_string_lem none s = refl
  push_string_lem (some p) s =
      elim (load s.texts (some p)) as (λ o. refuses (bind_run (lift o s) (push_text L Q)) ≡ false) [
        | ok t ↦ refl
        | fault e ↦ refl
      ]

  pub char_lem :
      (i : ℕ) (args : List (Value Q.Number)) (m : Machine L) (k : ℕ → Pushed L Q)
      → ((c : ℕ) (s : Machine L) → refuses (k c s) ≡ false)
      → refuses ((arg_char Q args i >>= k) m) ≡ false
  char_lem i args m k h =
      elim (first_char (to_text Q (arg args i))) as (λ o. refuses (bind_run (lift o m) k) ≡ false) [
        | ok c ↦ h c m
        | fault e ↦ refl
      ]
