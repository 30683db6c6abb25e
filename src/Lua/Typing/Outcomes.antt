-- ===== src/Lua/Typing/Outcomes.antt =====
-- modules/lua/Jacks_lua_wrap.c: the two ways a call can go, by its arguments.
use jacks.Prelude.{ℕ, ◌≡◌, Bool, true, false, List}
use jacks.Libraries.{Libs}
use jacks.Memory.{Store}
use jacks.Lua.Values.{LuaLib, Value, LuaError, thrown}
use jacks.Lua.Act.{Run, err}
use jacks.Lua.Machine.{Machine}

-- The errors of the arguments, not those that a C function throws.
abbrev pub is_refusal : LuaError → Bool
is_refusal (thrown t) = false
is_refusal _ = true

module _ {S A : Type 0} where
  abbrev pub refuses : Run LuaError S A → Bool
  refuses (err e s) = is_refusal e
  refuses _ = false

module _ (L : Libs) (Q : LuaLib) where
  -- A call is refused, and then has changed nothing but the copies of Lua's strings; or it goes on.
  pub data Checked (m : Machine L)
      : Bool → Run LuaError (Machine L) (List (Value Q.Number)) → Type 0 where
    refused :
        (e : LuaError) (t : Store (List ℕ))
        → is_refusal e ≡ true
        → Checked m false (err e (record m { texts = t }))
    passed :
        (r : Run LuaError (Machine L) (List (Value Q.Number)))
        → refuses r ≡ false
        → Checked m true r
