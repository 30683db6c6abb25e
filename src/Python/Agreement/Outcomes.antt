-- ===== src/Python/Agreement/Outcomes.antt =====
-- modules/lua/Jacks_lua_wrap.c and modules/python3/Jacks_python3_wrap.c: calls that go the same way.
use jacks.Prelude.{ℕ, ◌≡◌, Bool, true, false, List, [], ◌∷◌, none, some, ℤ}
use jacks.Memory.{Fault}
use jacks.Libraries.{Libs}
use jacks.Lua.Values.{
  Class, LuaLib, Value, nil, number, text, userdata, is_ptr_type, LuaError, thrown,
}
use jacks.Lua.Act.{Run, ret, err, crash, blocked}
use jacks.Lua.Machine.{Machine}
use jacks.Lua.Typing.Outcomes.{is_refusal}
use jacks.Python.Values.{
  PyLib, PyValue, py_none, integer, str, proxy, PyError, runtime_error, decode_error, Process,
}

-- The errors of the arguments.
abbrev pub is_misuse : PyError → Bool
is_misuse (PyError.wrong_count d n k) = true
is_misuse (PyError.type_error d i p) = true
is_misuse (PyError.overflow_error d i p) = true
is_misuse _ = false

module _ (L : Libs) (Q : LuaLib) (Y : PyLib) where
  -- A value that may stand for an object.
  abbrev pub is_pointer : PyValue Y → Bool
  is_pointer py_none = true
  is_pointer (proxy c p id) = true
  is_pointer _ = false

  -- Arguments that say the same of an object: nil for None, two objects of one type with one pointer,
  -- or two values, as numbers or texts, that are neither nil nor an object.
  pub data Alike : Value Q.Number → PyValue Y → Type 0 where
    no_object : Alike nil py_none
    same_object :
        (c : Class) (p : ℕ) (own : Bool) (id : ℕ) → Alike (userdata c p own) (proxy c p id)
    neither :
        (v : Value Q.Number) (w : PyValue Y)
        → is_ptr_type v ≡ false
        → is_pointer w ≡ false
        → Alike v w

  pub data AllAlike : List (Value Q.Number) → List (PyValue Y) → Type 0 where
    no_more : AllAlike [] []
    one_more :
        {v : Value Q.Number} {w : PyValue Y} {vs : List (Value Q.Number)} {ws : List (PyValue Y)}
        → Alike v w
        → AllAlike vs ws
        → AllAlike (v ∷ vs) (w ∷ ws)

  -- Both calls leave the same memory. They return results that say the same, of objects also who
  -- owns them; or Python cannot decode the text that Lua takes; or both are refused for their
  -- arguments; or both raise the same message of a C function; or both end the process by the same
  -- fault; or both wait.
  pub data Agree
      : Run LuaError (Machine L) (List (Value Q.Number))
        → Run PyError (Process L) (PyValue Y)
        → Type 0 where
    both_nothing : (s : Process L) → Agree (ret [] s.machine) (ret py_none s)
    both_null : (s : Process L) → Agree (ret (nil ∷ []) s.machine) (ret py_none s)
    both_number :
        (z : ℤ) (s : Process L)
        → Agree (ret (number (Q.of_int z) ∷ []) s.machine) (ret (integer z) s)
    both_text :
        (t : List ℕ) (u : Y.Text) (s : Process L)
        → Y.decode t ≡ some u
        → Agree (ret (text t ∷ []) s.machine) (ret (str u) s)
    undecoded :
        (t : List ℕ) (s : Process L)
        → Y.decode t ≡ none
        → Agree (ret (text t ∷ []) s.machine) (err decode_error s)
    both_object :
        (c : Class) (p : ℕ) (own : Bool) (id : ℕ) (s : Process L)
        → s.owned id ≡ own
        → Agree (ret (userdata c p own ∷ []) s.machine) (ret (proxy c p id) s)
    both_refused :
        (e : LuaError) (e' : PyError) (s : Process L)
        → is_refusal e ≡ true
        → is_misuse e' ≡ true
        → Agree (err e s.machine) (err e' s)
    both_thrown :
        (t : List ℕ) (s : Process L) → Agree (err (thrown t) s.machine) (err (runtime_error t) s)
    both_crash : (e : Fault) → Agree (crash e) (crash e)
    both_blocked : (s : Process L) → Agree (blocked s.machine) (blocked s)
