-- ===== src/Lua/Checks.antt =====
-- modules/lua/Jacks_lua_wrap.c: the parts that the wrappers are made of.
use jacks.Prelude.{ℕ, zero, suc, Bool, ◌&&◌, List, [], ◌∷◌, Option, none, some, ℤ, leb, length}
use jacks.Memory.{null_pointer, Outcome, ok, fault, Ptr, load}
use jacks.Libraries.{Libs}
use jacks.Exceptions.{clear_exception, check_exception}
use jacks.Lua.Values.{
  Class, LuaLib, Value, nil, number, text, Param, pointer, Method, LuaError, wrong_count,
  wrong_type, negative_number, thrown, is_ptr_type, is_nil_string, is_number, to_number, to_text,
  new_pointer, swig_convert_ptr,
}
use jacks.Lua.Act.{
  Run, crash, blocked, Act, ret, err, pure, raise, lift, read, modify, fail_unless, ◌>>=◌, ◌>>◌,
}
use jacks.Lua.Machine.{Machine, new_text}

-- The argument at a place from 1 on.
abbrev pub arg : {N : Type 0} → List (Value N) → ℕ → Value N
arg [] i = nil
arg (v ∷ vs) zero = nil
arg (v ∷ vs) (suc zero) = v
arg (v ∷ vs) (suc (suc i)) = arg vs (suc i)

-- `lua_tostring(L, i)[0]`
abbrev pub first_char : Option (List ℕ) → Outcome ℕ
first_char none = fault null_pointer
first_char (some []) = ok 0
first_char (some (c ∷ cs)) = ok c

abbrev pub pointer_or : {S : Type 0} → Option Ptr → LuaError → Act LuaError S Ptr
pointer_or none e = raise e
pointer_or (some p) e = pure p

-- A C function's call, among those that may raise.
abbrev pub ran : {S A : Type 0} → Run ⊥ S A → Run LuaError S A
ran (ret a s) = ret a s
ran (err e s) = elim e [ ]
ran (crash f) = crash f
ran (blocked s) = blocked s

abbrev pub within : {S A : Type 0} → Act ⊥ S A → Act LuaError S A
within call s = ran (call s)

module _ {S : Type 0} (Q : LuaLib) (method : Method) (args : List (Value Q.Number)) where
  -- `SWIG_check_num_args`
  unfoldable pub check_num_args : ℕ → ℕ → Act LuaError S (Unit {0})
  check_num_args a b =
      fail_unless (leb a (length args) && leb (length args) b)
        (wrong_count method a b (length args))

  -- `if(!SWIG_isptrtype(L,i)) SWIG_fail_arg(…)`
  unfoldable pub check_ptr_type : ℕ → Class → Act LuaError S (Unit {0})
  check_ptr_type i c = fail_unless (is_ptr_type (arg args i)) (wrong_type method i (pointer c))

  -- `if(!lua_isnumber(L,i)) SWIG_fail_arg(…)`
  unfoldable pub check_number : ℕ → Param → Act LuaError S (Unit {0})
  check_number i p = fail_unless (is_number Q (arg args i)) (wrong_type method i p)

  -- `if(!SWIG_lua_isnilstring(L,i)) SWIG_fail_arg(…)`
  unfoldable pub check_string : ℕ → Param → Act LuaError S (Unit {0})
  check_string i p = fail_unless (is_nil_string (arg args i)) (wrong_type method i p)

  -- `if (!SWIG_IsOK(SWIG_ConvertPtr(…))) SWIG_fail_ptr(…)`
  unfoldable pub convert_ptr : ℕ → Class → Act LuaError S Ptr
  unfolding swig_convert_ptr
  convert_ptr i c = pointer_or (swig_convert_ptr (arg args i) c) (wrong_type method i (pointer c))

  -- `SWIG_contract_assert((lua_tonumber(L,i)>=0),"number must not be negative")`
  unfoldable pub assert_non_negative : ℕ → Act LuaError S (Unit {0})
  assert_non_negative i = fail_unless (Q.non_negative (to_number Q (arg args i))) negative_number

module _ (Q : LuaLib) (args : List (Value Q.Number)) where
  -- The casts of `lua_tonumber(L,i)`.
  abbrev pub arg_int : ℕ → ℤ
  arg_int i = Q.to_int (to_number Q (arg args i))

  abbrev pub arg_unsigned : ℕ → ℕ
  arg_unsigned i = Q.to_unsigned (to_number Q (arg args i))

  abbrev pub arg_unsigned_long : ℕ → ℕ
  arg_unsigned_long i = Q.to_unsigned_long (to_number Q (arg args i))

  abbrev pub arg_char : {S : Type 0} → ℕ → Act LuaError S ℕ
  arg_char i = lift (first_char (to_text Q (arg args i)))

module _ (L : Libs) (Q : LuaLib) where
  -- `lua_tostring(L,i)`: a string of Lua's, or NULL.
  abbrev pub string_of : Option (List ℕ) → Act LuaError (Machine L) Ptr
  string_of none m = ret none m
  string_of (some t) m = let (p, m') = new_text L t m in ret p m'

  unfoldable pub arg_string : List (Value Q.Number) → ℕ → Act LuaError (Machine L) Ptr
  arg_string args i = string_of (to_text Q (arg args i))

  -- `if ((err = check_exception())) { luaL_error(L, err); … }`
  abbrev pub raise_if : Option (List ℕ) → Act LuaError (Machine L) (Unit {0})
  raise_if none = pure tt
  raise_if (some buffer) = raise (thrown buffer)

  unfoldable pub rethrow : Act LuaError (Machine L) (Unit {0})
  rethrow m = raise_if (check_exception m.errors) m

  -- `clear_exception()`, the call, and what follows it.
  unfoldable pub protect : {A : Type 0} → Act ⊥ (Machine L) A → Act LuaError (Machine L) A
  unfolding rethrow
  protect call = do
    modify (λ m. record m { errors = clear_exception m.errors })
    result ← within call
    rethrow
    pure result

  abbrev pub Pushed : Type 0
  Pushed = Act LuaError (Machine L) (List (Value Q.Number))

  -- `lua_pushnumber`
  abbrev pub push_number : ℤ → Pushed
  push_number z = pure (number (Q.of_int z) ∷ [])

  -- `SWIG_NewPointerObj`
  abbrev pub push_pointer : Ptr → Class → Bool → Pushed
  push_pointer p c own = pure (new_pointer p c own ∷ [])

  abbrev pub push_text : List ℕ → Pushed
  push_text t = pure (text t ∷ [])

  -- `lua_pushstring`, of a text that is not kept in `texts`, or NULL.
  unfoldable pub push_copy : Option (List ℕ) → Pushed
  push_copy none = pure (nil ∷ [])
  push_copy (some t) = push_text t

  -- `lua_pushstring`: NULL becomes nil.
  unfoldable pub push_string : Ptr → Pushed
  push_string none = pure (nil ∷ [])
  push_string (some p) = do t ← read (λ m. load m.texts (some p)); push_text t
