-- ===== src/Lua/Results/Steps.antt =====
-- modules/lua/Jacks_lua_wrap.c: the result of a wrapper is that of its last step.
use jacks.Prelude.{Option, ℕ, ◌≡◌, refl, true, false, List, [], ◌∷◌, none, some}
use jacks.Memory.{Ptr, ok, fault, load}
use jacks.Libraries.{Libs}
use jacks.Lua.Values.{Class, same_class, LuaLib, Value, new_pointer, Param, Method, LuaError}
use jacks.Lua.Act.{Act, ◌>>=◌, ◌>>◌, Run, ret, err, crash, blocked, bind_run, lift}
use jacks.Lua.Machine.{Machine}
use jacks.Lua.Checks.{
  check_num_args, check_ptr_type, check_number, check_string, convert_ptr, assert_non_negative,
  arg_string, arg_char, protect, Pushed, push_copy, push_string, push_text,
}
use jacks.Lua.Results.Types.{
  Result, maybe_text, borrowed, owned, matches, HasResult, gave, raised, crashed, waits,
}

module _ (L : Libs) (Q : LuaLib) where
  bind_lem :
      {A : Type 0} (r : Result) (x : Act LuaError (Machine L) A) (k : A → Pushed L Q)
      (m : Machine L)
      → ((a : A) (s : Machine L) → HasResult L Q r (k a s))
      → HasResult L Q r ((x >>= k) m)
  bind_lem {A = A} r x k m h = at_run (x m)
    where
      at_run : (y : Run LuaError (Machine L) A) → HasResult L Q r (bind_run y k)
      at_run (ret a s) = h a s
      at_run (err e s) = raised e s
      at_run (crash e) = crashed e
      at_run (blocked s) = waits s

  pub count_step :
      (r : Result) (d : Method) (args : List (Value Q.Number)) (i j : ℕ) (k : Pushed L Q)
      (m : Machine L)
      → ((s : Machine L) → HasResult L Q r (k s))
      → HasResult L Q r ((check_num_args Q d args i j >> k) m)
  count_step r d args i j k m h = bind_lem r (check_num_args Q d args i j) (λ _. k) m (λ _ s. h s)

  pub self_step :
      (r : Result) (d : Method) (args : List (Value Q.Number)) (i : ℕ) (c : Class) (k : Pushed L Q)
      (m : Machine L)
      → ((s : Machine L) → HasResult L Q r (k s))
      → HasResult L Q r ((check_ptr_type Q d args i c >> k) m)
  self_step r d args i c k m h = bind_lem r (check_ptr_type Q d args i c) (λ _. k) m (λ _ s. h s)

  pub digits_step :
      (r : Result) (d : Method) (args : List (Value Q.Number)) (i : ℕ) (p : Param) (k : Pushed L Q)
      (m : Machine L)
      → ((s : Machine L) → HasResult L Q r (k s))
      → HasResult L Q r ((check_number Q d args i p >> k) m)
  digits_step r d args i p k m h = bind_lem r (check_number Q d args i p) (λ _. k) m (λ _ s. h s)

  pub words_step :
      (r : Result) (d : Method) (args : List (Value Q.Number)) (i : ℕ) (p : Param) (k : Pushed L Q)
      (m : Machine L)
      → ((s : Machine L) → HasResult L Q r (k s))
      → HasResult L Q r ((check_string Q d args i p >> k) m)
  words_step r d args i p k m h = bind_lem r (check_string Q d args i p) (λ _. k) m (λ _ s. h s)

  pub sign_step :
      (r : Result) (d : Method) (args : List (Value Q.Number)) (i : ℕ) (k : Pushed L Q)
      (m : Machine L)
      → ((s : Machine L) → HasResult L Q r (k s))
      → HasResult L Q r ((assert_non_negative Q d args i >> k) m)
  sign_step r d args i k m h = bind_lem r (assert_non_negative Q d args i) (λ _. k) m (λ _ s. h s)

  pub convert_step :
      (r : Result) (d : Method) (args : List (Value Q.Number)) (i : ℕ) (c : Class)
      (k : Ptr → Pushed L Q) (m : Machine L)
      → ((a : Ptr) (s : Machine L) → HasResult L Q r (k a s))
      → HasResult L Q r ((convert_ptr Q d args i c >>= k) m)
  convert_step r d args i c k m h = bind_lem r (convert_ptr Q d args i c) k m h

  pub text_step :
      (r : Result) (args : List (Value Q.Number)) (i : ℕ) (k : Ptr → Pushed L Q) (m : Machine L)
      → ((a : Ptr) (s : Machine L) → HasResult L Q r (k a s))
      → HasResult L Q r ((arg_string L Q args i >>= k) m)
  text_step r args i k m h = bind_lem r (arg_string L Q args i) k m h

  pub char_step :
      (r : Result) (args : List (Value Q.Number)) (i : ℕ) (k : ℕ → Pushed L Q) (m : Machine L)
      → ((a : ℕ) (s : Machine L) → HasResult L Q r (k a s))
      → HasResult L Q r ((arg_char Q args i >>= k) m)
  char_step r args i k m h = bind_lem r (arg_char Q args i) k m h

  pub call_step :
      {A : Type 0} (r : Result) (f : Act ⊥ (Machine L) A) (k : A → Pushed L Q) (m : Machine L)
      → ((a : A) (s : Machine L) → HasResult L Q r (k a s))
      → HasResult L Q r ((protect L Q f >>= k) m)
  call_step r f k m h = bind_lem r (protect L Q f) k m h

  pub void_step :
      (r : Result) (f : Act ⊥ (Machine L) (Unit {0})) (k : Pushed L Q) (m : Machine L)
      → ((s : Machine L) → HasResult L Q r (k s))
      → HasResult L Q r ((protect L Q f >> k) m)
  void_step r f k m h = bind_lem r (protect L Q f) (λ _. k) m (λ _ s. h s)

  pub copy_lem :
      (t : Option (List ℕ)) (s : Machine L) → HasResult L Q maybe_text (push_copy L Q t s)
  unfolding push_copy matches
  copy_lem none s = gave _ s refl
  copy_lem (some t) s = gave _ s refl

  pub string_lem : (p : Ptr) (s : Machine L) → HasResult L Q maybe_text (push_string L Q p s)
  unfolding push_string matches
  string_lem none s = gave _ s refl
  string_lem (some p) s =
      elim (load s.texts (some p))
        as (λ o. HasResult L Q maybe_text (bind_run (lift o s) (push_text L Q))) [
          | ok t ↦ gave _ s refl
          | fault e ↦ crashed e
        ]

  pub borrowed_lem :
      (c : Class) (p : Ptr) (s : Machine L)
      → same_class c c ≡ true
      → HasResult L Q (borrowed c) (ret (new_pointer p c false ∷ []) s)
  unfolding matches
  borrowed_lem c none s e = gave _ s refl
  borrowed_lem c (some p) s e = gave _ s e

  pub owned_lem :
      (c : Class) (p : Ptr) (s : Machine L)
      → same_class c c ≡ true
      → HasResult L Q (owned c) (ret (new_pointer p c true ∷ []) s)
  unfolding matches
  owned_lem c none s e = gave _ s refl
  owned_lem c (some p) s e = gave _ s e
