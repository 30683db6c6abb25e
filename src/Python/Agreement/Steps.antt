-- ===== src/Python/Agreement/Steps.antt =====
-- modules/lua/Jacks_lua_wrap.c and modules/python3/Jacks_python3_wrap.c: the parts of the wrappers, side by
-- side.
use jacks.Prelude.{
  ℕ, ◌≡◌, Bool-cases, inl, inr, refl, Bool, true, false, List, [], ◌∷◌, Option, none, some, ℤ,
  arith,
}
use jacks.Memory.{ok, fault, Ptr, load}
use jacks.Libraries.{Libs}
use jacks.Exceptions.{clear_exception, check_exception}
use jacks.Lua.Values.{
  Class, LuaLib, Value, Method, swig_convert_ptr, same_class, text, LuaError, pointer,
}
use jacks.Lua.Act.{Run, ret, err, crash, blocked, Act, bind_run, fail_unless, lift, ◌>>=◌, ◌>>◌}
use jacks.Lua.Machine.{Machine}
use jacks.Lua.Checks.{
  check_num_args, check_ptr_type, convert_ptr, protect, rethrow, ran, raise_if, Pushed, push_number,
  push_pointer, push_text, push_copy, push_string,
}
use jacks.Lua.Typing.Outcomes.{is_refusal}
use jacks.Python.Values.{
  PyLib, PyValue, py_none, integer, float, str, proxy, other, PyError, Function, Process,
}
use jacks.Python.Convert.{as_pointer}
use jacks.Python.Checks.{
  parse_tuple, checked, arg_pointer, PyAct, py_protect, in_process, runtime_if, from_int,
  from_pointer, from_text, from_decoded, from_copy, from_char_ptr,
}
use jacks.Python.Agreement.Outcomes.{
  no_object, same_object, neither, is_pointer, AllAlike, no_more, one_more, is_misuse, Agree,
  both_null, both_number, both_text, undecoded, both_object, both_refused, both_thrown, both_crash,
  both_blocked,
}

module _ (L : Libs) (Q : LuaLib) (Y : PyLib) where
  refused_lem :
      (e : LuaError) (e' : PyError) (t u : Bool) (s : Process L) (k : Pushed L Q)
      (j : PyAct L Y (PyValue Y))
      → is_refusal e ≡ true
      → is_misuse e' ≡ true
      → t ≡ false
      → u ≡ false
      → Agree L Q Y ((fail_unless t e >> k) s.machine) ((fail_unless u e' >> j) s)
  refused_lem e e' false false s k j h h' f g = both_refused e e' s h h'
  refused_lem e e' false true s k j h h' f g = ground arith
  refused_lem e e' true u s k j h h' f g = ground arith

  pub nothing_lem :
      (d : Method) (f : Function) (s : Process L) (vs : List (Value Q.Number))
      (ws : List (PyValue Y)) (k : Pushed L Q) (j : PyAct L Y (PyValue Y))
      → AllAlike L Q Y vs ws
      → Agree L Q Y (k s.machine) (j s)
      → Agree L Q Y ((check_num_args Q d vs 0 0 >> k) s.machine) ((parse_tuple f 0 ws >> j) s)
  unfolding check_num_args parse_tuple
  nothing_lem d f s _ _ k j no_more h = h
  nothing_lem d f s _ _ k j (one_more a as') h =
      refused_lem _ _ _ _ s k j refl refl (ground arith) (ground arith)

  pub self_lem :
      (d : Method) (f : Function) (c : Class) (s : Process L) (vs : List (Value Q.Number))
      (ws : List (PyValue Y)) (k : Ptr → Pushed L Q) (j : Ptr → PyAct L Y (PyValue Y))
      → AllAlike L Q Y vs ws
      → ((p : Ptr) → Agree L Q Y (k p s.machine) (j p s))
      → Agree L Q Y
          ((do
            check_num_args Q d vs 1 1
            check_ptr_type Q d vs 1 c
            p ← convert_ptr Q d vs 1 c
            k p)
            s.machine)
          ((do parse_tuple f 1 ws; p ← arg_pointer L Y f 1 c ws; j p) s)
  unfolding check_num_args parse_tuple check_ptr_type convert_ptr arg_pointer swig_convert_ptr
      as_pointer checked
  self_lem d f c s _ _ k j no_more h = both_refused _ _ s refl refl
  self_lem d f c s (v ∷ v' ∷ vs) (w ∷ w' ∷ ws) k j (one_more a (one_more b as')) h =
      refused_lem _ _ _ _ s
        (do check_ptr_type Q d (v ∷ v' ∷ vs) 1 c; p ← convert_ptr Q d (v ∷ v' ∷ vs) 1 c; k p)
        (do p ← arg_pointer L Y f 1 c (w ∷ w' ∷ ws); j p) refl refl (ground arith) (ground arith)
  self_lem d f c s _ _ k j (one_more no_object no_more) h = h none
  self_lem d f c s _ _ k j (one_more (neither v w h' g) no_more) h = rw h' (at_wrong w g)
    where
      at_wrong :
          (u : PyValue Y)
          → is_pointer L Q Y u ≡ false
          → Agree L Q Y
              (err (LuaError.wrong_type d 1 (pointer c)) s.machine)
              ((do parse_tuple f 1 (u ∷ []); p ← arg_pointer L Y f 1 c (u ∷ []); j p) s)
      at_wrong py_none e = ground arith
      at_wrong (proxy b p id) e = ground arith
      at_wrong (integer z) e = both_refused _ _ s refl refl
      at_wrong (float x) e = both_refused _ _ s refl refl
      at_wrong (str t) e = both_refused _ _ s refl refl
      at_wrong other e = both_refused _ _ s refl refl
  self_lem d f c s _ _ k j (one_more (same_object e p own id) no_more) h =
      elim (Bool-cases (same_class e c)) [
        | inl t ↦ rw (t, convert_ptr, swig_convert_ptr, arg_pointer, as_pointer) (h (some p))
        | inr t ↦
            rw (t, convert_ptr, swig_convert_ptr, arg_pointer, as_pointer)
              (both_refused _ _ s refl refl)
      ]

  pub protect_lem :
      {A : Type 0} (call : Act ⊥ (Machine L) A) (k : A → Pushed L Q) (j : A → PyAct L Y (PyValue Y))
      (s : Process L)
      → ((a : A) (n : Process L) → Agree L Q Y (k a n.machine) (j a n))
      → Agree L Q Y ((protect L Q call >>= k) s.machine) ((py_protect L Y call >>= j) s)
  unfolding protect rethrow py_protect
  protect_lem {A = A} call k j s h =
      at_end (call (record (s.machine) { errors = clear_exception s.machine.errors }))
    where
      at_end :
          (r : Run ⊥ (Machine L) A)
          → Agree L Q Y
              (bind_run
                (bind_run (ran r) (λ result m. bind_run (rethrow L Q m) (λ x m'. ret result m')))
                k)
              (bind_run
                (bind_run
                  (in_process L Y
                    (record s {
                      machine = record (s.machine) { errors = clear_exception s.machine.errors };
                    })
                    r)
                  (λ result n.
                    bind_run
                      (runtime_if L Y (check_exception n.machine.errors) n)
                      (λ x n'. ret result n')))
                j)
      at_end (ret a m) =
          elim (check_exception m.errors)
            as (λ o. Agree L Q Y (bind_run (bind_run (raise_if L Q o m) (λ x m'. ret a m')) k) (
              bind_run (bind_run (runtime_if L Y o (record s { machine = m })) (λ x n'. ret a n'))
                j)) [
                  | none ↦ h a (record s { machine = m })
                  | some t ↦ both_thrown t (record s { machine = m })
                ]
      at_end (err e m) = elim e [ ]
      at_end (crash e) = both_crash e
      at_end (blocked m) = both_blocked (record s { machine = m })

  pub number_lem :
      (z : ℤ) (s : Process L) → Agree L Q Y (push_number L Q z s.machine) (from_int L Y z s)
  unfolding from_int
  number_lem z s = both_number z s

  pub pointer_lem :
      (p : Ptr) (c : Class) (own : Bool) (s : Process L)
      → Agree L Q Y (push_pointer L Q p c own s.machine) (from_pointer L Y p c own s)
  unfolding from_pointer
  pointer_lem none c own s = both_null s
  pointer_lem (some p) c own s = both_object c p own s.proxies _ (ground arith)

  pub text_lem :
      (t : List ℕ) (s : Process L) → Agree L Q Y (push_text L Q t s.machine) (from_text L Y t s)
  unfolding from_text
  text_lem t s = at_text (Y.decode t) refl
    where
      at_text :
          (o : Option Y.Text)
          → Y.decode t ≡ o
          → Agree L Q Y (ret (text t ∷ []) s.machine) (from_decoded L Y o s)
      at_text none e = undecoded t s e
      at_text (some u) e = both_text t u s e

  pub copy_lem :
      (o : Option (List ℕ)) (s : Process L)
      → Agree L Q Y (push_copy L Q o s.machine) (from_copy L Y o s)
  unfolding push_copy from_copy
  copy_lem none s = both_null s
  copy_lem (some t) s = text_lem t s

  pub string_lem :
      (p : Ptr) (s : Process L) → Agree L Q Y (push_string L Q p s.machine) (from_char_ptr L Y p s)
  unfolding push_string from_char_ptr
  string_lem none s = both_null s
  string_lem (some p) s =
      elim (load s.machine.texts (some p))
        as (λ o.
          Agree L Q Y (bind_run (lift o s.machine) (push_text L Q))
            (bind_run (lift o s) (from_text L Y))) [ ok t ↦ text_lem t s | fault e ↦ both_crash e ]
