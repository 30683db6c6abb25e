-- ===== src/Lua/Typing/Steps.antt =====
-- modules/lua/Jacks_lua_wrap.c: one check of a wrapper, and what it means for the arguments.
use jacks.Prelude.{
  ℕ, ◌≡◌, Bool-cases, inl, inr, refl, Bool, true, false, List, none, some, length, arith,
}
use jacks.Libraries.{Libs}
use jacks.Memory.{Ptr, Store}
use jacks.Lua.Values.{
  Class, LuaLib, Value, nil, boolean, number, text, userdata, other, Method, Param, pointer,
  LuaError, wrong_type, same_class, swig_convert_ptr, is_nil_string, is_number, is_ptr_type,
  to_text, to_number,
}
use jacks.Lua.Act.{Run, bind_run, fail_unless, ◌>>=◌, ◌>>◌}
use jacks.Lua.Machine.{Machine, new_text}
use jacks.Lua.Checks.{
  arg, check_num_args, check_ptr_type, check_number, check_string, convert_ptr, assert_non_negative,
  arg_string, Pushed, pointer_or, string_of,
}
use jacks.Lua.Signatures.{accepts_pointer, fits}
use jacks.Lua.Typing.Outcomes.{Checked, refused, passed, is_refusal, refuses}
use jacks.Lua.Typing.Fits.{fits-length}

module _ (L : Libs) (Q : LuaLib) where
  pub done :
      (m : Machine L) (b : Bool) (r : Run LuaError (Machine L) (List (Value Q.Number)))
      → b ≡ true
      → refuses r ≡ false
      → Checked L Q m b r
  done m b r e h = rw e (passed r h)

  pub test_lem :
      (m : Machine L) (t b : Bool) (e : LuaError) (k : Pushed L Q)
      → is_refusal e ≡ true
      → (t ≡ false → b ≡ false)
      → (t ≡ true → Checked L Q m b (k m))
      → Checked L Q m b ((fail_unless t e >> k) m)
  test_lem m true b e k h f g = g refl
  test_lem m false b e k h f g = rw (f refl) (refused e m.texts h)

  pub count_lem :
      (d : Method) (n : ℕ) (ps : List Param) (args : List (Value Q.Number)) (m : Machine L)
      (k : Pushed L Q)
      → length ps ≡ n
      → (length args ≡ n → Checked L Q m (fits Q ps args) (k m))
      → Checked L Q m (fits Q ps args) ((check_num_args Q d args n n >> k) m)
  unfolding check_num_args
  count_lem d n ps args m k e g =
      test_lem m _ (fits Q ps args) _ k refl (λ h. not_fits ps args (λ f. ground (arith, f, e, h)))
        (λ h. g (ground (arith, h)))
    where
      not_fits :
          (ps : List Param) (args : List (Value Q.Number))
          → ¬ (length args ≡ length ps)
          → fits Q ps args ≡ false
      not_fits ps args h = elim (Bool-cases (fits Q ps args)) [
        | inl e ↦ elim (h (fits-length Q ps args e)) [ ]
        | inr e ↦ e
      ]

  pub pointer_lem :
      (d : Method) (i : ℕ) (c : Class) (args : List (Value Q.Number)) (m : Machine L) (b : Bool)
      (k : Pushed L Q)
      → (accepts_pointer c (arg args i) ≡ false → b ≡ false)
      → Checked L Q m b (k m)
      → Checked L Q m b ((check_ptr_type Q d args i c >> k) m)
  unfolding check_ptr_type
  pointer_lem d i c args m b k f g =
      test_lem m _ b _ k refl (λ h. f (no_pointer c (arg args i) h)) (λ h. g)
    where
      no_pointer :
          (c : Class) (v : Value Q.Number) → is_ptr_type v ≡ false → accepts_pointer c v ≡ false
      no_pointer c nil h = ground arith
      no_pointer c (userdata d p own) h = ground arith
      no_pointer c (boolean x) h = refl
      no_pointer c (number x) h = refl
      no_pointer c (text x) h = refl
      no_pointer c other h = refl

  pub convert_lem :
      (d : Method) (i : ℕ) (c : Class) (args : List (Value Q.Number)) (m : Machine L) (b : Bool)
      (k : Ptr → Pushed L Q)
      → (accepts_pointer c (arg args i) ≡ false → b ≡ false)
      → (accepts_pointer c (arg args i) ≡ true → (p : Ptr) → Checked L Q m b (k p m))
      → Checked L Q m b ((convert_ptr Q d args i c >>= k) m)
  unfolding convert_ptr swig_convert_ptr
  convert_lem d i c args m b k f g = at_value (arg args i) f g
    where
      at_value :
          (v : Value Q.Number)
          → (accepts_pointer c v ≡ false → b ≡ false)
          → (accepts_pointer c v ≡ true → (p : Ptr) → Checked L Q m b (k p m))
          → Checked L Q m b
              ((pointer_or (swig_convert_ptr v c) (wrong_type d i (pointer c)) >>= k) m)
      at_value nil f g = g refl none
      at_value (userdata d' p own) f g = elim (Bool-cases (same_class d' c)) [
        | inl e ↦ rw (e, pointer_or, swig_convert_ptr) (g e (some p))
        | inr e ↦ rw (e, pointer_or, swig_convert_ptr) (rw (f e) (refused _ m.texts refl))
      ]
      at_value (boolean x) f g = rw (f refl) (refused _ m.texts refl)
      at_value (number x) f g = rw (f refl) (refused _ m.texts refl)
      at_value (text x) f g = rw (f refl) (refused _ m.texts refl)
      at_value other f g = rw (f refl) (refused _ m.texts refl)

  pub number_lem :
      (d : Method) (i : ℕ) (p : Param) (args : List (Value Q.Number)) (m : Machine L) (b : Bool)
      (k : Pushed L Q)
      → (is_number Q (arg args i) ≡ false → b ≡ false)
      → (is_number Q (arg args i) ≡ true → Checked L Q m b (k m))
      → Checked L Q m b ((check_number Q d args i p >> k) m)
  unfolding check_number
  number_lem d i p args m b k f g = test_lem m _ b _ k refl f g

  pub text_lem :
      (d : Method) (i : ℕ) (p : Param) (args : List (Value Q.Number)) (m : Machine L) (b : Bool)
      (k : Pushed L Q)
      → (is_nil_string (arg args i) ≡ false → b ≡ false)
      → (is_nil_string (arg args i) ≡ true → Checked L Q m b (k m))
      → Checked L Q m b ((check_string Q d args i p >> k) m)
  unfolding check_string
  text_lem d i p args m b k f g = test_lem m _ b _ k refl f g

  pub sign_lem :
      (d : Method) (i : ℕ) (args : List (Value Q.Number)) (m : Machine L) (b : Bool)
      (k : Pushed L Q)
      → (Q.non_negative (to_number Q (arg args i)) ≡ false → b ≡ false)
      → (Q.non_negative (to_number Q (arg args i)) ≡ true → Checked L Q m b (k m))
      → Checked L Q m b ((assert_non_negative Q d args i >> k) m)
  unfolding assert_non_negative
  sign_lem d i args m b k f g = test_lem m _ b _ k refl f g

  retext :
      (m : Machine L) (t : Store (List ℕ)) (b : Bool)
      (r : Run LuaError (Machine L) (List (Value Q.Number)))
      → Checked L Q (record m { texts = t }) b r
      → Checked L Q m b r
  retext m t b r (refused e t' h) = refused e t' h
  retext m t b r (passed r' h) = passed r' h

  pub string_lem :
      (i : ℕ) (args : List (Value Q.Number)) (m : Machine L) (b : Bool) (k : Ptr → Pushed L Q)
      → ((p : Ptr) (n : Machine L) → Checked L Q n b (k p n))
      → Checked L Q m b ((arg_string L Q args i >>= k) m)
  unfolding arg_string
  string_lem i args m b k g =
      elim (to_text Q (arg args i)) as (λ o. Checked L Q m b (bind_run (string_of L Q o m) k)) [
        | none ↦ g none m
        | some t ↦ retext m _ b _ (g _ (new_text L t m).1)
      ]
