-- ===== src/Lua/Typing/Long.antt =====
-- modules/lua/Jacks_lua_wrap.c: the checks of the longer lists of parameters.
use jacks.Prelude.{◌≡◌, refl, false, List, [], ◌∷◌, arith}
use jacks.Libraries.{Libs}
use jacks.Memory.{Ptr}
use jacks.Lua.Values.{
  Class, LuaLib, Value, Method, pointer, int_param, unsigned_int, unsigned_long, float_param,
  enum_param, string_param, char_param,
}
use jacks.Lua.Act.{◌>>=◌, ◌>>◌}
use jacks.Lua.Machine.{Machine}
use jacks.Lua.Checks.{
  check_num_args, check_ptr_type, check_number, check_string, convert_ptr, assert_non_negative,
  arg_string, Pushed,
}
use jacks.Lua.Signatures.{fits}
use jacks.Lua.Typing.Outcomes.{refuses, Checked}
use jacks.Lua.Typing.Fits.{fits_three, fits_four}
use jacks.Lua.Typing.Steps.{
  done, count_lem, pointer_lem, convert_lem, number_lem, text_lem, sign_lem, string_lem,
}

module _ (L : Libs) (Q : LuaLib) where
  pub setf_lem :
      (d : Method) (c : Class) (m : Machine L) (args : List (Value Q.Number)) (k : Ptr → Pushed L Q)
      → ((p1 : Ptr) (s : Machine L) → refuses (k p1 s) ≡ false)
      → Checked L Q m (fits Q (pointer c ∷ unsigned_int ∷ float_param ∷ []) args) (
          (do
            check_num_args Q d args 3 3
            check_ptr_type Q d args 1 c
            check_number Q d args 2 unsigned_int
            check_number Q d args 3 float_param
            p1 ← convert_ptr Q d args 1 c
            assert_non_negative Q d args 2
            k p1)
            m)
  setf_lem d c m args k h =
      count_lem L Q d 3 (pointer c ∷ unsigned_int ∷ float_param ∷ []) args m _ refl (λ e.
        rw (fits_three Q (pointer c) unsigned_int float_param args e) (
          pointer_lem L Q d 1 c args m _ _ (λ f. ground (arith, f))
            (number_lem L Q d 2 unsigned_int args m _ _ (λ f. ground (arith, f))
              (λ n2.
                number_lem L Q d 3 float_param args m _ _ (λ f. ground (arith, f))
                  (λ n3.
                    convert_lem L Q d 1 c args m _ _ (λ f. ground (arith, f))
                      (λ c1 p1.
                        sign_lem L Q d 2 args m _ _ (λ f. ground (arith, f))
                          (λ s2. done L Q m _ _ (ground (arith, n2, n3, c1, s2)) (h p1 m))))))))

  pub hex_lem :
      (d : Method) (c : Class) (m : Machine L) (args : List (Value Q.Number)) (k : Ptr → Pushed L Q)
      → ((p1 : Ptr) (s : Machine L) → refuses (k p1 s) ≡ false)
      → Checked L Q m (fits Q (pointer c ∷ unsigned_int ∷ unsigned_int ∷ char_param ∷ []) args) (
          (do
            check_num_args Q d args 4 4
            check_ptr_type Q d args 1 c
            check_number Q d args 2 unsigned_int
            check_number Q d args 3 unsigned_int
            check_string Q d args 4 char_param
            p1 ← convert_ptr Q d args 1 c
            assert_non_negative Q d args 2
            assert_non_negative Q d args 3
            k p1)
            m)
  hex_lem d c m args k h =
      count_lem L Q d 4 (pointer c ∷ unsigned_int ∷ unsigned_int ∷ char_param ∷ []) args m _ refl
        (λ e. rw (fits_four Q (pointer c) unsigned_int unsigned_int char_param args e) (
          pointer_lem L Q d 1 c args m _ _ (λ f. ground (arith, f))
            (number_lem L Q d 2 unsigned_int args m _ _ (λ f. ground (arith, f))
              (λ n2.
                number_lem L Q d 3 unsigned_int args m _ _ (λ f. ground (arith, f))
                  (λ n3.
                    text_lem L Q d 4 char_param args m _ _ (λ f. ground (arith, f))
                      (λ t4.
                        convert_lem L Q d 1 c args m _ _ (λ f. ground (arith, f))
                          (λ c1 p1.
                            sign_lem L Q d 2 args m _ _ (λ f. ground (arith, f))
                              (λ s2.
                                sign_lem L Q d 3 args m _ _ (λ f. ground (arith, f))
                                  (λ s3.
                                    done L Q m _ _ (ground (arith, n2, n3, t4, c1, s2, s3))
                                      (h p1 m))))))))))

  pub latency_lem :
      (d : Method) (c : Class) (m : Machine L) (args : List (Value Q.Number)) (k : Ptr → Pushed L Q)
      → ((p1 : Ptr) (s : Machine L) → refuses (k p1 s) ≡ false)
      → Checked L Q m (fits Q (pointer c ∷ enum_param ∷ int_param ∷ int_param ∷ []) args) (
          (do
            check_num_args Q d args 4 4
            check_ptr_type Q d args 1 c
            check_number Q d args 2 enum_param
            check_number Q d args 3 int_param
            check_number Q d args 4 int_param
            p1 ← convert_ptr Q d args 1 c
            k p1)
            m)
  latency_lem d c m args k h =
      count_lem L Q d 4 (pointer c ∷ enum_param ∷ int_param ∷ int_param ∷ []) args m _ refl (λ e.
        rw (fits_four Q (pointer c) enum_param int_param int_param args e) (
          pointer_lem L Q d 1 c args m _ _ (λ f. ground (arith, f))
            (number_lem L Q d 2 enum_param args m _ _ (λ f. ground (arith, f))
              (λ n2.
                number_lem L Q d 3 int_param args m _ _ (λ f. ground (arith, f))
                  (λ n3.
                    number_lem L Q d 4 int_param args m _ _ (λ f. ground (arith, f))
                      (λ n4.
                        convert_lem L Q d 1 c args m _ _ (λ f. ground (arith, f))
                          (λ c1 p1. done L Q m _ _ (ground (arith, n2, n3, n4, c1)) (h p1 m))))))))

  pub open_lem :
      (d : Method) (m : Machine L) (args : List (Value Q.Number)) (k : Ptr → Ptr → Pushed L Q)
      → ((p1 : Ptr) (p2 : Ptr) (s : Machine L) → refuses (k p1 p2 s) ≡ false)
      → Checked L Q m (fits Q (string_param ∷ string_param ∷ enum_param ∷ unsigned_int ∷ []) args) (
          (do
            check_num_args Q d args 4 4
            check_string Q d args 1 string_param
            check_string Q d args 2 string_param
            check_number Q d args 3 enum_param
            check_number Q d args 4 unsigned_int
            p1 ← arg_string L Q args 1
            p2 ← arg_string L Q args 2
            assert_non_negative Q d args 4
            k p1 p2)
            m)
  open_lem d m args k h =
      count_lem L Q d 4 (string_param ∷ string_param ∷ enum_param ∷ unsigned_int ∷ []) args m _ refl
        (λ e. rw (fits_four Q string_param string_param enum_param unsigned_int args e) (
          text_lem L Q d 1 string_param args m _ _ (λ f. ground (arith, f))
            (λ t1.
              text_lem L Q d 2 string_param args m _ _ (λ f. ground (arith, f))
                (λ t2.
                  number_lem L Q d 3 enum_param args m _ _ (λ f. ground (arith, f))
                    (λ n3.
                      number_lem L Q d 4 unsigned_int args m _ _ (λ f. ground (arith, f))
                        (λ n4. string_lem L Q 1 args m _ _ (λ p1 m1.
                          string_lem L Q 2 args m1 _ _ (λ p2 m2.
                            sign_lem L Q d 4 args m2 _ _ (λ f. ground (arith, f))
                              (λ s4.
                                done L Q m2 _ _ (ground (arith, t1, t2, n3, n4, s4))
                                  (h p1 p2 m2))))))))))

  pub names_lem :
      (d : Method) (c : Class) (m : Machine L) (args : List (Value Q.Number))
      (k : Ptr → Ptr → Ptr → Pushed L Q)
      → ((p1 : Ptr) (p2 : Ptr) (p3 : Ptr) (s : Machine L) → refuses (k p1 p2 p3 s) ≡ false)
      → Checked L Q m (fits Q (pointer c ∷ string_param ∷ string_param ∷ enum_param ∷ []) args) (
          (do
            check_num_args Q d args 4 4
            check_ptr_type Q d args 1 c
            check_string Q d args 2 string_param
            check_string Q d args 3 string_param
            check_number Q d args 4 enum_param
            p1 ← convert_ptr Q d args 1 c
            p2 ← arg_string L Q args 2
            p3 ← arg_string L Q args 3
            k p1 p2 p3)
            m)
  names_lem d c m args k h =
      count_lem L Q d 4 (pointer c ∷ string_param ∷ string_param ∷ enum_param ∷ []) args m _ refl
        (λ e. rw (fits_four Q (pointer c) string_param string_param enum_param args e) (
          pointer_lem L Q d 1 c args m _ _ (λ f. ground (arith, f))
            (text_lem L Q d 2 string_param args m _ _ (λ f. ground (arith, f))
              (λ t2.
                text_lem L Q d 3 string_param args m _ _ (λ f. ground (arith, f))
                  (λ t3.
                    number_lem L Q d 4 enum_param args m _ _ (λ f. ground (arith, f))
                      (λ n4.
                        convert_lem L Q d 1 c args m _ _ (λ f. ground (arith, f))
                          (λ c1 p1. string_lem L Q 2 args m _ _ (λ p2 m1.
                            string_lem L Q 3 args m1 _ _ (λ p3 m2.
                              done L Q m2 _ _ (ground (arith, t2, t3, n4, c1))
                                (h p1 p2 p3 m2))))))))))

  pub register_lem :
      (d : Method) (c : Class) (m : Machine L) (args : List (Value Q.Number))
      (k : Ptr → Ptr → Pushed L Q)
      → ((p1 : Ptr) (p2 : Ptr) (s : Machine L) → refuses (k p1 p2 s) ≡ false)
      → Checked L Q m (fits Q (pointer c ∷ string_param ∷ unsigned_long ∷ []) args) (
          (do
            check_num_args Q d args 3 3
            check_ptr_type Q d args 1 c
            check_string Q d args 2 string_param
            check_number Q d args 3 unsigned_long
            p1 ← convert_ptr Q d args 1 c
            p2 ← arg_string L Q args 2
            assert_non_negative Q d args 3
            k p1 p2)
            m)
  register_lem d c m args k h =
      count_lem L Q d 3 (pointer c ∷ string_param ∷ unsigned_long ∷ []) args m _ refl (λ e.
        rw (fits_three Q (pointer c) string_param unsigned_long args e) (
          pointer_lem L Q d 1 c args m _ _ (λ f. ground (arith, f))
            (text_lem L Q d 2 string_param args m _ _ (λ f. ground (arith, f))
              (λ t2.
                number_lem L Q d 3 unsigned_long args m _ _ (λ f. ground (arith, f))
                  (λ n3.
                    convert_lem L Q d 1 c args m _ _ (λ f. ground (arith, f))
                      (λ c1 p1. string_lem L Q 2 args m _ _ (λ p2 m1.
                        sign_lem L Q d 3 args m1 _ _ (λ f. ground (arith, f))
                          (λ s3.
                            done L Q m1 _ _ (ground (arith, t2, n3, c1, s3)) (h p1 p2 m1)))))))))
