-- ===== src/Lua/Typing/Short.antt =====
-- modules/lua/Jacks_lua_wrap.c: the checks that the wrappers begin with, by their parameters.
use jacks.Prelude.{◌≡◌, refl, false, List, [], ◌∷◌, length, arith}
use jacks.Libraries.{Libs}
use jacks.Memory.{Ptr}
use jacks.Lua.Values.{
  Class, LuaLib, Value, Method, pointer, int_param, long_param, unsigned_int, enum_param,
  string_param,
}
use jacks.Lua.Act.{◌>>=◌, ◌>>◌}
use jacks.Lua.Machine.{Machine}
use jacks.Lua.Checks.{
  check_num_args, check_ptr_type, check_number, check_string, convert_ptr, assert_non_negative,
  arg_string, Pushed,
}
use jacks.Lua.Signatures.{fits}
use jacks.Lua.Typing.Outcomes.{refuses, Checked}
use jacks.Lua.Typing.Fits.{fits_one, fits_two}
use jacks.Lua.Typing.Steps.{
  done, count_lem, pointer_lem, convert_lem, number_lem, text_lem, sign_lem, string_lem,
}

module _ (L : Libs) (Q : LuaLib) where
  pub nothing_lem :
      (d : Method) (m : Machine L) (args : List (Value Q.Number)) (k : Pushed L Q)
      → ((s : Machine L) → refuses (k s) ≡ false)
      → Checked L Q m (fits Q [] args) ((check_num_args Q d args 0 0 >> k) m)
  unfolding fits
  nothing_lem d m args k h = count_lem L Q d 0 [] args m k refl (at_args args)
    where
      at_args :
          (args : List (Value Q.Number)) → length args ≡ 0 → Checked L Q m (fits Q [] args) (k m)
      at_args [] e = done L Q m _ _ refl (h m)
      at_args (v ∷ vs) e = ground arith

  pub self_lem :
      (d : Method) (c : Class) (m : Machine L) (args : List (Value Q.Number)) (k : Ptr → Pushed L Q)
      → ((p1 : Ptr) (s : Machine L) → refuses (k p1 s) ≡ false)
      → Checked L Q m (fits Q (pointer c ∷ []) args) (
          (do
            check_num_args Q d args 1 1
            check_ptr_type Q d args 1 c
            p1 ← convert_ptr Q d args 1 c
            k p1)
            m)
  self_lem d c m args k h = count_lem L Q d 1 (pointer c ∷ []) args m _ refl (λ e.
      rw (fits_one Q (pointer c) args e) (
        pointer_lem L Q d 1 c args m _ _ (λ f. ground (arith, f))
          (convert_lem L Q d 1 c args m _ _ (λ f. ground (arith, f))
            (λ c1 p1. done L Q m _ _ (ground (arith, c1)) (h p1 m)))))

  pub self_text_lem :
      (d : Method) (c : Class) (m : Machine L) (args : List (Value Q.Number))
      (k : Ptr → Ptr → Pushed L Q)
      → ((p1 : Ptr) (p2 : Ptr) (s : Machine L) → refuses (k p1 p2 s) ≡ false)
      → Checked L Q m (fits Q (pointer c ∷ string_param ∷ []) args) (
          (do
            check_num_args Q d args 2 2
            check_ptr_type Q d args 1 c
            check_string Q d args 2 string_param
            p1 ← convert_ptr Q d args 1 c
            p2 ← arg_string L Q args 2
            k p1 p2)
            m)
  self_text_lem d c m args k h =
      count_lem L Q d 2 (pointer c ∷ string_param ∷ []) args m _ refl (λ e.
        rw (fits_two Q (pointer c) string_param args e) (
          pointer_lem L Q d 1 c args m _ _ (λ f. ground (arith, f))
            (text_lem L Q d 2 string_param args m _ _ (λ f. ground (arith, f))
              (λ t2.
                convert_lem L Q d 1 c args m _ _ (λ f. ground (arith, f))
                  (λ c1 p1.
                    string_lem L Q 2 args m _ _
                      (λ p2 m1. done L Q m1 _ _ (ground (arith, t2, c1)) (h p1 p2 m1)))))))

  pub self_int_lem :
      (d : Method) (c : Class) (m : Machine L) (args : List (Value Q.Number)) (k : Ptr → Pushed L Q)
      → ((p1 : Ptr) (s : Machine L) → refuses (k p1 s) ≡ false)
      → Checked L Q m (fits Q (pointer c ∷ int_param ∷ []) args) (
          (do
            check_num_args Q d args 2 2
            check_ptr_type Q d args 1 c
            check_number Q d args 2 int_param
            p1 ← convert_ptr Q d args 1 c
            k p1)
            m)
  self_int_lem d c m args k h = count_lem L Q d 2 (pointer c ∷ int_param ∷ []) args m _ refl (λ e.
      rw (fits_two Q (pointer c) int_param args e) (
        pointer_lem L Q d 1 c args m _ _ (λ f. ground (arith, f))
          (number_lem L Q d 2 int_param args m _ _ (λ f. ground (arith, f))
            (λ n2.
              convert_lem L Q d 1 c args m _ _ (λ f. ground (arith, f))
                (λ c1 p1. done L Q m _ _ (ground (arith, n2, c1)) (h p1 m))))))

  pub self_long_lem :
      (d : Method) (c : Class) (m : Machine L) (args : List (Value Q.Number)) (k : Ptr → Pushed L Q)
      → ((p1 : Ptr) (s : Machine L) → refuses (k p1 s) ≡ false)
      → Checked L Q m (fits Q (pointer c ∷ long_param ∷ []) args) (
          (do
            check_num_args Q d args 2 2
            check_ptr_type Q d args 1 c
            check_number Q d args 2 long_param
            p1 ← convert_ptr Q d args 1 c
            k p1)
            m)
  self_long_lem d c m args k h = count_lem L Q d 2 (pointer c ∷ long_param ∷ []) args m _ refl (λ e.
      rw (fits_two Q (pointer c) long_param args e) (
        pointer_lem L Q d 1 c args m _ _ (λ f. ground (arith, f))
          (number_lem L Q d 2 long_param args m _ _ (λ f. ground (arith, f))
            (λ n2.
              convert_lem L Q d 1 c args m _ _ (λ f. ground (arith, f))
                (λ c1 p1. done L Q m _ _ (ground (arith, n2, c1)) (h p1 m))))))

  pub self_enum_lem :
      (d : Method) (c : Class) (m : Machine L) (args : List (Value Q.Number)) (k : Ptr → Pushed L Q)
      → ((p1 : Ptr) (s : Machine L) → refuses (k p1 s) ≡ false)
      → Checked L Q m (fits Q (pointer c ∷ enum_param ∷ []) args) (
          (do
            check_num_args Q d args 2 2
            check_ptr_type Q d args 1 c
            check_number Q d args 2 enum_param
            p1 ← convert_ptr Q d args 1 c
            k p1)
            m)
  self_enum_lem d c m args k h = count_lem L Q d 2 (pointer c ∷ enum_param ∷ []) args m _ refl (λ e.
      rw (fits_two Q (pointer c) enum_param args e) (
        pointer_lem L Q d 1 c args m _ _ (λ f. ground (arith, f))
          (number_lem L Q d 2 enum_param args m _ _ (λ f. ground (arith, f))
            (λ n2.
              convert_lem L Q d 1 c args m _ _ (λ f. ground (arith, f))
                (λ c1 p1. done L Q m _ _ (ground (arith, n2, c1)) (h p1 m))))))

  pub self_index_lem :
      (d : Method) (c : Class) (m : Machine L) (args : List (Value Q.Number)) (k : Ptr → Pushed L Q)
      → ((p1 : Ptr) (s : Machine L) → refuses (k p1 s) ≡ false)
      → Checked L Q m (fits Q (pointer c ∷ unsigned_int ∷ []) args) (
          (do
            check_num_args Q d args 2 2
            check_ptr_type Q d args 1 c
            check_number Q d args 2 unsigned_int
            p1 ← convert_ptr Q d args 1 c
            assert_non_negative Q d args 2
            k p1)
            m)
  self_index_lem d c m args k h =
      count_lem L Q d 2 (pointer c ∷ unsigned_int ∷ []) args m _ refl (λ e.
        rw (fits_two Q (pointer c) unsigned_int args e) (
          pointer_lem L Q d 1 c args m _ _ (λ f. ground (arith, f))
            (number_lem L Q d 2 unsigned_int args m _ _ (λ f. ground (arith, f))
              (λ n2.
                convert_lem L Q d 1 c args m _ _ (λ f. ground (arith, f))
                  (λ c1 p1.
                    sign_lem L Q d 2 args m _ _ (λ f. ground (arith, f))
                      (λ s2. done L Q m _ _ (ground (arith, n2, c1, s2)) (h p1 m)))))))

  pub self_pointer_lem :
      (d : Method) (c : Class) (m : Machine L) (args : List (Value Q.Number))
      (k : Ptr → Ptr → Pushed L Q)
      → ((p1 : Ptr) (p2 : Ptr) (s : Machine L) → refuses (k p1 p2 s) ≡ false)
      → Checked L Q m (fits Q (pointer c ∷ pointer c ∷ []) args) (
          (do
            check_num_args Q d args 2 2
            check_ptr_type Q d args 1 c
            check_ptr_type Q d args 2 c
            p1 ← convert_ptr Q d args 1 c
            p2 ← convert_ptr Q d args 2 c
            k p1 p2)
            m)
  self_pointer_lem d c m args k h =
      count_lem L Q d 2 (pointer c ∷ pointer c ∷ []) args m _ refl (λ e.
        rw (fits_two Q (pointer c) (pointer c) args e) (
          pointer_lem L Q d 1 c args m _ _ (λ f. ground (arith, f))
            (pointer_lem L Q d 2 c args m _ _ (λ f. ground (arith, f))
              (convert_lem L Q d 1 c args m _ _ (λ f. ground (arith, f))
                (λ c1 p1.
                  convert_lem L Q d 2 c args m _ _ (λ f. ground (arith, f))
                    (λ c2 p2. done L Q m _ _ (ground (arith, c1, c2)) (h p1 p2 m)))))))
