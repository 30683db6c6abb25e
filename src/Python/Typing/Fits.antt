-- ===== src/Python/Typing/Fits.antt =====
-- modules/python3/Jacks_python3_wrap.c: what fits, argument by argument.
use jacks.Prelude.{
  suc, ◌≡◌, refl, ap, ap₂, Bool, Bool-cases, true, false, ◌⊎◌, inl, inr, pos, negsuc, ◌&&◌, List,
  [], ◌∷◌, length, arith,
}
use jacks.Lua.Values.{
  Param, pointer, int_param, long_param, unsigned_int, unsigned_long, float_param, enum_param,
  char_param,
}
use jacks.Python.Values.{PyLib, PyValue, integer}
use jacks.Python.Checks.{obj}
use jacks.Python.Signatures.{is_huge, py_accepts, py_takes, any_huge, py_fits, py_taken}

and_right : (a b : Bool) → (a && b) ≡ true → b ≡ true
and_right a b e = ground arith

module _ (Y : PyLib) where
  pub py_taken-length :
      (ps : List Param) (args : List (PyValue Y))
      → py_taken Y ps args ≡ true
      → length args ≡ length ps
  unfolding py_taken
  py_taken-length [] [] e = refl
  py_taken-length [] (v ∷ vs) e = ground arith
  py_taken-length (p ∷ ps) [] e = ground arith
  py_taken-length (p ∷ ps) (v ∷ vs) e =
      ap suc (py_taken-length ps vs (and_right (py_takes Y p v) (py_taken Y ps vs) e))

  pub py_taken_none : (args : List (PyValue Y)) → length args ≡ 0 → py_taken Y [] args ≡ true
  unfolding py_taken
  py_taken_none [] e = refl
  py_taken_none (v ∷ vs) e = ground arith

  pub py_taken_one :
      (p : Param) (args : List (PyValue Y))
      → length args ≡ 1
      → py_taken Y (p ∷ []) args ≡ py_takes Y p (obj args 1) && true
  unfolding py_taken
  py_taken_one p [] e = ground arith
  py_taken_one p (v ∷ []) e = refl
  py_taken_one p (v ∷ w ∷ vs) e = ground arith

  pub py_taken_two :
      (p q : Param) (args : List (PyValue Y))
      → length args ≡ 2
      → py_taken Y (p ∷ q ∷ []) args
        ≡ py_takes Y p (obj args 1) && (py_takes Y q (obj args 2) && true)
  unfolding py_taken
  py_taken_two p q [] e = ground arith
  py_taken_two p q (v ∷ vs) e = ap (λ b. py_takes Y p v && b) (py_taken_one q vs (ground arith))

  pub py_taken_three :
      (p q r : Param) (args : List (PyValue Y))
      → length args ≡ 3
      → py_taken Y (p ∷ q ∷ r ∷ []) args
        ≡ py_takes Y p (obj args 1)
          && (py_takes Y q (obj args 2) && (py_takes Y r (obj args 3) && true))
  unfolding py_taken
  py_taken_three p q r [] e = ground arith
  py_taken_three p q r (v ∷ vs) e =
      ap (λ b. py_takes Y p v && b) (py_taken_two q r vs (ground arith))

  pub py_taken_four :
      (p q r o : Param) (args : List (PyValue Y))
      → length args ≡ 4
      → py_taken Y (p ∷ q ∷ r ∷ o ∷ []) args
        ≡ py_takes Y p (obj args 1)
          && (py_takes Y q (obj args 2)
              && (py_takes Y r (obj args 3) && (py_takes Y o (obj args 4) && true)))
  unfolding py_taken
  py_taken_four p q r o [] e = ground arith
  py_taken_four p q r o (v ∷ vs) e =
      ap (λ b. py_takes Y p v && b) (py_taken_three q r o vs (ground arith))

  takes_lem : (p : Param) (v : PyValue Y) → is_huge Y v ≡ false → py_takes Y p v ≡ py_accepts Y p v
  takes_lem (pointer c) v h = refl
  takes_lem int_param (integer z) h = ground arith
  takes_lem enum_param (integer z) h = ground arith
  takes_lem long_param (integer z) h = ground arith
  takes_lem unsigned_int (integer z) h = refl
  takes_lem unsigned_long (integer (pos n)) h = ground arith
  takes_lem unsigned_long (integer (negsuc n)) h = refl
  takes_lem float_param (integer z) h = ground arith
  takes_lem char_param (integer z) h = ground arith
  takes_lem p v h = refl

  -- Without an int beyond 64 bits the wrappers take what fits.
  taken-fits :
      (ps : List Param) (vs : List (PyValue Y))
      → any_huge Y vs ≡ false
      → py_taken Y ps vs ≡ py_fits Y ps vs
  unfolding py_taken
  taken-fits [] [] h = refl
  taken-fits [] (v ∷ vs) h = refl
  taken-fits (p ∷ ps) [] h = refl
  taken-fits (p ∷ ps) (v ∷ vs) h =
      ap₂ ◌&&◌ (takes_lem p v (ground (arith, h))) (taken-fits ps vs (ground (arith, h)))

  pub taken_cases :
      (ps : List Param) (vs : List (PyValue Y))
      → (py_taken Y ps vs ≡ py_fits Y ps vs) ⊎ (any_huge Y vs ≡ true)
  taken_cases ps vs = elim (Bool-cases (any_huge Y vs)) [
    | inl h ↦ inr h
    | inr h ↦ inl (taken-fits ps vs h)
  ]
