-- ===== src/Lua/Typing/Fits.antt =====
-- modules/lua/Jacks_lua_wrap.c: what fits, argument by argument.
use jacks.Prelude.{suc, ◌≡◌, refl, ap, Bool, true, ◌&&◌, List, [], ◌∷◌, length, arith}
use jacks.Lua.Values.{LuaLib, Value, Param}
use jacks.Lua.Checks.{arg}
use jacks.Lua.Signatures.{accepts, fits}

and_right : (a b : Bool) → (a && b) ≡ true → b ≡ true
and_right a b e = ground arith

module _ (Q : LuaLib) where
  pub fits-length :
      (ps : List Param) (args : List (Value Q.Number))
      → fits Q ps args ≡ true
      → length args ≡ length ps
  unfolding fits
  fits-length [] [] e = refl
  fits-length [] (v ∷ vs) e = ground arith
  fits-length (p ∷ ps) [] e = ground arith
  fits-length (p ∷ ps) (v ∷ vs) e =
      ap suc (fits-length ps vs (and_right (accepts Q p v) (fits Q ps vs) e))

  pub fits_one :
      (p : Param) (args : List (Value Q.Number))
      → length args ≡ 1
      → fits Q (p ∷ []) args ≡ accepts Q p (arg args 1) && true
  unfolding fits
  fits_one p [] e = ground arith
  fits_one p (v ∷ []) e = refl
  fits_one p (v ∷ w ∷ vs) e = ground arith

  pub fits_two :
      (p q : Param) (args : List (Value Q.Number))
      → length args ≡ 2
      → fits Q (p ∷ q ∷ []) args ≡ accepts Q p (arg args 1) && (accepts Q q (arg args 2) && true)
  unfolding fits
  fits_two p q [] e = ground arith
  fits_two p q (v ∷ vs) e = ap (λ b. accepts Q p v && b) (fits_one q vs (ground arith))

  pub fits_three :
      (p q r : Param) (args : List (Value Q.Number))
      → length args ≡ 3
      → fits Q (p ∷ q ∷ r ∷ []) args
        ≡ accepts Q p (arg args 1)
          && (accepts Q q (arg args 2) && (accepts Q r (arg args 3) && true))
  unfolding fits
  fits_three p q r [] e = ground arith
  fits_three p q r (v ∷ vs) e = ap (λ b. accepts Q p v && b) (fits_two q r vs (ground arith))

  pub fits_four :
      (p q r o : Param) (args : List (Value Q.Number))
      → length args ≡ 4
      → fits Q (p ∷ q ∷ r ∷ o ∷ []) args
        ≡ accepts Q p (arg args 1)
          && (accepts Q q (arg args 2)
              && (accepts Q r (arg args 3) && (accepts Q o (arg args 4) && true)))
  unfolding fits
  fits_four p q r o [] e = ground arith
  fits_four p q r o (v ∷ vs) e = ap (λ b. accepts Q p v && b) (fits_three q r o vs (ground arith))
