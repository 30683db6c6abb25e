-- ===== src/Python/Typing/Numbers.antt =====
-- modules/python3/Jacks_python3_wrap.c: the conversions of numbers and chars.
use jacks.Prelude.{
  ℕ, ◌≡◌, refl, sym, subst, Bool, true, ◌&&◌, List, [], ◌∷◌, Option, none, some, ℤ, pos, negsuc,
  arith,
}
use jacks.Libraries.{Libs}
use jacks.Memory.{null_pointer}
use jacks.Lua.Values.{
  int_param, enum_param, long_param, unsigned_int, unsigned_long, float_param, char_param,
}
use jacks.Lua.Act.{◌>>=◌}
use jacks.Python.Values.{
  PyLib, PyValue, py_none, integer, float, str, proxy, other, Function, Process,
}
use jacks.Python.Convert.{
  Converted, broken, as_val_int, as_val_long, as_val_unsigned_int, as_val_unsigned_long,
  as_val_float, as_val_double, as_val_char, as_char_array, as_char_ptr,
}
use jacks.Python.Checks.{obj, checked, PyAct}
use jacks.Python.Signatures.{py_takes, is_short}
use jacks.Python.Typing.Outcomes.{PyChecked, unencoded}
use jacks.Python.Typing.Steps.{verdict, fit, fit_if, checked_lem, misuse_lem}

module _ (Y : PyLib) where
  pub verdict-int : (v : PyValue Y) → verdict (as_val_int Y v) ≡ fit_if (py_takes Y int_param v)
  unfolding as_val_int as_val_long
  verdict-int (integer (pos n)) = ground arith
  verdict-int (integer (negsuc n)) = ground arith
  verdict-int v = refl

  pub verdict-enum : (v : PyValue Y) → verdict (as_val_int Y v) ≡ fit_if (py_takes Y enum_param v)
  unfolding as_val_int as_val_long
  verdict-enum (integer (pos n)) = ground arith
  verdict-enum (integer (negsuc n)) = ground arith
  verdict-enum v = refl

  pub verdict-long : (v : PyValue Y) → verdict (as_val_long Y v) ≡ fit_if (py_takes Y long_param v)
  unfolding as_val_long
  verdict-long (integer (pos n)) = ground arith
  verdict-long (integer (negsuc n)) = ground arith
  verdict-long v = refl

  pub verdict-unsigned_int :
      (v : PyValue Y) → verdict (as_val_unsigned_int Y v) ≡ fit_if (py_takes Y unsigned_int v)
  unfolding as_val_unsigned_int as_val_unsigned_long
  verdict-unsigned_int (integer (pos n)) = ground arith
  verdict-unsigned_int (integer (negsuc n)) = ground arith
  verdict-unsigned_int v = refl

  pub verdict-unsigned_long :
      (v : PyValue Y) → verdict (as_val_unsigned_long Y v) ≡ fit_if (py_takes Y unsigned_long v)
  unfolding as_val_unsigned_long
  verdict-unsigned_long (integer (pos n)) = ground arith
  verdict-unsigned_long (integer (negsuc n)) = ground arith
  verdict-unsigned_long v = refl

  pub verdict-float :
      (v : PyValue Y) → verdict (as_val_float Y v) ≡ fit_if (py_takes Y float_param v)
  unfolding as_val_float as_val_double
  verdict-float (integer (pos n)) = ground arith
  verdict-float (integer (negsuc n)) = ground arith
  verdict-float (float x) = ground arith
  verdict-float v = refl

  verdict-char_text :
      (t : Y.Text) (bytes : List ℕ)
      → Y.encode t ≡ some bytes
      → verdict (as_val_char Y (str t)) ≡ fit_if (py_takes Y char_param (str t))
  unfolding as_val_char as_char_array as_char_ptr as_val_long
  verdict-char_text t [] h = rw (h, verdict, is_short, as_char_ptr) refl
  verdict-char_text t (b ∷ []) h = rw (h, verdict, is_short, as_char_ptr) refl
  verdict-char_text t (b ∷ c ∷ bs) h = rw (h, verdict, is_short, as_char_ptr) (ground arith)

  broken-char_text : (t : Y.Text) → Y.encode t ≡ none → as_val_char Y (str t) ≡ broken null_pointer
  unfolding as_val_char as_char_array as_char_ptr as_val_long
  broken-char_text t h = rw (h, as_char_ptr) refl

  verdict-char_int :
      (z : ℤ) → verdict (as_val_char Y (integer z)) ≡ fit_if (py_takes Y char_param (integer z))
  unfolding as_val_char as_char_array as_char_ptr as_val_long
  verdict-char_int (pos n) = ground arith
  verdict-char_int (negsuc n) = ground arith

  verdict-char_none : verdict (as_val_char Y py_none) ≡ fit
  unfolding as_val_char as_char_array as_char_ptr
  verdict-char_none = refl

module _ (L : Libs) (Y : PyLib) (args : List (PyValue Y)) where
  pub char_lem :
      (d : Function) (i : ℕ) (b : Bool) (s : Process L) (k : ℕ → PyAct L Y (PyValue Y))
      → ((a : ℕ) (n : Process L) → PyChecked L Y args n b (k a n))
      → PyChecked L Y args s
          (py_takes Y char_param (obj args i) && b)
          ((checked d i char_param (as_val_char Y (obj args i)) >>= k) s)
  unfolding checked as_val_char as_char_array as_char_ptr as_val_long
  char_lem d i b s k f = at_value (obj args i) refl
    where
      at_text :
          (t : Y.Text)
          → obj args i ≡ str t
          → (o : Option (List ℕ)) → Y.encode t ≡ o
          → PyChecked L Y args s
              (py_takes Y char_param (str t) && b)
              ((checked d i char_param (as_val_char Y (str t)) >>= k) s)
      at_text t e none h =
          subst
            (λ (c : Converted ℕ).
              PyChecked L Y args s (py_takes Y char_param (str t) && b)
                ((checked d i char_param c >>= k) s))
            (sym (broken-char_text Y t h)) (unencoded _ i t e h)
      at_text t e (some bytes) h =
          checked_lem L Y args d i char_param (as_val_char Y (str t))
            (py_takes Y char_param (str t)) b s k (verdict-char_text Y t bytes h) f

      at_value :
          (v : PyValue Y)
          → obj args i ≡ v
          → PyChecked L Y args s
              (py_takes Y char_param v && b)
              ((checked d i char_param (as_val_char Y v) >>= k) s)
      at_value py_none e =
          checked_lem L Y args d i char_param (as_val_char Y py_none) true b s k
            (verdict-char_none Y) f
      at_value (integer z) e =
          checked_lem L Y args d i char_param (as_val_char Y (integer z))
            (py_takes Y char_param (integer z)) b s k (verdict-char_int Y z) f
      at_value (str t) e = at_text t e (Y.encode t) refl
      at_value (float x) e = misuse_lem L Y args s _ _ refl refl
      at_value (proxy c p id) e = misuse_lem L Y args s _ _ refl refl
      at_value other e = misuse_lem L Y args s _ _ refl refl
