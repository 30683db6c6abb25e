-- ===== src/Python/Convert.antt =====
-- modules/python3/Jacks_python3_wrap.c: from Python's objects to C's values.
use jacks.Prelude.{
  ℕ, ◌%◌, ◌^◌, Bool, true, false, not, List, [], ◌∷◌, Option, none, some, ℤ, pos, negsuc, ltb,
  if◌then◌else◌,
}
use jacks.Memory.{Fault, null_pointer, Ptr}
use jacks.Lua.Values.{Class, same_class, unsigned_of}
use jacks.Python.Values.{
  PyLib, PyValue, py_none, integer, float, str, proxy, is_long, is_int, is_char,
}

-- What `SWIG_AsVal_…` gives: a value, with whether Python's error indicator has been set on the way;
-- `SWIG_TypeError`; `SWIG_OverflowError`; or the end of the process.
pub data Converted (A : Type 0) : Type 0 where
  converted : A → Bool → Converted A
  mistyped overflowed : Converted A
  broken : Fault → Converted A

module _ {A : Type 0} where
  abbrev pub converted_if : Bool → A → Bool → Converted A
  converted_if true a i = converted a i
  converted_if false a i = overflowed

  abbrev pub bind_converted : {B : Type 0} → Converted A → (A → Bool → Converted B) → Converted B
  bind_converted (converted a i) f = f a i
  bind_converted mistyped f = mistyped
  bind_converted overflowed f = overflowed
  bind_converted (broken e) f = broken e

-- `PyLong_AsLong`: -1, and an OverflowError in the indicator, for what is no long.
abbrev pub as_long : ℤ → ℤ
as_long z = if is_long z then z else negsuc 0

abbrev pub is_huge : ℤ → Bool
is_huge z = not (is_long z)

-- `v >= 0`, and the value as unsigned.
abbrev pub unsigned_if : ℤ → Bool → Converted ℕ
unsigned_if (pos n) i = converted n i
unsigned_if (negsuc n) i = overflowed

-- The byte that `(char)(v)` is.
abbrev pub byte_of : ℤ → ℕ
byte_of z = unsigned_of z % 256

module _ (Y : PyLib) where
  -- `SWIG_AsVal_long`. `PyInt_Check` is `PyLong_Check` on Python 3, so that the branch without a
  -- look at the indicator is taken for every int.
  unfoldable pub as_val_long : PyValue Y → Converted ℤ
  as_val_long (integer z) = converted (as_long z) (is_huge z)
  as_val_long _ = mistyped

  unfoldable pub as_val_int : PyValue Y → Converted ℤ
  unfolding as_val_long
  as_val_int v = bind_converted (as_val_long v) (λ z i. converted_if (is_int z) z i)

  unfoldable pub as_val_unsigned_long : PyValue Y → Converted ℕ
  as_val_unsigned_long (integer z) = unsigned_if (as_long z) (is_huge z)
  as_val_unsigned_long _ = mistyped

  -- `v > UINT_MAX`
  unfoldable pub as_val_unsigned_int : PyValue Y → Converted ℕ
  unfolding as_val_unsigned_long
  as_val_unsigned_int v =
      bind_converted (as_val_unsigned_long v) (λ n i. converted_if (ltb n (2 ^ 32)) n i)

  unfoldable pub as_val_double : PyValue Y → Converted Y.Float
  as_val_double (float x) = converted x false
  as_val_double (integer z) = converted (Y.of_long (as_long z)) (is_huge z)
  as_val_double _ = mistyped

  unfoldable pub as_val_float : PyValue Y → Converted Y.Float
  unfolding as_val_double
  as_val_float v = bind_converted (as_val_double v) (λ x i. converted_if (not (Y.over_float x)) x i)

  -- `SWIG_AsCharPtrAndSize`: NULL for None, and a copy of the UTF-8 for a text. Where there is no
  -- UTF-8, `PyBytes_AsStringAndSize` is called on NULL.
  unfoldable pub as_char_ptr : PyValue Y → Converted (Option (List ℕ))
  as_char_ptr py_none = converted none false
  as_char_ptr (str t) = elim (Y.encode t) [
    | none ↦ broken null_pointer
    | some bytes ↦ converted (some bytes) false
  ]
  as_char_ptr _ = mistyped

  -- `SWIG_AsCharArray` for an array of one char, which the final NUL need not fit.
  abbrev pub one_char : Option (List ℕ) → Converted ℕ
  one_char none = converted 0 false
  one_char (some []) = converted 0 false
  one_char (some (b ∷ [])) = converted b false
  one_char (some (b ∷ c ∷ bs)) = mistyped

  unfoldable pub as_char_array : PyValue Y → Converted ℕ
  unfolding as_char_ptr
  as_char_array v = bind_converted (as_char_ptr v) (λ o i. one_char o)

  -- `if (!SWIG_IsOK(res)) …`
  abbrev pub or_else : {A : Type 0} → Converted A → Converted A → Converted A
  or_else mistyped k = k
  or_else overflowed k = k
  or_else (converted a i) k = converted a i
  or_else (broken e) k = broken e

  unfoldable pub as_val_char : PyValue Y → Converted ℕ
  unfolding as_char_array as_val_long
  as_val_char v =
      or_else (as_char_array v)
        (bind_converted (as_val_long v) (λ z i. converted_if (is_char z) (byte_of z) i))

  -- `SWIG_Python_ConvertPtrAndOwn`, where no type can be cast to another.
  unfoldable pub as_pointer : PyValue Y → Class → Converted Ptr
  as_pointer py_none c = converted none false
  as_pointer (proxy d p id) c = elim (same_class d c) [
    | true ↦ converted (some p) false
    | false ↦ mistyped
  ]
  as_pointer _ c = mistyped
