-- ===== src/Python/Signatures.antt =====
-- modules/python3/Jacks_python3_wrap.c: what each function accepts, apart from its code.
use jacks.Prelude.{
  ℕ, ◌^◌, Bool, true, false, not, ◌&&◌, ◌||◌, List, [], ◌∷◌, none, some, ℤ, pos, negsuc, ltb, leb,
  length, if◌then◌else◌,
}
use jacks.Lua.Values.{
  Class, same_class, Param, pointer, int_param, long_param, unsigned_int, unsigned_long,
  float_param, enum_param, string_param, char_param,
}
use jacks.Python.Values.{
  PyLib, PyValue, py_none, integer, float, str, proxy, is_long, is_int, is_char,
}

abbrev pub below : ℕ → ℤ → Bool
below n (pos k) = ltb k n
below n (negsuc k) = false

module _ (Y : PyLib) where
  -- At most one byte, as far as the text has bytes.
  abbrev pub is_short : Y.Text → Bool
  is_short t = elim (Y.encode t) [ none ↦ true | some bytes ↦ leb (length bytes) 1 ]

  abbrev pub accepts_object : Class → PyValue Y → Bool
  accepts_object c py_none = true
  accepts_object c (proxy d p id) = same_class d c
  accepts_object c _ = false

  -- An int beyond the 64 bits of a long.
  abbrev pub is_huge : PyValue Y → Bool
  is_huge (integer z) = not (is_long z)
  is_huge _ = false

  -- What the C types say, by their ranges.
  abbrev pub py_accepts : Param → PyValue Y → Bool
  py_accepts (pointer c) v = accepts_object c v
  py_accepts int_param (integer z) = is_int z
  py_accepts enum_param (integer z) = is_int z
  py_accepts long_param (integer z) = is_long z
  py_accepts unsigned_int (integer z) = below (2 ^ 32) z
  py_accepts unsigned_long (integer z) = below (2 ^ 64) z
  py_accepts float_param (integer z) = not (is_huge (integer z)) && not (Y.over_float (Y.of_long z))
  py_accepts float_param (float x) = not (Y.over_float x)
  py_accepts char_param (integer z) = is_char z
  py_accepts char_param (str t) = is_short t
  py_accepts char_param py_none = true
  py_accepts string_param (str t) = true
  py_accepts string_param py_none = true
  py_accepts _ v = false

  -- What the wrappers take. They differ for an int beyond 64 bits: as an int, a long, a float or a
  -- char it is taken, for -1, and as an unsigned long it is refused even where it fits.
  abbrev pub py_takes : Param → PyValue Y → Bool
  py_takes (pointer c) v = accepts_object c v
  py_takes int_param (integer z) = is_int z || not (is_long z)
  py_takes enum_param (integer z) = is_int z || not (is_long z)
  py_takes long_param (integer z) = true
  py_takes unsigned_int (integer z) = below (2 ^ 32) z
  py_takes unsigned_long (integer z) = below (2 ^ 63) z
  py_takes float_param (integer z) =
      not (Y.over_float (Y.of_long (if is_long z then z else negsuc 0)))
  py_takes float_param (float x) = not (Y.over_float x)
  py_takes char_param (integer z) = is_char z || not (is_long z)
  py_takes char_param (str t) = is_short t
  py_takes char_param py_none = true
  py_takes string_param (str t) = true
  py_takes string_param py_none = true
  py_takes _ v = false

  -- One of the arguments is an int beyond 64 bits.
  abbrev pub any_huge : List (PyValue Y) → Bool
  any_huge [] = false
  any_huge (v ∷ vs) = is_huge v || any_huge vs

  -- The arguments fit: as many as the parameters, each as the type of its parameter says.
  abbrev pub py_fits : List Param → List (PyValue Y) → Bool
  py_fits [] [] = true
  py_fits (p ∷ ps) (v ∷ vs) = py_accepts p v && py_fits ps vs
  py_fits _ _ = false

  -- The same for what the wrappers take.
  unfoldable pub py_taken : List Param → List (PyValue Y) → Bool
  py_taken [] [] = true
  py_taken (p ∷ ps) (v ∷ vs) = py_takes p v && py_taken ps vs
  py_taken _ _ = false
