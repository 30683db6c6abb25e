-- ===== src/Python/Values.antt =====
-- modules/python3/Jacks_python3_wrap.c: what the wrappers see of Python, and what a script holds.
use jacks.Prelude.{ℕ, suc, ◌^◌, Bool, List, Option, ℤ, pos, negsuc, ltb, ◌==◌, if◌then◌else◌}
use jacks.Libraries.{Libs}
use jacks.Lua.Values.{Class, Param, Method}
use jacks.Lua.Machine.{Machine}

-- Python's floats and texts: `FLT_MAX` is less than the float, or the float is less than
-- `-FLT_MAX`; the cast of a long; `PyUnicode_AsUTF8String`, which fails on a lone surrogate; and
-- `PyUnicode_FromStringAndSize`, which fails on what is no UTF-8.
pub record PyLib : Type 1 where
  pub Float : Type 0
  pub Text : Type 0
  pub over_float : Float → Bool
  pub of_long : ℤ → Float
  pub encode : Text → Option (List ℕ)
  pub decode : List ℕ → Option Text

-- A Python object. A bool is an int. `proxy` is an object with a `SwigPyObject` in it: its type, its
-- pointer, which is not NULL, and the identity of the `SwigPyObject`, whose `own` changes.
pub data PyValue (Y : PyLib) : Type 0 where
  py_none : PyValue Y
  integer : ℤ → PyValue Y
  float : Y.Float → PyValue Y
  str : Y.Text → PyValue Y
  proxy : Class → ℕ → ℕ → PyValue Y
  other : PyValue Y

-- The functions of the module.
pub data Function : Type 0 where
  method : Method → Function
  delete : Class → Function

-- The errors that reach the script: TypeError for a wrong number of arguments, with the right one
-- and the given one; TypeError and OverflowError for an argument, with its place and the expected
-- type; RuntimeError with the message that a C function threw, as the bytes of the buffer; and UnicodeDecodeError for a result.
pub data PyError : Type 0 where
  wrong_count : Function → ℕ → ℕ → PyError
  type_error : Function → ℕ → Param → PyError
  overflow_error : Function → ℕ → Param → PyError
  runtime_error : List ℕ → PyError
  decode_error : PyError

-- The limits of limits.h.
abbrev pub is_long : ℤ → Bool
is_long (pos n) = ltb n (2 ^ 63)
is_long (negsuc n) = ltb n (2 ^ 63)

abbrev pub is_int : ℤ → Bool
is_int (pos n) = ltb n (2 ^ 31)
is_int (negsuc n) = ltb n (2 ^ 31)

abbrev pub is_char : ℤ → Bool
is_char (pos n) = ltb n 128
is_char (negsuc n) = ltb n 128

-- The memory of the C code; the `own` of each `SwigPyObject`, by the identities that have been given
-- out; and whether Python's error indicator is set though no error was returned.
pub record Process (L : Libs) : Type 0 where
  pub machine : Machine L
  pub owned : ℕ → Bool
  pub proxies : ℕ
  pub indicator : Bool

module _ (L : Libs) where
  abbrev pub set_own : ℕ → Bool → Process L → Process L
  set_own i b s = record s { owned = λ j. if i == j then b else s.owned j }

  -- `SwigPyObject_New`
  abbrev pub new_object : Bool → Process L → ℕ × Process L
  new_object own s = (s.proxies, record (set_own s.proxies own s) { proxies = suc s.proxies })
