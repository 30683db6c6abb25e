-- ===== src/Python/Indices.antt =====
-- modules/python3/Jacks_python3_wrap.c: the index that a script gives for a string of a list.
use jacks.Prelude.{
  ℕ, ◌≡◌, Bool-cases, inl, inr, refl, true, false, List, [], ◌∷◌, Option, none, some, ℤ, pos,
  negsuc, arith, if◌then◌else◌, get_elem?,
}
use jacks.Memory.{Fault, Ptr, load, Outcome, ok, fault}
use jacks.Memory.Access.{IsAt}
use jacks.Libraries.{Libs}
use jacks.Exceptions.{clear_exception, check_exception}
use jacks.Api.Values.{StringList, get_string, string_at}
use jacks.Lua.Values.{string_list, Method, int_param}
use jacks.Lua.Act.{Run, ret, err, crash, ◌>>=◌}
use jacks.Lua.Machine.{Env}
use jacks.Lua.Functions.Values.{string_list_get}
use jacks.Python.Values.{
  PyLib, PyValue, py_none, integer, proxy, method, PyError, overflow_error, Process, is_int,
  is_long,
}
use jacks.Python.Convert.{as_pointer, as_val_int, as_val_long, converted, overflowed}
use jacks.Python.Checks.{
  parse_tuple, checked, arg_pointer, py_protect, from_char_ptr, from_text, from_decoded,
}
use jacks.Python.Wrappers.Buffers.{py_wrap_string_list_get}
use jacks.Python.Dispatch.{py_call}

module _ (Y : PyLib) where
  as_val_int-in : (z : ℤ) → is_int z ≡ true → as_val_int Y (integer z) ≡ converted z false
  unfolding as_val_int as_val_long
  as_val_int-in (pos n) h = ground (arith, h)
  as_val_int-in (negsuc n) h = ground (arith, h)

  as_val_int-over :
      (z : ℤ) → is_int z ≡ false → is_long z ≡ true → as_val_int Y (integer z) ≡ overflowed
  unfolding as_val_int as_val_long
  as_val_int-over (pos n) h k = ground (arith, h, k)
  as_val_int-over (negsuc n) h k = ground (arith, h, k)

  as_val_int-huge :
      (z : ℤ) → is_long z ≡ false → as_val_int Y (integer z) ≡ converted (negsuc 0) true
  unfolding as_val_int as_val_long
  as_val_int-huge (pos n) h = ground (arith, h)
  as_val_int-huge (negsuc n) h = ground (arith, h)

module _ (L : Libs) (Y : PyLib) where
  abbrev pub cleared : Process L → Process L
  cleared s = record s {
    machine = record (s.machine) { errors = clear_exception s.machine.errors };
  }

  -- A string for the script.
  abbrev pub decoded_run : Process L → Outcome (List ℕ) → Run PyError (Process L) (PyValue Y)
  decoded_run s (ok t) = from_decoded L Y (Y.decode t) s
  decoded_run s (fault e) = crash e

  -- The entry of an array at an index: past its ends there is none, and a NULL is None.
  abbrev pub entry_run : Process L → Option Ptr → Run PyError (Process L) (PyValue Y)
  entry_run s none = crash Fault.out_of_bounds
  entry_run s (some none) = ret py_none s
  entry_run s (some (some q)) = decoded_run s (load s.machine.texts (some q))

  abbrev pub item_run : StringList → ℤ → Process L → Run PyError (Process L) (PyValue Y)
  item_run l (pos n) s = entry_run s (get_elem? l.impl n)
  item_run l (negsuc n) s = crash Fault.out_of_bounds

  got_lem :
      (s : Process L) (p : ℕ) (l : StringList) (i : ℤ)
      → IsAt s.machine.lists (some p) l
      → (py_protect L Y (string_list_get L (some p) i) >>= from_char_ptr L Y) s
        ≡ item_run l i (cleared s)
  unfolding py_protect string_list_get get_string from_char_ptr from_text clear_exception
      check_exception
  got_lem s p l (negsuc n) h = rw h refl
  got_lem s p l (pos n) h = at_entry (get_elem? l.impl n) refl
    where
      Goal : Type 0
      Goal =
          (py_protect L Y (string_list_get L (some p) (pos n)) >>= from_char_ptr L Y) s
          ≡ item_run l (pos n) (cleared s)

      at_text :
          (q : ℕ) (o : Outcome (List ℕ))
          → get_elem? l.impl n ≡ some (some q)
          → load s.machine.texts (some q) ≡ o
          → Goal
      at_text q (ok t) e f = rw (h, string_at, e, f) refl
      at_text q (fault x) e f = rw (h, string_at, e, f) refl

      at_entry : (o : Option Ptr) → get_elem? l.impl n ≡ o → Goal
      at_entry none e = rw (h, string_at, e) refl
      at_entry (some none) e = rw (h, string_at, e) refl
      at_entry (some (some q)) e = at_text q (load s.machine.texts (some q)) e refl

module _ (L : Libs) (Y : PyLib) (E : Env L) where
  -- `list.get(i)` on a live list: an `i` of 32 bits gives the string in its place, and ends the
  -- process where the array has no such place; an `i` of at most 64 bits is refused by an
  -- OverflowError, which changes nothing; and an `i` beyond 64 bits is taken for -1, and so reads
  -- before the array.
  pub list_get_lem :
      (s : Process L) (p id : ℕ) (l : StringList) (i : ℤ)
      → IsAt s.machine.lists (some p) l
      → py_call L Y E Method.list_get (proxy string_list p id ∷ integer i ∷ []) s ≡ (
          if is_int i
          then item_run L Y l i (cleared L Y s)
          else if is_long i
          then err (overflow_error (method Method.list_get) 2 int_param) s
          else crash Fault.out_of_bounds)
  unfolding py_call py_wrap_string_list_get parse_tuple arg_pointer as_pointer checked
  list_get_lem s p id l i h = elim (Bool-cases (is_int i)) [
    | inl e ↦ rw (e, as_val_int-in Y i e) (got_lem L Y s p l i h)
    | inr e ↦ elim (Bool-cases (is_long i)) [
      | inl f ↦ rw (e, f, as_val_int-over Y i e f) refl
      | inr f ↦
          rw (e, f, as_val_int-huge Y i f)
            (got_lem L Y (record s { indicator = true }) p l (negsuc 0) h)
    ]
  ]
