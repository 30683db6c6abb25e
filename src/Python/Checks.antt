-- ===== src/Python/Checks.antt =====
-- modules/python3/Jacks_python3_wrap.c: the parts that the wrappers are made of.
use jacks.Prelude.{
  ℕ, zero, suc, Bool, true, false, ◌||◌, List, [], ◌∷◌, Option, none, some, ℤ, ◌==◌, length,
}
use jacks.Memory.{Ptr, load, release}
use jacks.Libraries.{Libs}
use jacks.Exceptions.{clear_exception, check_exception}
use jacks.Lua.Values.{Class, Param, pointer, string_param, before_nul}
use jacks.Lua.Act.{
  Run, ret, err, crash, blocked, Act, pure, raise, read, modify, stored, fail_unless, ◌>>=◌, ◌>>◌,
}
use jacks.Lua.Machine.{Machine, into, new_text}
use jacks.Python.Values.{
  PyLib, PyValue, py_none, integer, str, proxy, Function, PyError, wrong_count, type_error,
  overflow_error, runtime_error, decode_error, Process, set_own, new_object,
}
use jacks.Python.Convert.{
  Converted, converted, mistyped, overflowed, broken, as_char_ptr, as_pointer,
}

module _ {Y : PyLib} where
  -- The argument at a place from 1 on, `obj0` and so on.
  abbrev pub obj : List (PyValue Y) → ℕ → PyValue Y
  obj [] i = py_none
  obj (v ∷ vs) zero = py_none
  obj (v ∷ vs) (suc zero) = v
  obj (v ∷ vs) (suc (suc i)) = obj vs (suc i)

  -- `SWIG_POINTER_DISOWN`
  abbrev pub disown : {L : Libs} → PyValue Y → Process L → Process L
  disown {L} (proxy c p id) s = set_own L id false s
  disown _ s = s

-- Whether an error leaves by `fail`.
abbrev pub fails : PyError → Bool
fails (runtime_error t) = false
fails _ = true

module _ {L : Libs} where
  -- `PyArg_ParseTuple` with a format of `O`s.
  unfoldable pub parse_tuple :
      {Y : PyLib} → Function → ℕ → List (PyValue Y) → Act PyError (Process L) (Unit {0})
  parse_tuple d n args = fail_unless (length args == n) (wrong_count d n (length args))

  -- `if (!SWIG_IsOK(ecode)) SWIG_exception_fail(SWIG_ArgError(ecode), …)`
  unfoldable pub checked :
      {A : Type 0} → Function → ℕ → Param → Converted A → Act PyError (Process L) A
  checked d i p (converted a set) s = ret a (record s { indicator = set || s.indicator })
  checked d i p mistyped s = err (type_error d i p) s
  checked d i p overflowed s = err (overflow_error d i p) s
  checked d i p (broken e) s = crash e

  -- The copy of a text that a wrapper makes, and frees at its end and at `fail`, but not where it
  -- returns with a C function's error.
  abbrev pub copy_of : Option (List ℕ) → Act PyError (Process L) Ptr
  copy_of none s = ret none s
  copy_of (some bytes) s =
      let (p, m) = new_text L (before_nul bytes) s.machine in ret p (record s { machine = m })

  unfoldable pub free_copy : Ptr → Act PyError (Process L) (Unit {0})
  free_copy p s = stored (
      into (release s.machine.texts p)
        (λ t. record s { machine = record (s.machine) { texts = t } }))

  abbrev pub freeing : {A : Type 0} → Ptr → Run PyError (Process L) A → Run PyError (Process L) A
  freeing p (ret a s) = (free_copy p >> pure a) s
  freeing p (err e s) = elim (fails e) [ true ↦ (free_copy p >> raise e) s | false ↦ err e s ]
  freeing p (crash e) = crash e
  freeing p (blocked s) = blocked s

  abbrev pub holding : {A : Type 0} → Ptr → Act PyError (Process L) A → Act PyError (Process L) A
  holding p k s = freeing p (k s)

module _ (L : Libs) (Y : PyLib) where
  abbrev pub PyAct : Type 0 → Type 0
  PyAct A = Act PyError (Process L) A

  -- `SWIG_ConvertPtr` of an argument.
  unfoldable pub arg_pointer : Function → ℕ → Class → List (PyValue Y) → PyAct Ptr
  unfolding as_pointer checked
  arg_pointer d i c args = checked d i (pointer c) (as_pointer Y (obj args i) c)

  -- The same with `SWIG_POINTER_DISOWN`.
  unfoldable pub arg_disowned : Function → ℕ → Class → List (PyValue Y) → PyAct Ptr
  unfolding arg_pointer
  arg_disowned d i c args = do p ← arg_pointer d i c args; modify (disown (obj args i)); pure p

  -- An argument that is a text, the wrapper's use of it, and the `free` that follows. Two copies are
  -- freed in the other order, which makes no difference.
  unfoldable pub with_text :
      Function → ℕ → List (PyValue Y) → (Ptr → PyAct (PyValue Y)) → PyAct (PyValue Y)
  unfolding checked as_char_ptr free_copy
  with_text d i args k = do
    bytes ← checked d i string_param (as_char_ptr Y (obj args i))
    p ← copy_of bytes
    holding p (k p)

  abbrev pub in_process : {A : Type 0} → Process L → Run ⊥ (Machine L) A → Run PyError (Process L) A
  in_process s (ret a m) = ret a (record s { machine = m })
  in_process s (err e m) = elim e [ ]
  in_process s (crash e) = crash e
  in_process s (blocked m) = blocked (record s { machine = m })

  abbrev pub runtime_if : Option (List ℕ) → PyAct (Unit {0})
  runtime_if none = pure tt
  runtime_if (some buffer) = raise (runtime_error buffer)

  -- `clear_exception()`, the call, and `if ((err = check_exception())) { … return NULL; }`.
  unfoldable pub py_protect : {A : Type 0} → Act ⊥ (Machine L) A → PyAct A
  py_protect call = do
    modify (λ s. record s {
      machine = record (s.machine) { errors = clear_exception s.machine.errors };
    })
    result ← λ s. in_process s (call s.machine)
    λ s. runtime_if (check_exception s.machine.errors) s
    pure result

  -- `SWIG_From_int` and its like.
  unfoldable pub from_int : ℤ → PyAct (PyValue Y)
  from_int z = pure (integer z)

  -- `SWIG_Python_NewPointerObj`: NULL becomes None.
  unfoldable pub from_pointer : Ptr → Class → Bool → PyAct (PyValue Y)
  from_pointer none c own s = ret py_none s
  from_pointer (some p) c own s = let (i, s') = new_object L own s in ret (proxy c p i) s'

  abbrev pub from_decoded : Option Y.Text → PyAct (PyValue Y)
  from_decoded none = raise decode_error
  from_decoded (some t) = pure (str t)

  -- `SWIG_FromCharPtr` of a string that is no NULL.
  unfoldable pub from_text : List ℕ → PyAct (PyValue Y)
  from_text t = from_decoded (Y.decode t)

  -- `SWIG_FromCharPtr`, of a text that is not kept in `texts`, or NULL.
  unfoldable pub from_copy : Option (List ℕ) → PyAct (PyValue Y)
  unfolding from_text
  from_copy none = pure py_none
  from_copy (some t) = from_text t

  -- `SWIG_FromCharPtr`: NULL becomes None.
  unfoldable pub from_char_ptr : Ptr → PyAct (PyValue Y)
  unfolding from_text
  from_char_ptr none = pure py_none
  from_char_ptr (some p) = do t ← read (λ s. load s.machine.texts (some p)); from_text t
