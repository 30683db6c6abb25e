-- ===== src/Python/Typing/Texts.antt =====
-- modules/python3/Jacks_python3_wrap.c: the copies of texts, and what follows the conversions.
use jacks.Prelude.{ℕ, ◌≡◌, refl, Bool, true, false, ◌&&◌, List, Option, none, some, arith}
use jacks.Libraries.{Libs}
use jacks.Memory.{Ptr, Store, Fault, ok, fault, alloc, release, update}
use jacks.Memory.Access.{update_self}
use jacks.Lua.Values.{string_param, before_nul}
use jacks.Lua.Act.{Run, ret, err, crash, blocked, bind_run, stored, ◌>>=◌, ◌>>◌}
use jacks.Lua.Machine.{into}
use jacks.Python.Values.{
  PyLib, PyValue, py_none, integer, float, str, proxy, other, Function, PyError, Process,
}
use jacks.Python.Convert.{converted, broken, as_char_ptr}
use jacks.Python.Checks.{
  obj, checked, PyAct, with_text, holding, freeing, fails, free_copy, copy_of,
}
use jacks.Python.Signatures.{py_takes}
use jacks.Python.Agreement.Outcomes.{is_misuse}
use jacks.Python.Typing.Outcomes.{KeepsTexts, misuses, PyChecked, misused, passed, unencoded}
use jacks.Python.Typing.Steps.{misuse_lem}

misuse-fails : (e : PyError) → is_misuse e ≡ true → fails e ≡ true
misuse-fails e h = ground arith

-- A copy that is made and freed, with copies made and freed in between.
keeps_more :
    (a t : Store (List ℕ)) (x : List ℕ)
    → KeepsTexts (alloc a (some x)).1 t
    → KeepsTexts a (record t { cell = update t.cell a.fresh none })
keeps_more a t x h = record {
  grows = ground (arith, h.grows);
  old = λ p e. ground (arith, h.grows, h.old p, e);
  freed = λ p e f. ground (arith, h.grows, h.freed p, e, f);
  unused = λ p e. ground (arith, h.grows, h.unused p, e);
}

module _ (L : Libs) (Y : PyLib) (args : List (PyValue Y)) where
  after_free :
      (p : Ptr) (k : PyAct L Y (PyValue Y)) (s : Process L)
      → ((n : Process L) → misuses L Y (k n) ≡ false)
      → misuses L Y ((free_copy p >> k) s) ≡ false
  unfolding free_copy
  after_free p k s h =
      elim (release s.machine.texts p)
        as (λ o.
          misuses L Y (
            bind_run
              (stored (into o (λ t. record s { machine = record (s.machine) { texts = t } })))
              (λ x. k))
          ≡ false) [ ok t ↦ h _ | fault e ↦ refl ]

  misuses-freeing :
      (p : Ptr) (r : Run PyError (Process L) (PyValue Y))
      → misuses L Y r ≡ false
      → misuses L Y (freeing p r) ≡ false
  misuses-freeing p (ret a s) h = after_free p _ s (λ n. refl)
  misuses-freeing p (err (PyError.wrong_count d n k) s) h = ground arith
  misuses-freeing p (err (PyError.type_error d i q) s) h = ground arith
  misuses-freeing p (err (PyError.overflow_error d i q) s) h = ground arith
  misuses-freeing p (err (PyError.runtime_error t) s) h = refl
  misuses-freeing p (err PyError.decode_error s) h = after_free p _ s (λ n. refl)
  misuses-freeing p (crash e) h = refl
  misuses-freeing p (blocked s) h = refl

  -- Where no copy was made, nothing is freed.
  no_copy :
      (s : Process L) (b : Bool) (r : Run PyError (Process L) (PyValue Y))
      → PyChecked L Y args s b r
      → PyChecked L Y args s b (freeing none r)
  unfolding free_copy release
  no_copy s _ _ (misused e t i h k) = rw (misuse-fails e h, freeing) (misused e t i h k)
  no_copy s _ _ (passed r h) = passed _ (misuses-freeing none r h)
  no_copy s _ _ (unencoded b i t h k) = unencoded b i t h k

  one_copy :
      (s : Process L) (x : List ℕ) (b : Bool) (r : Run PyError (Process L) (PyValue Y))
      → PyChecked L Y args
          (record s { machine = record (s.machine) { texts = (alloc s.machine.texts (some x)).1 } })
          b
          r
      → PyChecked L Y args s b (freeing (some s.machine.texts.fresh) r)
  unfolding free_copy release
  one_copy s x _ _ (misused e t i h k) =
      rw
        (
          misuse-fails e h,
          freeing,
          k.old s.machine.texts.fresh (omega arith),
          update_self s.machine.texts.cell s.machine.texts.fresh (some x),
        )
        (misused e _ i h (keeps_more s.machine.texts t x k))
  one_copy s x _ _ (passed r h) = passed _ (misuses-freeing (some s.machine.texts.fresh) r h)
  one_copy s x _ _ (unencoded b i t h k) = unencoded b i t h k

  pub text_lem :
      (d : Function) (i : ℕ) (b : Bool) (s : Process L) (k : Ptr → PyAct L Y (PyValue Y))
      → ((p : Ptr) (n : Process L) → PyChecked L Y args n b (k p n))
      → PyChecked L Y args s
          (py_takes Y string_param (obj args i) && b)
          (with_text L Y d i args k s)
  unfolding with_text checked as_char_ptr
  text_lem d i b s k f = at_value (obj args i) refl
    where
      at_text :
          (t : Y.Text)
          → obj args i ≡ str t
          → (o : Option (List ℕ)) → Y.encode t ≡ o
          → PyChecked L Y args s b (
              bind_run
                (checked d i string_param
                  (elim o [
                    | none ↦ broken Fault.null_pointer
                    | some bytes ↦ converted (some bytes) false
                  ])
                  s)
                (λ bytes. copy_of bytes >>= λ p. holding p (k p)))
      at_text t e none h = unencoded b i t e h
      at_text t e (some bytes) h =
          one_copy s (before_nul bytes) b _ (f (some s.machine.texts.fresh) _)

      at_value :
          (v : PyValue Y)
          → obj args i ≡ v
          → PyChecked L Y args s (py_takes Y string_param v && b) (
              bind_run
                (checked d i string_param (as_char_ptr Y v) s)
                (λ bytes. copy_of bytes >>= λ p. holding p (k p)))
      at_value py_none e = no_copy s b _ (f none s)
      at_value (str t) e = at_text t e (Y.encode t) refl
      at_value (integer z) e = misuse_lem L Y args s _ _ refl refl
      at_value (float x) e = misuse_lem L Y args s _ _ refl refl
      at_value (proxy c p id) e = misuse_lem L Y args s _ _ refl refl
      at_value other e = misuse_lem L Y args s _ _ refl refl
