-- ===== src/Python/Typing/Shapes.antt =====
-- modules/python3/Jacks_python3_wrap.c: the commonest parameters.
use jacks.Prelude.{refl, true, List, [], ◌∷◌}
use jacks.Libraries.{Libs}
use jacks.Memory.{Ptr}
use jacks.Lua.Values.{Class, Method, pointer, string_param}
use jacks.Lua.Act.{◌>>=◌, ◌>>◌}
use jacks.Python.Values.{PyLib, PyValue, method, Process}
use jacks.Python.Checks.{PyAct, parse_tuple, arg_pointer, with_text}
use jacks.Python.Signatures.{py_taken}
use jacks.Python.Typing.Outcomes.{PyChecked}
use jacks.Python.Typing.Fits.{py_taken_none, py_taken_one, py_taken_two}
use jacks.Python.Typing.Steps.{count_lem, pointer_lem}
use jacks.Python.Typing.Texts.{text_lem}

module _ (L : Libs) (Y : PyLib) (d : Method) where
  pub nothing_lem :
      (s : Process L) (args : List (PyValue Y)) (k : PyAct L Y (PyValue Y))
      → PyChecked L Y args s true (k s)
      → PyChecked L Y args s (py_taken Y [] args) ((parse_tuple (method d) 0 args >> k) s)
  nothing_lem s args k h =
      count_lem L Y args (method d) 0 [] s k refl (λ e. rw (py_taken_none Y args e) h)

  pub self_lem :
      (c : Class) (s : Process L) (args : List (PyValue Y)) (k : Ptr → PyAct L Y (PyValue Y))
      → ((p : Ptr) (n : Process L) → PyChecked L Y args n true (k p n))
      → PyChecked L Y args s
          (py_taken Y (pointer c ∷ []) args)
          ((do parse_tuple (method d) 1 args; p ← arg_pointer L Y (method d) 1 c args; k p) s)
  self_lem c s args k h =
      count_lem L Y args (method d) 1 (pointer c ∷ []) s _ refl
        (λ e. rw (py_taken_one Y (pointer c) args e) (pointer_lem L Y args (method d) 1 c _ s k h))

  pub self_text_lem :
      (c : Class) (s : Process L) (args : List (PyValue Y)) (k : Ptr → Ptr → PyAct L Y (PyValue Y))
      → ((p q : Ptr) (n : Process L) → PyChecked L Y args n true (k p q n))
      → PyChecked L Y args s (py_taken Y (pointer c ∷ string_param ∷ []) args) (
          (do
            parse_tuple (method d) 2 args
            p ← arg_pointer L Y (method d) 1 c args
            with_text L Y (method d) 2 args (k p))
            s)
  self_text_lem c s args k h =
      count_lem L Y args (method d) 2 (pointer c ∷ string_param ∷ []) s _ refl (λ e.
        rw (py_taken_two Y (pointer c) string_param args e) (
          pointer_lem L Y args (method d) 1 c _ s _
            (λ p n. text_lem L Y args (method d) 2 _ n (k p) (h p))))
