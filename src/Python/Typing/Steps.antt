-- ===== src/Python/Typing/Steps.antt =====
-- modules/python3/Jacks_python3_wrap.c: one conversion of a wrapper, and what it means for the argument.
use jacks.Prelude.{
  ℕ, ◌≡◌, Bool-cases, inl, inr, refl, Bool, true, false, ◌&&◌, List, length, arith, ◌==◌,
}
use jacks.Libraries.{Libs}
use jacks.Memory.{Ptr, Store}
use jacks.Lua.Values.{Class, Param, pointer}
use jacks.Lua.Act.{Run, err, ◌>>=◌, ◌>>◌}
use jacks.Python.Values.{PyLib, PyValue, Function, PyError, Process}
use jacks.Python.Convert.{Converted, converted, mistyped, overflowed, broken, as_pointer}
use jacks.Python.Checks.{obj, parse_tuple, checked, arg_pointer, PyAct}
use jacks.Python.Signatures.{py_takes, py_taken, accepts_object}
use jacks.Python.Agreement.Outcomes.{is_misuse}
use jacks.Python.Typing.Outcomes.{KeepsTexts, PyChecked, misused, passed, unencoded}
use jacks.Python.Typing.Fits.{py_taken-length}

-- What a conversion says of the argument.
pub data Verdict : Type 0 where
  fit unfit ending : Verdict

abbrev pub verdict : {A : Type 0} → Converted A → Verdict
verdict (converted a i) = fit
verdict mistyped = unfit
verdict overflowed = unfit
verdict (broken e) = ending

abbrev pub fit_if : Bool → Verdict
fit_if true = fit
fit_if false = unfit

pub keeps_all : (a : Store (List ℕ)) → KeepsTexts a a
keeps_all a = record {
  grows = omega arith;
  old = λ p h. refl;
  freed = λ p h k. ground (arith, h, k);
  unused = λ p h. refl;
}

module _ (L : Libs) (Y : PyLib) (args : List (PyValue Y)) where
  pub misuse_lem :
      (s : Process L) (b : Bool) (e : PyError)
      → is_misuse e ≡ true
      → b ≡ false
      → PyChecked L Y args s b (err e s)
  misuse_lem s b e h f = rw f (misused e s.machine.texts s.indicator h (keeps_all s.machine.texts))

  pub reindicated :
      (s : Process L) (j b : Bool) (r : Run PyError (Process L) (PyValue Y))
      → PyChecked L Y args (record s { indicator = j }) b r
      → PyChecked L Y args s b r
  reindicated s j _ _ (misused e t i h k) = misused e t i h k
  reindicated s j _ _ (passed r h) = passed r h
  reindicated s j _ _ (unencoded b i t h k) = unencoded b i t h k

  pub checked_lem :
      {A : Type 0} (d : Function) (i : ℕ) (p : Param) (c : Converted A) (x b : Bool) (s : Process L)
      (k : A → PyAct L Y (PyValue Y))
      → verdict c ≡ fit_if x
      → ((a : A) (n : Process L) → PyChecked L Y args n b (k a n))
      → PyChecked L Y args s (x && b) ((checked d i p c >>= k) s)
  unfolding checked
  checked_lem d i p (converted a j) true b s k h f = reindicated s _ _ _ (f a _)
  checked_lem d i p (converted a j) false b s k h f = ground arith
  checked_lem d i p mistyped true b s k h f = ground arith
  checked_lem d i p mistyped false b s k h f = misuse_lem s _ _ refl refl
  checked_lem d i p overflowed true b s k h f = ground arith
  checked_lem d i p overflowed false b s k h f = misuse_lem s _ _ refl refl
  checked_lem d i p (broken e) true b s k h f = ground arith
  checked_lem d i p (broken e) false b s k h f = ground arith

  pub count_lem :
      (d : Function) (n : ℕ) (ps : List Param) (s : Process L) (k : PyAct L Y (PyValue Y))
      → length ps ≡ n
      → (length args ≡ n → PyChecked L Y args s (py_taken Y ps args) (k s))
      → PyChecked L Y args s (py_taken Y ps args) ((parse_tuple d n args >> k) s)
  unfolding parse_tuple
  count_lem d n ps s k e g = elim (Bool-cases (length args == n)) [
    | inl t ↦ rw t (g (ground (arith, t)))
    | inr t ↦ rw t (misuse_lem s _ _ refl (not_fits (λ f. ground (arith, f, e, t))))
  ]
    where
      not_fits : ¬ (length args ≡ length ps) → py_taken Y ps args ≡ false
      not_fits h = elim (Bool-cases (py_taken Y ps args)) [
        | inl e ↦ elim (h (py_taken-length Y ps args e)) [ ]
        | inr e ↦ e
      ]

  pub pointer_lem :
      (d : Function) (i : ℕ) (c : Class) (b : Bool) (s : Process L)
      (k : Ptr → PyAct L Y (PyValue Y))
      → ((a : Ptr) (n : Process L) → PyChecked L Y args n b (k a n))
      → PyChecked L Y args s
          (py_takes Y (pointer c) (obj args i) && b)
          ((arg_pointer L Y d i c args >>= k) s)
  unfolding arg_pointer as_pointer
  pointer_lem d i c b s k f =
      checked_lem d i (pointer c) _ _ b s k (verdict-as_pointer (obj args i)) f
    where
      verdict-as_pointer :
          (v : PyValue Y) → verdict (as_pointer Y v c) ≡ fit_if (accepts_object Y c v)
      verdict-as_pointer v = ground arith
