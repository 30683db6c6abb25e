-- ===== src/Python/Typing/Outcomes.antt =====
-- modules/python3/Jacks_python3_wrap.c: the ways a call can go, by its arguments.
use jacks.Prelude.{ℕ, ◌≡◌, ◌≤◌, ◌<◌, Bool, true, false, List, none}
use jacks.Memory.{Store, null_pointer}
use jacks.Libraries.{Libs}
use jacks.Lua.Act.{Run, err, crash}
use jacks.Python.Values.{PyLib, PyValue, str, PyError, Process}
use jacks.Python.Checks.{obj}
use jacks.Python.Agreement.Outcomes.{is_misuse}

-- The strings of before are as they were, and those that were made since are freed.
pub record KeepsTexts (a b : Store (List ℕ)) : Type 0 where
  pub grows : a.fresh ≤ b.fresh
  pub old : (p : ℕ) → p < a.fresh → b.cell p ≡ a.cell p
  pub freed : (p : ℕ) → a.fresh ≤ p → p < b.fresh → b.cell p ≡ none
  pub unused : (p : ℕ) → b.fresh ≤ p → b.cell p ≡ a.cell p

module _ (L : Libs) (Y : PyLib) where
  abbrev pub misuses : Run PyError (Process L) (PyValue Y) → Bool
  misuses (err e s) = is_misuse e
  misuses _ = false

  -- The state `s` with other strings and another indicator.
  abbrev pub with_texts : Process L → Store (List ℕ) → Bool → Process L
  with_texts s t i = record s { machine = record (s.machine) { texts = t }; indicator = i }

  -- A call is refused, and has kept the strings, and all else but the indicator; or it goes on; or
  -- one of its arguments is a text that has no UTF-8, and the process ends.
  pub data PyChecked (args : List (PyValue Y)) (s : Process L)
      : Bool → Run PyError (Process L) (PyValue Y) → Type 0 where
    misused :
        (e : PyError) (t : Store (List ℕ)) (i : Bool)
        → is_misuse e ≡ true
        → KeepsTexts s.machine.texts t
        → PyChecked args s false (err e (with_texts s t i))
    passed : (r : Run PyError (Process L) (PyValue Y)) → misuses r ≡ false → PyChecked args s true r
    unencoded :
        (b : Bool) (i : ℕ) (t : Y.Text)
        → obj args i ≡ str t
        → Y.encode t ≡ none
        → PyChecked args s b (crash null_pointer)
