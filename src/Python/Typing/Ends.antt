-- ===== src/Python/Typing/Ends.antt =====
-- modules/python3/Jacks_python3_wrap.c: what follows the conversions of a wrapper.
use jacks.Prelude.{Option, ℕ, ◌≡◌, refl, Bool, true, false, List, none, some}
use jacks.Libraries.{Libs}
use jacks.Memory.{load, ok, fault, Ptr}
use jacks.Exceptions.{clear_exception, check_exception}
use jacks.Lua.Values.{Class}
use jacks.Lua.Act.{Run, ret, err, crash, blocked, Act, bind_run, lift, ◌>>=◌}
use jacks.Lua.Machine.{Machine}
use jacks.Python.Values.{PyLib, PyValue, Process}
use jacks.Python.Checks.{
  PyAct, py_protect, in_process, runtime_if, from_pointer, from_text, from_copy, from_decoded,
  from_char_ptr,
}
use jacks.Python.Typing.Outcomes.{misuses, PyChecked, passed}

module _ (L : Libs) (Y : PyLib) where
  -- A C function and what is made of its result raises what was thrown, or that a text cannot be
  -- decoded.
  pub protect_lem :
      {A : Type 0} (args : List (PyValue Y)) (call : Act ⊥ (Machine L) A)
      (k : A → PyAct L Y (PyValue Y)) (s : Process L)
      → ((a : A) (n : Process L) → misuses L Y (k a n) ≡ false)
      → PyChecked L Y args s true ((py_protect L Y call >>= k) s)
  unfolding py_protect
  protect_lem {A = A} args call k s h =
      passed _ (at_end (call (record (s.machine) { errors = clear_exception s.machine.errors })))
    where
      at_end :
          (r : Run ⊥ (Machine L) A)
          → misuses L Y (
              bind_run
                (bind_run
                  (in_process L Y
                    (record s {
                      machine = record (s.machine) { errors = clear_exception s.machine.errors };
                    })
                    r)
                  (λ result n.
                    bind_run
                      (runtime_if L Y (check_exception n.machine.errors) n)
                      (λ x n'. ret result n')))
                k)
            ≡ false
      at_end (ret a m) =
          elim (check_exception m.errors)
            as (λ o.
              misuses L Y (
                bind_run (bind_run (runtime_if L Y o (record s { machine = m })) (λ x n'. ret a n'))
                  k)
              ≡ false) [ none ↦ h a (record s { machine = m }) | some t ↦ refl ]
      at_end (err e m) = elim e [ ]
      at_end (crash e) = refl
      at_end (blocked m) = refl

  pub from_pointer_lem :
      (p : Ptr) (c : Class) (own : Bool) (s : Process L)
      → misuses L Y (from_pointer L Y p c own s) ≡ false
  unfolding from_pointer
  from_pointer_lem none c own s = refl
  from_pointer_lem (some p) c own s = refl

  pub from_text_lem : (t : List ℕ) (s : Process L) → misuses L Y (from_text L Y t s) ≡ false
  unfolding from_text
  from_text_lem t s = elim (Y.decode t) as (λ o. misuses L Y (from_decoded L Y o s) ≡ false) [
    | none ↦ refl
    | some u ↦ refl
  ]

  pub from_copy_lem :
      (o : Option (List ℕ)) (s : Process L) → misuses L Y (from_copy L Y o s) ≡ false
  unfolding from_copy
  from_copy_lem none s = refl
  from_copy_lem (some t) s = from_text_lem t s

  pub from_char_ptr_lem : (p : Ptr) (s : Process L) → misuses L Y (from_char_ptr L Y p s) ≡ false
  unfolding from_char_ptr
  from_char_ptr_lem none s = refl
  from_char_ptr_lem (some p) s =
      elim (load s.machine.texts (some p))
        as (λ o. misuses L Y (bind_run (lift o s) (from_text L Y)) ≡ false) [
          | ok t ↦ from_text_lem t s
          | fault e ↦ refl
        ]
