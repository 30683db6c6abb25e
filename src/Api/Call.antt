-- ===== src/Api/Call.antt =====
-- modules/jack_exceptions.h: what stands around every wrapped call.
use jacks.Prelude.{List, ℕ, Option, none, some}
use jacks.Memory.{Outcome, ok, ◌>>=◌}
use jacks.Exceptions.{Exceptions, clear_exception, check_exception}

-- What the script sees: a result, or an error with the buffer of its message.
pub data Reply {ℓ} (A : Type ℓ) : Type ℓ where
  returned : A → Reply A
  raised : List ℕ → Reply A

abbrev pub reply {ℓ} : {A : Type ℓ} → A → Option (List ℕ) → Reply A
reply a none = returned a
reply a (some err) = raised err

-- `%exception`: `$action` may change the exception state and gives a result.
unfoldable pub wrapped {ℓ} :
    {A : Type ℓ}
    → (Exceptions → Outcome (A × Exceptions))
    → Exceptions
    → Outcome (Reply A × Exceptions)
wrapped action e = do
  done ← action (clear_exception e)
  ok (reply done.0 (check_exception done.1), done.1)
