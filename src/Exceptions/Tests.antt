-- ===== src/Exceptions/Tests.antt =====
-- JacksHelper.c on concrete messages.
use jacks.Prelude.{ℕ, ◌≡◌, refl, ◌↔◌, List, [], ◌∷◌, some, none, arith, get_elem?}
use jacks.Exceptions.{initial, throw_exception, check_exception, copy_size}
use jacks.Exceptions.Report.{reported, reported-throw_iff}

-- "can", then "no"
abbrev can : List ℕ
can = b'c' ∷ b'a' ∷ b'n' ∷ []

abbrev nope : List ℕ
nope = b'n' ∷ b'o' ∷ []

nothing_thrown : check_exception initial ≡ none
unfolding check_exception
nothing_thrown = refl

told_can : reported (throw_exception can initial) ≡ some can
unfolding throw_exception check_exception copy_size
told_can = refl

reported-throw_iff_example :
    (reported (throw_exception can initial) ≡ some can)
    ↔ (get_elem? initial.error_message 3 ≡ some 0)
reported-throw_iff_example = reported-throw_iff can initial (omega arith) (omega arith)
