-- ===== src/Api/Values.antt =====
-- modules/Jacks.i: latency ranges and lists of port names.
use jacks.Prelude.{
  ℕ, zero, suc, ◌+◌, ◌<◌, ◌≡◌, ◌≢◌, refl, ap, List, [], ◌∷◌, ◌++◌, none, some, ℤ, ◌==◌,
  if◌then◌else◌, arith, length, get_elem?,
}
use jacks.Memory.{out_of_bounds, Outcome, ok, fault, ◌>>=◌, Ptr}

-- `JsLatencyRange`
pub record LatencyRange : Type 0 where
  pub rmin : ℤ
  pub rmax : ℤ

-- `JsLatencyRange::min`, `JsLatencyRange::max`
unfoldable pub range_min : LatencyRange → ℤ
range_min r = r.rmin

unfoldable pub range_max : LatencyRange → ℤ
range_max r = r.rmax

-- `StringList`: the array that `jack_get_ports` gave, and the cached number of its strings.
pub record StringList : Type 0 where
  pub impl : List Ptr
  pub len : ℕ

-- `impl[i]`
abbrev pub string_at : List Ptr → ℕ → Outcome Ptr
string_at xs i = elim (get_elem? xs i) [ none ↦ fault out_of_bounds | some p ↦ ok p ]

-- `StringList::get`
unfoldable pub get_string : StringList → ℕ → Outcome Ptr
get_string l i = string_at l.impl i

-- The loop of `StringList::length`, from index `i` on.
abbrev pub count_from : List Ptr → ℕ → Outcome ℕ
count_from [] i = fault out_of_bounds
count_from (none ∷ xs) i = ok i
count_from (some p ∷ xs) i = count_from xs (i + 1)

-- `StringList::length`: the result, and the list with its cache.
unfoldable pub list_length : StringList → Outcome (ℕ × StringList)
list_length l =
    if l.len == 0
    then (count_from l.impl 0 >>= λ n. ok (n, record l { len = n }))
    else ok (l.len, l)

-- No string of the list is NULL.
abbrev pub AllStrings : List Ptr → Type 0
AllStrings [] = Unit {0}
AllStrings (p ∷ ps) = (p ≢ none) × AllStrings ps

count_from_lem :
    (names rest : List Ptr) (i : ℕ)
    → AllStrings names
    → count_from (names ++ (none ∷ rest)) i ≡ ok (i + length names)
count_from_lem [] rest i h = ap ok (omega arith)
count_from_lem (none ∷ names) rest i h = absurd (h.0 refl)
count_from_lem (some p ∷ names) rest i h =
    let shift : i + 1 + length names ≡ i + suc (length names) = omega arith in
    rw (count_from_lem names rest (i + 1) h.1, shift)

string_at_lem :
    (names rest : List Ptr) (i : ℕ)
    → i < length names
    → string_at (names ++ rest) i ≡ string_at names i
string_at_lem [] rest i h = absurd (omega arith)
string_at_lem (p ∷ names) rest zero h = refl
string_at_lem (p ∷ names) rest (suc i) h = string_at_lem names rest i (omega arith)

present :
    (names : List Ptr) (i : ℕ) → i < length names → AllStrings names → string_at names i ≢ ok none
present [] i h v = absurd (omega arith)
present (none ∷ names) zero h v = absurd (v.0 refl)
present (some p ∷ names) zero h v = λ e. cc
present (p ∷ names) (suc i) h v = present names i (omega arith) v.1

-- A new list over an array that NULL ends: the length is the number of strings before the NULL, a
-- second call gives the same from the cache and changes nothing, and an index below the length gives
-- the string in its place, which is not NULL.
pub list_length_lem :
    (names rest : List Ptr)
    → AllStrings names
    → (i : ℕ) → i < length names
    → let l : StringList = record { impl = names ++ (none ∷ rest); len = 0 } in
      let l' : StringList = record { impl = names ++ (none ∷ rest); len = length names } in
      (list_length l ≡ ok (length names, l'))
      × (list_length l' ≡ ok (length names, l'))
      × (get_string l' i ≢ ok none)
      × (get_string l' i ≡ string_at names i)
unfolding list_length get_string
list_length_lem names rest h i below = (
  rw (count_from_lem names rest 0 h, zeroed),
  again names h,
  λ e. present names i below h (rw⁻¹ (string_at_lem names (none ∷ rest) i below) e),
  string_at_lem names (none ∷ rest) i below,
)
  where
    zeroed : 0 + length names ≡ length names
    zeroed = omega arith

    again :
        (ns : List Ptr)
        → AllStrings ns
        → list_length (record { impl = ns ++ (none ∷ rest); len = length ns })
          ≡ ok (length ns, record { impl = ns ++ (none ∷ rest); len = length ns })
    again [] v = refl
    again (p ∷ ns) v = ground arith
