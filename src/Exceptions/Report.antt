-- ===== src/Exceptions/Report.antt =====
-- JacksHelper.c: what a caller of `check_exception` reads after `throw_exception`.
use jacks.Prelude.{
  ℕ, zero, suc, ◌-◌, ◌^◌, ◌≤◌, ◌<◌, ◌≡◌, refl, sym, ap, ◌∙◌, ◌↔◌, ◌≢◌, List, [], ◌∷◌, ◌++◌,
  append-nil, Option, none, some, arith, dec_lt, length, get_elem?, take, drop, length-append,
  length-take, length-drop, take_all, drop_all,
}
use mathlib.Core.Option
use jacks.Exceptions.{
  Exceptions, message_size, copy_size, throw_exception, clear_exception, check_exception, c_string,
}

-- A C string holds no NUL.
abbrev pub IsText : List ℕ → Type 0
IsText [] = Unit {0}
IsText (b ∷ bs) = (b ≢ 0) × IsText bs

c_string-append :
    (t bs : List ℕ) → IsText t → c_string (t ++ bs) ≡ Option.map (λ r. t ++ r) (c_string bs)
c_string-append [] bs h = ground arith
c_string-append (zero ∷ t) bs h = absurd (h.0 refl)
c_string-append (suc b ∷ t) bs h = ground (arith, c_string-append t bs h.1)

-- No NUL among the bytes: a reader runs on.
c_string_text : (t : List ℕ) → IsText t → c_string t ≡ none
c_string_text [] h = refl
c_string_text (zero ∷ t) h = absurd (h.0 refl)
c_string_text (suc b ∷ t) h = rw (c_string_text t h.1)

take-IsText : (n : ℕ) (t : List ℕ) → IsText t → IsText (take n t)
take-IsText zero t h = tt
take-IsText (suc n) [] h = tt
take-IsText (suc n) (b ∷ t) h = (h.0, take-IsText n t h.1)

copy_size_short : (n : ℕ) → n < message_size → copy_size n ≡ n
unfolding copy_size
copy_size_short n h = ground arith

copy_size_long : (n : ℕ) → message_size ≤ n → n < 2 ^ 31 → copy_size n ≡ message_size
unfolding copy_size
copy_size_long n h k = ground arith

-- A message that fits is copied with no NUL behind it.
message-throw_short :
    (msg : List ℕ) (e : Exceptions)
    → length msg < message_size
    → (throw_exception msg e).error_message ≡ msg ++ drop (length msg) e.error_message
unfolding throw_exception
message-throw_short msg e h =
    let gap : length msg - length msg ≡ 0 = omega arith in
    rw (copy_size_short (length msg) h, take_all (length msg) msg (omega arith), gap)

message-throw_long :
    (msg : List ℕ) (e : Exceptions)
    → message_size ≤ length msg
    → length msg < 2 ^ 31
    → length e.error_message ≡ message_size
    → (throw_exception msg e).error_message ≡ take message_size msg
unfolding throw_exception
message-throw_long msg e h k full =
    let gap : message_size - length msg ≡ 0 = omega arith in
    rw (
      copy_size_long (length msg) h k,
      gap,
      drop_all message_size e.error_message (omega arith),
      append-nil,
    )

-- The string that a caller of `check_exception` reads, if any.
abbrev pub reported : Exceptions → Option (List ℕ)
reported e = elim (check_exception e) [ none ↦ none | some buffer ↦ c_string buffer ]

reported-throw :
    (msg : List ℕ) (e : Exceptions)
    → reported (throw_exception msg e) ≡ c_string (throw_exception msg e).error_message
unfolding throw_exception check_exception
reported-throw msg e = refl

-- After throwing a text shorter than the buffer, a reader gets that text followed by whatever
-- string the buffer already held behind it: the copy writes no terminator.
pub reported-throw_short :
    (msg : List ℕ) (e : Exceptions)
    → IsText msg
    → length msg < message_size
    → reported (throw_exception msg e)
      ≡ Option.map (λ rest. msg ++ rest) (c_string (drop (length msg) e.error_message))
reported-throw_short msg e text h =
    rw (reported-throw, message-throw_short msg e h)
      (c_string-append msg (drop (length msg) e.error_message) text)

c_string-drop_iff :
    (n : ℕ) (bs : List ℕ) → (c_string (drop n bs) ≡ some []) ↔ (get_elem? bs n ≡ some 0)
c_string-drop_iff zero [] = (λ h. cc, λ h. cc)
c_string-drop_iff zero (zero ∷ bs) = (λ h. refl, λ h. refl)
c_string-drop_iff zero (suc b ∷ bs) = (λ h. ground arith, λ h. ground arith)
c_string-drop_iff (suc n) [] = (λ h. cc, λ h. cc)
c_string-drop_iff (suc n) (b ∷ bs) = c_string-drop_iff n bs

append-eq_self : (xs ys : List ℕ) → xs ++ ys ≡ xs → ys ≡ []
append-eq_self [] ys h = h
append-eq_self (x ∷ xs) ys h = append-eq_self xs ys (ground arith)

map-append-eq_self :
    (msg : List ℕ) (o : Option (List ℕ))
    → (Option.map (λ rest. msg ++ rest) o ≡ some msg) ↔ (o ≡ some [])
map-append-eq_self msg none = (λ h. cc, λ h. cc)
map-append-eq_self msg (some r) =
    (λ h. ap some (append-eq_self msg r (ground arith)), λ h. ground (arith, append-nil msg))

-- So the message is reported exactly when the buffer happens to hold a NUL just behind it.
pub reported-throw_iff :
    (msg : List ℕ) (e : Exceptions)
    → IsText msg
    → length msg < message_size
    → (reported (throw_exception msg e) ≡ some msg)
      ↔ (get_elem? e.error_message (length msg) ≡ some 0)
reported-throw_iff msg e text h = (
  λ q.
      (c_string-drop_iff (length msg) e.error_message).0
        ((map-append-eq_self msg _).0 (sym (reported-throw_short msg e text h) ∙ q)),
  λ q.
      reported-throw_short msg e text h
      ∙ (map-append-eq_self msg _).1 ((c_string-drop_iff (length msg) e.error_message).1 q),
)

-- A message of 256 bytes or more fills the buffer, and a reader runs past its end.
reported-throw_long :
    (msg : List ℕ) (e : Exceptions)
    → IsText msg
    → message_size ≤ length msg
    → length msg < 2 ^ 31
    → length e.error_message ≡ message_size
    → reported (throw_exception msg e) ≡ none
reported-throw_long msg e text h k full =
    rw (reported-throw, message-throw_long msg e h k full)
      (c_string_text (take message_size msg) (take-IsText message_size msg text))

drop-append : (n : ℕ) (xs ys : List ℕ) → n ≤ length xs → drop n (xs ++ ys) ≡ drop n xs ++ ys
drop-append zero xs ys h = refl
drop-append (suc n) [] ys h = absurd (omega arith)
drop-append (suc n) (x ∷ xs) ys h = drop-append n xs ys (omega arith)

drop-IsText : (n : ℕ) (t : List ℕ) → IsText t → IsText (drop n t)
drop-IsText zero t h = h
drop-IsText (suc n) [] h = tt
drop-IsText (suc n) (b ∷ t) h = drop-IsText n t h.1

-- `clear_exception` keeps the buffer. So where a first message was reported as it was thrown, a
-- shorter second one, thrown after a clear, is reported with the rest of the first behind it.
reported-throw_stale :
    (first second : List ℕ) (e : Exceptions)
    → IsText first
    → IsText second
    → length first < message_size
    → length second < length first
    → reported (throw_exception first e) ≡ some first
    → reported (throw_exception second (clear_exception (throw_exception first e)))
      ≡ some (second ++ drop (length second) first)
unfolding clear_exception
reported-throw_stale first second e t1 t2 h1 h2 told =
    reported-throw_short second (clear_exception (throw_exception first e)) t2 (omega arith)
    ∙ rw
        (
          message-throw_short first e h1,
          drop-append (length second) first (drop (length first) e.error_message) (omega arith),
          c_string-append _ (drop (length first) e.error_message)
              (drop-IsText (length second) first t1),
          ends,
        )
        (ap (λ t. some (second ++ t)) (append-nil _))
  where
    ends : c_string (drop (length first) e.error_message) ≡ some []
    ends = (map-append-eq_self first _).0 (sym (reported-throw_short first e t1 h1) ∙ told)

-- Throwing and clearing keep the buffer's 256 bytes: no write leaves it.
length-throw :
    (msg : List ℕ) (e : Exceptions)
    → length msg < 2 ^ 31
    → length e.error_message ≡ message_size
    → length (throw_exception msg e).error_message ≡ message_size
length-throw msg e h full = elim (dec_lt (length msg) message_size) [
  | yes short ↦ rw (message-throw_short msg e short) (
      omega (
        arith,
        length-append msg (drop (length msg) e.error_message),
        length-drop (length msg) e.error_message,
      ))
  | no long ↦
      rw (message-throw_long msg e (omega arith) h full)
        (omega (arith, length-take message_size msg))
]
