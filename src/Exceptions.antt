-- ===== src/Exceptions.antt =====
-- corelib/JacksHelper.c and corelib/JacksExceptions.h: the error that the SWIG wrappers raise.
pub mod Report
mod Tests
use jacks.Prelude.{
  ℕ, zero, suc, ◌+◌, ◌-◌, ◌%◌, ◌^◌, Bool, List, [], ◌∷◌, ◌++◌, Option, none, some, ltb, ◌==◌,
  if◌then◌else◌, length, take, drop, replicate,
}
use mathlib.Core.Option

-- `static char error_message[256]; static int error_status;`
pub record Exceptions : Type 0 where
  pub error_message : List ℕ
  pub error_status : ℕ

abbrev pub message_size : ℕ
message_size = 256

-- Static objects start as zeros.
abbrev pub initial : Exceptions
initial = record { error_message = replicate message_size 0; error_status = 0 }

-- libc `strncpy(dst, src, n)`: `src` (without its NUL) cut at `n` bytes, NULs up to `n` bytes where
-- it is shorter, and what `dst` held behind that. Bytes past the end of `dst` make the list longer.
abbrev pub strncpy : List ℕ → List ℕ → ℕ → List ℕ
strncpy dst src n = take n src ++ (replicate (n - length src) 0 ++ drop n dst)

-- `int len = strlen(msg)` and the argument `len < 256 ? len : 256` as a size_t: from 2^31 on `len`
-- is negative, and its conversion to size_t is huge.
pub copy_size : ℕ → ℕ
copy_size n =
    if ltb (n % 2 ^ 32) (2 ^ 31)
    then (if ltb (n % 2 ^ 32) message_size then n % 2 ^ 32 else message_size)
    else n % 2 ^ 32 + 2 ^ 64 - 2 ^ 32

-- `msg` holds the bytes before the NUL.
unfoldable pub throw_exception : List ℕ → Exceptions → Exceptions
unfolding copy_size
throw_exception msg e = record {
  error_message = strncpy e.error_message msg (copy_size (length msg));
  error_status = 1;
}

unfoldable pub clear_exception : Exceptions → Exceptions
clear_exception e = record e { error_status = 0 }

-- The array that the returned pointer points to, or `none` for NULL.
unfoldable pub check_exception : Exceptions → Option (List ℕ)
check_exception e = if e.error_status == 0 then none else some e.error_message

-- What a C reader finds at a pointer to the array: the bytes before the first NUL. `none`: there is
-- no NUL, and the reader runs past the end.
abbrev pub c_string : List ℕ → Option (List ℕ)
c_string [] = none
c_string (zero ∷ bs) = some []
c_string (suc b ∷ bs) = Option.map (λ t. suc b ∷ t) (c_string bs)
