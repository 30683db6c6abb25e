-- ===== src/Api/Hex.antt =====
-- modules/Jacks.i: `JsPortBuffer`, and its dump as text.
use jacks.Prelude.{
  ℕ, zero, suc, ◌+◌, ◌*◌, ◌/◌, ◌%◌, ◌^◌, ◌≤◌, ◌<◌, ◌≡◌, refl, List, [], ◌∷◌, ◌++◌, Option, none,
  some, false, ltb, le→ltb, ◌==◌, if◌then◌else◌, arith, length, get_elem?, ◌-◌, drop, length-drop,
  length-append,
}
use jacks.Memory.{null_pointer, out_of_bounds, Outcome, ok, fault, ◌>>=◌}
use jacks.Exceptions.{Exceptions, throw_exception}

-- `JsPortBuffer`: the frame buffer of the port, and the number of bytes that were read into it.
pub record PortBuffer : Type 0 where
  pub framebuf : Option (List ℕ)
  pub len : ℕ

-- `JsPortBuffer::length`
unfoldable pub buffer_length : PortBuffer → ℕ
buffer_length b = b.len

-- `JsPortBuffer::getf`: one byte, a signed char, converted to a pointer.
unfoldable pub getf : PortBuffer → ℕ → Outcome ℕ
getf b i = elim b.framebuf [
  | none ↦ fault null_pointer
  | some block ↦ elim (get_elem? block i) [
    | none ↦ fault out_of_bounds
    | some c ↦ ok (if ltb c 128 then c else c + 2 ^ 64 - 2 ^ 8)
  ]
]

-- "unsupported opperation"
abbrev pub unsupported : List ℕ
unsupported =
    b'u' ∷ b'n' ∷ b's' ∷ b'u' ∷ b'p' ∷ b'p' ∷ b'o' ∷ b'r' ∷ b't' ∷ b'e' ∷ b'd' ∷ b' ' ∷ b'o' ∷ b'p'
    ∷ b'p' ∷ b'e' ∷ b'r' ∷ b'a' ∷ b't' ∷ b'i' ∷ b'o' ∷ b'n' ∷ []

-- `JsPortBuffer::setf` always throws.
unfoldable pub setf : PortBuffer → ℕ → Exceptions → PortBuffer × Exceptions
setf b i e = (b, throw_exception unsupported e)

-- The low half, as `%X` prints it, of the eight bytes of a `long` at a byte offset.
abbrev pub low_word : List ℕ → Outcome ℕ
low_word (a ∷ b ∷ c ∷ d ∷ _ ∷ _ ∷ _ ∷ _ ∷ _) =
    ok ((a + 2 ^ 8 * b + 2 ^ 16 * c + 2 ^ 24 * d) % 2 ^ 32)
low_word _ = fault out_of_bounds

abbrev pub digit : ℕ → ℕ
digit n = if ltb n 10 then n + 48 else n + 55

-- The `n` last hexadecimal digits of a number.
abbrev pub hex : ℕ → ℕ → List ℕ
hex zero w = []
hex (suc n) w = hex n (w / 16) ++ (digit (w % 16) ∷ [])

-- `sprintf(pos, "0x%8.8XL%c", word, sep)`, where a `sep` of 0 gives a space.
abbrev pub chunk : ℕ → ℕ → List ℕ
chunk w sep = b'0' ∷ b'x' ∷ (hex 8 w ++ (b'L' ∷ (if sep == 0 then b' ' else sep) ∷ []))

-- The loop of `toHexString` from round `i` on, with `k` rounds left, on a block of `size` bytes: each
-- round writes its characters and a NUL at `12 * i`.
unfoldable pub hex_from : List ℕ → ℕ → ℕ → ℕ → ℕ → ℕ → Outcome (List ℕ)
hex_from block start sep size zero i = ok []
hex_from block start sep size (suc k) i = do
  w ← low_word (drop (4 * (start + i)) block)
  rest ← hex_from block start sep size k (i + 1)
  if ltb size (12 * i + 13) then fault out_of_bounds else ok (chunk w sep ++ rest)

-- `JsPortBuffer::toHexString`: the characters before the NUL. A `len` of 0 writes nothing, so that
-- even the NUL is missing.
unfoldable pub to_hex_string : PortBuffer → ℕ → ℕ → ℕ → Outcome (List ℕ)
unfolding hex_from
to_hex_string b start n sep = elim b.framebuf [
  | none ↦ if n == 0 then fault out_of_bounds else fault null_pointer
  | some block ↦
      if n == 0 then fault out_of_bounds else hex_from block start sep ((12 * n + 1) % 2 ^ 32) n 0
]

low_word_long : (bs : List ℕ) → 8 ≤ length bs → (w : ℕ) × (low_word bs ≡ ok w)
low_word_long (a ∷ b ∷ c ∷ d ∷ e ∷ f ∷ g ∷ h ∷ bs) k = (_, refl)
low_word_long [] k = absurd (omega arith)
low_word_long (a ∷ []) k = absurd (omega arith)
low_word_long (a ∷ b ∷ []) k = absurd (omega arith)
low_word_long (a ∷ b ∷ c ∷ []) k = absurd (omega arith)
low_word_long (a ∷ b ∷ c ∷ d ∷ []) k = absurd (omega arith)
low_word_long (a ∷ b ∷ c ∷ d ∷ e ∷ []) k = absurd (omega arith)
low_word_long (a ∷ b ∷ c ∷ d ∷ e ∷ f ∷ []) k = absurd (omega arith)
low_word_long (a ∷ b ∷ c ∷ d ∷ e ∷ f ∷ g ∷ []) k = absurd (omega arith)

low_word_short : (bs : List ℕ) → length bs < 8 → low_word bs ≡ fault out_of_bounds
low_word_short (a ∷ b ∷ c ∷ d ∷ e ∷ f ∷ g ∷ h ∷ bs) k = absurd (omega arith)
low_word_short [] k = refl
low_word_short (a ∷ []) k = refl
low_word_short (a ∷ b ∷ []) k = refl
low_word_short (a ∷ b ∷ c ∷ []) k = refl
low_word_short (a ∷ b ∷ c ∷ d ∷ []) k = refl
low_word_short (a ∷ b ∷ c ∷ d ∷ e ∷ []) k = refl
low_word_short (a ∷ b ∷ c ∷ d ∷ e ∷ f ∷ []) k = refl
low_word_short (a ∷ b ∷ c ∷ d ∷ e ∷ f ∷ g ∷ []) k = refl

length-chunk : (w sep : ℕ) → length (chunk w sep) ≡ 12
length-chunk w sep = refl

hex_from_lem :
    (block : List ℕ) (start sep size k i : ℕ)
    → 4 * (start + i + k) + 4 ≤ length block
    → 12 * (i + k) + 1 ≤ size
    → (text : List ℕ) × (hex_from block start sep size k i ≡ ok text) × (length text ≡ 12 * k)
unfolding hex_from
hex_from_lem block start sep size zero i h room = ([], refl, omega arith)
hex_from_lem block start sep size (suc k) i h room =
    let (w, read) =
      low_word_long (drop (4 * (start + i)) block)
        (omega (arith, length-drop (4 * (start + i)) block)) in
    let (rest, done, long) =
      hex_from_lem block start sep size k (i + 1) (omega arith) (omega arith) in
    (
      chunk w sep ++ rest,
      rw (read, done, le→ltb size (12 * i + 13) (omega arith)),
      omega (arith, long, length-append (chunk w sep) rest, length-chunk w sep),
    )

-- With one sample more in the frame buffer than the samples asked for, the dump of one or more
-- samples stays inside the buffer and inside its own block, and has twelve characters a sample.
to_hex_string_fits :
    (block : List ℕ) (start n sep len : ℕ)
    → 0 < n
    → 12 * n + 1 < 2 ^ 32
    → 4 * (start + n) + 4 ≤ length block
    → (text : List ℕ) × (to_hex_string (record { framebuf = some block; len = len }) start n sep
        ≡ ok text)
      × (length text ≡ 12 * n)
unfolding to_hex_string
to_hex_string_fits block start n sep len some_n small room =
    let size : (12 * n + 1) % 2 ^ 32 ≡ 12 * n + 1 = omega arith in
    let (text, done, long) =
      hex_from_lem block start sep (12 * n + 1) n 0 (omega arith) (omega arith) in
    (text, ground (arith, size, done), long)

hex_from_over :
    (block : List ℕ) (start sep size k i : ℕ)
    → length block ≡ 4 * (start + i + suc k)
    → hex_from block start sep size (suc k) i ≡ fault out_of_bounds
unfolding hex_from
hex_from_over block start sep size zero i h = rw (
    low_word_short (drop (4 * (start + i)) block)
      (omega (arith, length-drop (4 * (start + i)) block)))
hex_from_over block start sep size (suc k) i h =
    let (w, read) =
      low_word_long (drop (4 * (start + i)) block)
        (omega (arith, length-drop (4 * (start + i)) block)) in
    rw (read, hex_from_over block start sep size k (i + 1) (omega arith))

-- A dump that ends with the last sample of the frame buffer reads past its end: the sample is read
-- as a `long`, which has eight bytes.
to_hex_string_over :
    (block : List ℕ) (start n sep len : ℕ)
    → 0 < n
    → length block ≡ 4 * (start + n)
    → to_hex_string (record { framebuf = some block; len = len }) start n sep ≡ fault out_of_bounds
unfolding to_hex_string
to_hex_string_over block start zero sep len some_n all = absurd (omega arith)
to_hex_string_over block start (suc n) sep len some_n all =
    let more : (suc n == 0) ≡ false = ground arith in
    rw more (hex_from_over block start sep ((12 * suc n + 1) % 2 ^ 32) n 0 (omega arith))
