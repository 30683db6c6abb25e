-- ===== src/Python/Samples.antt =====
-- A small Python, and the memory of a script with an event, a list and a buffer.
use jacks.Prelude.{ℕ, Bool, true, false, List, [], ◌∷◌, Option, none, some}
use jacks.Memory.{Store, empty, alloc}
use jacks.Samples.{libs}
use jacks.Api.Values.{StringList}
use jacks.Lua.Machine.{Machine, BufferBox}
use jacks.Lua.Samples.{machine, accepting}
use jacks.Python.Values.{PyLib, PyValue, Process}

-- A text is its UTF-8, or `none` where it has a lone surrogate; a float only tells whether it is too
-- large.
abbrev pub toy : PyLib
toy = record {
  Float = Bool;
  Text = Option (List ℕ);
  over_float = λ x. x;
  of_long = λ z. false;
  encode = λ t. t;
  decode = λ bytes. some (some bytes);
}

-- The list has room for one string and for the NULL that ends it.
abbrev pub names : StringList
names = record { impl = some 0 ∷ none ∷ []; len = 1 }

abbrev pub stock : Machine libs
stock =
    let lists : Store StringList = empty in
    let buffers : Store BufferBox = empty in
    record (machine accepting) {
      lists = (alloc lists (some names)).1;
      buffers = (alloc buffers (some (record { framebuf = none; len = 0 }))).1;
    }

-- Each object owns what it points to.
abbrev pub process : Process libs
process = record { machine = stock; owned = λ i. true; proxies = 9; indicator = false }

abbrev pub word : PyValue toy
word = PyValue.str (some (b'd' ∷ []))
