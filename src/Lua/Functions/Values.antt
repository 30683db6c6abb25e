-- ===== src/Lua/Functions/Values.antt =====
-- modules/lua/Jacks_lua_wrap.c: `JsPortBuffer`, `JsLatencyRange` and `StringList`.
use jacks.Prelude.{ℕ, List, [], none, some, ℤ, pos, negsuc}
use jacks.Memory.{out_of_bounds, Outcome, ok, fault, Ptr, load, save, release, alloc}
use jacks.Libraries.{Libs}
use jacks.Api.Hex
use jacks.Api.Values
use jacks.Api.Values.{LatencyRange, StringList}
use jacks.Lua.Act.{Act, ret, pure, read, modify, update_with, ◌>>=◌, ◌>>◌}
use jacks.Lua.Machine.{Machine, into, buffer_at}

-- `get` takes an int: a negative index is before the array.
abbrev pub index_of : ℤ → Outcome ℕ
index_of (pos n) = ok n
index_of (negsuc n) = fault out_of_bounds

module _ (L : Libs) where
  unfoldable pub delete_js_port_buffer : Ptr → Act ⊥ (Machine L) (Unit {0})
  delete_js_port_buffer self =
      update_with (λ m. into (release m.buffers self) (λ s. record m { buffers = s }))

  unfoldable pub js_port_buffer_getf : Ptr → ℕ → Act ⊥ (Machine L) ℕ
  unfolding Hex.getf
  js_port_buffer_getf self i = do b ← read (λ m. buffer_at L m self); read (λ m. Hex.getf b i)

  unfoldable pub js_port_buffer_setf : Ptr → ℕ → Act ⊥ (Machine L) (Unit {0})
  js_port_buffer_setf self i =
      modify
        (λ m. record m { errors = (Hex.setf (record { framebuf = none; len = 0 }) i m.errors).1 })

  unfoldable pub js_port_buffer_length : Ptr → Act ⊥ (Machine L) ℕ
  js_port_buffer_length self = do b ← read (λ m. load m.buffers self); pure b.len

  unfoldable pub js_port_buffer_to_hex_string : Ptr → ℕ → ℕ → ℕ → Act ⊥ (Machine L) (List ℕ)
  js_port_buffer_to_hex_string self start len sep = do
    b ← read (λ m. buffer_at L m self)
    read (λ m. Hex.to_hex_string b start len sep)

  -- `calloc(1, sizeof(JsPortBuffer))`
  unfoldable pub calloc_js_port_buffer : Act ⊥ (Machine L) Ptr
  calloc_js_port_buffer m =
      let (p, s) = alloc m.buffers (some (record { framebuf = none; len = 0 })) in
      ret p (record m { buffers = s })

  unfoldable pub delete_js_latency_range : Ptr → Act ⊥ (Machine L) (Unit {0})
  delete_js_latency_range self =
      update_with (λ m. into (release m.ranges self) (λ s. record m { ranges = s }))

  unfoldable pub js_latency_range_min : Ptr → Act ⊥ (Machine L) ℤ
  js_latency_range_min self = do r ← read (λ m. load m.ranges self); pure r.rmin

  unfoldable pub js_latency_range_max : Ptr → Act ⊥ (Machine L) ℤ
  js_latency_range_max self = do r ← read (λ m. load m.ranges self); pure r.rmax

  unfoldable pub calloc_js_latency_range : Act ⊥ (Machine L) Ptr
  calloc_js_latency_range m =
      let (p, s) = alloc m.ranges (some (record { rmin = pos 0; rmax = pos 0 })) in
      ret p (record m { ranges = s })

  -- The array goes with its struct.
  unfoldable pub delete_string_list : Ptr → Act ⊥ (Machine L) (Unit {0})
  delete_string_list self = do
    l ← read (λ m. load m.lists self)
    update_with (λ m. into (release m.lists self) (λ s. record m { lists = s }))

  unfoldable pub string_list_get : Ptr → ℤ → Act ⊥ (Machine L) Ptr
  string_list_get self i = do
    l ← read (λ m. load m.lists self)
    n ← read (λ m. index_of i)
    read (λ m. Values.get_string l n)

  unfoldable pub string_list_length : Ptr → Act ⊥ (Machine L) ℕ
  string_list_length self = do
    l ← read (λ m. load m.lists self)
    got ← read (λ m. Values.list_length l)
    update_with (λ m. into (save m.lists self got.1) (λ s. record m { lists = s }))
    pure got.0

  -- The array of a new struct is NULL, which the model has as an empty one: nothing can be read.
  unfoldable pub calloc_string_list : Act ⊥ (Machine L) Ptr
  calloc_string_list m =
      let (p, s) = alloc m.lists (some (record { impl = []; len = 0 })) in
      ret p (record m { lists = s })
