-- ===== src/Lua/Names.antt =====
-- modules/lua/Jacks_lua_wrap.c: the list of port names that a script gets.
use jacks.Prelude.{
  ℕ, zero, suc, ◌<◌, ◌≡◌, refl, ◌∙◌, ap, Bool, false, List, [], ◌∷◌, ◌++◌, none, some, pos, length,
  get_elem?, arith,
}
use jacks.Memory.{Ptr, Store, alloc, load, ok}
use jacks.Memory.Access.{
  IsAt, IsFresh, alloc-IsFresh, load-alloc, load-alloc_self, saved, save_lem, load-saved,
}
use jacks.Libraries.{Libs}
use jacks.Exceptions.{clear_exception, check_exception}
use jacks.Client.State.{Client}
use jacks.Api.Values.{StringList, AllStrings, get_string, list_length, list_length_lem, string_at}
use jacks.Lua.Values.{
  LuaLib, number, text, userdata, string_list, client, Method, swig_convert_ptr, before_nul,
}
use jacks.Lua.Act.{ret}
use jacks.Lua.Machine.{Machine, Env, ClientBox, jack, new_text, new_texts}
use jacks.Lua.Functions.Values.{string_list_get, string_list_length}
use jacks.Lua.Functions.Clients.{
  client_of, hold_names, js_client_get_port_names, js_client_get_port_names_by_type,
}
use jacks.Lua.Wrappers.Buffers.{wrap_string_list_get, wrap_string_list_length}
use jacks.Lua.Wrappers.Clients.{wrap_js_client_get_port_names}
use jacks.Lua.Checks.{
  check_num_args, check_ptr_type, check_number, check_string, convert_ptr, arg_string, protect,
  rethrow, push_string,
}
use jacks.Lua.Dispatch.{call}

-- Each pointer is to the text in its place.
abbrev Spelled : Store (List ℕ) → List Ptr → List (List ℕ) → Type 0
Spelled s [] [] = Unit {0}
Spelled s (p ∷ ps) (t ∷ ts) = IsAt s p t × Spelled s ps ts
Spelled s _ _ = ⊥

Spelled-length :
    (s : Store (List ℕ)) (ps : List Ptr) (ts : List (List ℕ))
    → Spelled s ps ts
    → length ps ≡ length ts
Spelled-length s [] [] h = refl
Spelled-length s [] (t ∷ ts) h = absurd h
Spelled-length s (p ∷ ps) [] h = absurd h
Spelled-length s (p ∷ ps) (t ∷ ts) h = ap suc (Spelled-length s ps ts h.1)

Spelled-IsAt :
    (s : Store (List ℕ)) (ps : List Ptr) (ts : List (List ℕ)) (i : ℕ) (t : List ℕ)
    → Spelled s ps ts
    → get_elem? ts i ≡ some t
    → (a : ℕ) × (string_at ps i ≡ ok (some a)) × IsAt s (some a) t
Spelled-IsAt s [] [] i t h e = cc
Spelled-IsAt s [] (u ∷ ts) i t h e = absurd h
Spelled-IsAt s (p ∷ ps) [] i t h e = absurd h
Spelled-IsAt s (none ∷ ps) (u ∷ ts) zero t h e = cc
Spelled-IsAt s (some a ∷ ps) (u ∷ ts) zero t h e =
    (a, refl, (let k : load s (some a) ≡ ok u = h.0 in cc))
Spelled-IsAt s (p ∷ ps) (u ∷ ts) (suc i) t h e = Spelled-IsAt s ps ts i t h.1 e

in_bounds : (ts : List (List ℕ)) (i : ℕ) (t : List ℕ) → get_elem? ts i ≡ some t → i < length ts
in_bounds [] i t e = cc
in_bounds (u ∷ ts) zero t e = omega arith
in_bounds (u ∷ ts) (suc i) t e = omega (arith, in_bounds ts i t e)

module _ (L : Libs) where
  -- What the array of JACK's names becomes.
  abbrev IsArray : List (List ℕ) → Machine L → Type 0
  IsArray ts m =
      (ps : List Ptr) × (s : Store (List ℕ)) × (new_texts L ts m
        ≡ (ps ++ (none ∷ []), record m { texts = s }))
      × Spelled s ps ts
      × AllStrings ps
      × ((q : Ptr) (u : List ℕ) → IsAt m.texts q u → IsAt s q u)

  new_texts_lem : (ts : List (List ℕ)) (m : Machine L) → IsFresh m.texts → IsArray ts m
  unfolding new_texts
  new_texts_lem [] m f = ([], m.texts, refl, tt, tt, λ q u h. h)
  new_texts_lem (t ∷ ts) m f =
      let (ps, s, e, sp, all, kept) =
        new_texts_lem ts (new_text L t m).1 (alloc-IsFresh m.texts t f) in
      (
        some m.texts.fresh ∷ ps,
        s,
        rw e refl,
        (kept (some m.texts.fresh) t (load-alloc_self m.texts t), sp),
        ((λ h. cc), all),
        λ q u h. kept q u (load-alloc m.texts t u q f h),
      )

module _ (L : Libs) (Q : LuaLib) (E : Env L) where
  -- The memory with the pattern in it, and then with the script's list.
  abbrev asked : List ℕ → Machine L → Machine L
  asked t m = record ((new_text L t m).1) { errors = clear_exception m.errors }

  abbrev listed : Machine L → Store (List ℕ) → StringList → Machine L
  listed m s l = record m { texts = s; lists = (alloc m.lists (some l)).1 }

  listed_lem :
      (m : Machine L) (p : ℕ) (own : Bool) (box : ClientBox) (c : Client L) (pattern : List ℕ)
      (names : List (List ℕ)) (ps : List Ptr) (s : Store (List ℕ))
      → IsAt m.boxes (some p) box
      → IsAt m.clients box.impl c
      → E.get_ports (jack L m) c.client (some (before_nul pattern)) none (pos 0) ≡ some names
      → new_texts L names (asked (before_nul pattern) m)
        ≡ (ps, record (asked (before_nul pattern) m) { texts = s })
      → call L Q E Method.get_port_names (userdata client p own ∷ text pattern ∷ []) m
        ≡ ret
            (userdata string_list m.lists.fresh false ∷ [])
            (listed (asked (before_nul pattern) m) s (record { impl = ps; len = 0 }))
  unfolding call wrap_js_client_get_port_names js_client_get_port_names
      js_client_get_port_names_by_type client_of hold_names check_num_args check_ptr_type
      check_string convert_ptr swig_convert_ptr arg_string protect rethrow clear_exception
      check_exception
  listed_lem m p own box c pattern names ps s h1 h2 h3 e =
      rw (h1, h2, load-alloc_self m.texts (before_nul pattern), h3, e) refl

  counted_lem :
      (m : Machine L) (q : ℕ) (own : Bool) (l l' : StringList) (k : ℕ)
      → IsAt m.lists (some q) l
      → list_length l ≡ ok (k, l')
      → call L Q E Method.list_length (userdata string_list q own ∷ []) m
        ≡ ret
            (number (Q.of_int (pos k)) ∷ [])
            (record m { lists = saved m.lists (some q) l'; errors = clear_exception m.errors })
  unfolding call wrap_string_list_length string_list_length check_num_args check_ptr_type
      convert_ptr swig_convert_ptr protect rethrow clear_exception check_exception
  counted_lem m q own l l' k h e = rw (h, e, save_lem m.lists (some q) l l' h) refl

  fetched_lem :
      (m : Machine L) (q : ℕ) (own : Bool) (l : StringList) (x : Q.Number) (i a : ℕ) (t : List ℕ)
      → IsAt m.lists (some q) l
      → Q.to_int x ≡ pos i
      → get_string l i ≡ ok (some a)
      → IsAt m.texts (some a) t
      → call L Q E Method.list_get (userdata string_list q own ∷ number x ∷ []) m
        ≡ ret (text t ∷ []) (record m { errors = clear_exception m.errors })
  unfolding call wrap_string_list_get string_list_get check_num_args check_ptr_type check_number
      convert_ptr swig_convert_ptr protect rethrow push_string clear_exception check_exception
  fetched_lem m q own l x i a t h1 h2 h3 h4 = rw (h1, h2, h3, h4) refl

  -- On a live client where JACK lists names for the pattern, `c:getPortNames(pattern)` gives the
  -- script a list; `list:length()` pushes the number of the names, and `list:get(i)` then pushes the
  -- name in place `i`, for each index below that number, given as a number that is `i` as an int.
  pub get_port_names_lem :
      (m : Machine L) (p : ℕ) (own : Bool) (box : ClientBox) (c : Client L) (pattern : List ℕ)
      (names : List (List ℕ)) (x : Q.Number) (i : ℕ) (name : List ℕ)
      → IsAt m.boxes (some p) box
      → IsAt m.clients box.impl c
      → IsFresh m.texts
      → E.get_ports (jack L m) c.client (some (before_nul pattern)) none (pos 0) ≡ some names
      → Q.to_int x ≡ pos i
      → get_elem? names i ≡ some name
      → (q : ℕ) × (n n' : Machine L) × (call L Q E Method.get_port_names
            (userdata client p own ∷ text pattern ∷ [])
            m
          ≡ ret (userdata string_list q false ∷ []) n)
        × (call L Q E Method.list_length (userdata string_list q false ∷ []) n
            ≡ ret (number (Q.of_int (pos (length names))) ∷ []) n')
        × (call L Q E Method.list_get (userdata string_list q false ∷ number x ∷ []) n'
            ≡ ret (text name ∷ []) n')
  unfolding clear_exception
  get_port_names_lem m p own box c pattern names x i name h1 h2 f h4 h5 h6 = of_array (
      new_texts_lem L names (asked (before_nul pattern) m)
        (alloc-IsFresh m.texts (before_nul pattern) f))
    where
      of_array :
          IsArray L names (asked (before_nul pattern) m)
          → (q : ℕ) × (n n' : Machine L) × (call L Q E Method.get_port_names
                (userdata client p own ∷ text pattern ∷ [])
                m
              ≡ ret (userdata string_list q false ∷ []) n)
            × (call L Q E Method.list_length (userdata string_list q false ∷ []) n
                ≡ ret (number (Q.of_int (pos (length names))) ∷ []) n')
            × (call L Q E Method.list_get (userdata string_list q false ∷ number x ∷ []) n'
                ≡ ret (text name ∷ []) n')
      of_array (ps, s, e, sp, all, kept) =
          let size : length ps ≡ length names = Spelled-length s ps names sp in
          let low : i < length ps = omega (arith, size, in_bounds names i name h6) in
          let (a, at, spelt) = Spelled-IsAt s ps names i name sp h6 in
          let (first, again, present, got) = list_length_lem ps [] all i low in
          let n : Machine L =
            listed (asked (before_nul pattern) m) s
              (record { impl = ps ++ (none ∷ []); len = 0 }) in
          let known : StringList = record { impl = ps ++ (none ∷ []); len = length ps } in
          let held : IsAt n.lists (some m.lists.fresh)
              (record { impl = ps ++ (none ∷ []); len = 0 }) =
            load-alloc_self m.lists (record { impl = ps ++ (none ∷ []); len = 0 }) in
          let n' : Machine L = record n { lists = saved n.lists (some m.lists.fresh) known } in
          (
            m.lists.fresh,
            n,
            n',
            listed_lem m p own box c pattern names (ps ++ (none ∷ [])) s h1 h2 h4 e,
            rw (← size) (counted_lem n m.lists.fresh false _ known (length ps) held first),
            fetched_lem n' m.lists.fresh false known x i a name
                (load-saved n.lists (some m.lists.fresh) _ known held) h5 (got ∙ at) spelt,
          )
