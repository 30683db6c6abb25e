-- ===== src/Lua/Results.antt =====
-- modules/lua/Jacks_lua_wrap.c: what a call gives back.
pub mod Types
mod Steps
use jacks.Prelude.{ℕ, ◌≡◌, Bool, true, false, ◌&&◌, [], ◌∷◌, none, some}
use jacks.Memory.{Fault, Ptr, ok, fault, load}
use jacks.Lua.Values.{Class, same_class, nil, number, text, userdata, new_pointer, Param, LuaError}
use jacks.Lua.Act.{Act, ◌>>=◌, ◌>>◌, Run, ret, err, crash, blocked, bind_run, lift}
use jacks.Lua.Machine.{Machine}
use jacks.Lua.Checks.{
  check_num_args, check_ptr_type, check_number, check_string, convert_ptr, assert_non_negative,
  arg_string, arg_char, protect, Pushed, push_string, push_copy, push_text,
}
