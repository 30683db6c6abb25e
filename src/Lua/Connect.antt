-- ===== src/Lua/Connect.antt =====
-- modules/lua/Jacks_lua_wrap.c: connecting two ports from a script, down to JACK.
use jacks.Port.{Port}
use jacks.Client.State.{Client}
use jacks.Lua.Machine.{Machine}
