-- ===== src/Lua/Wrappers.antt =====
-- modules/lua/Jacks_lua_wrap.c: the functions that Lua calls.
pub mod Buffers
pub mod Ports
pub mod Events
pub mod Clients
