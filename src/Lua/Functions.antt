-- ===== src/Lua/Functions.antt =====
-- modules/lua/Jacks_lua_wrap.c: the C functions that the wrappers call, on the script's memory.
pub mod Values
pub mod Ports
pub mod Events
pub mod Clients
