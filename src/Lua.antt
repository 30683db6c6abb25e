-- ===== src/Lua.antt =====
-- modules/lua/Jacks_lua_wrap.c: the module that Lua scripts load, from the values on Lua's stack to
-- the calls of corelib.
pub mod Values
pub mod Act
pub mod Machine
pub mod Functions
pub mod Checks
pub mod Wrappers
pub mod Dispatch
pub mod Signatures
pub mod Typing
pub mod Methods
pub mod Results
pub mod Nil
pub mod Lifetimes
pub mod Connect
pub mod Session
pub mod Cycle
pub mod Delivery
pub mod Opening
pub mod Started
pub mod Startup
pub mod Saving
pub mod Names
pub mod Buffers
pub mod Samples
mod Tests
mod ScriptTests
pub mod Constants
