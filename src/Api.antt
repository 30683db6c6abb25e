-- ===== src/Api.antt =====
-- modules/Jacks.i, modules/jack_exceptions.h and corelib/Jacks.h: the objects of the script
-- languages, and the C functions that SWIG wraps.
pub mod Call
pub mod Values
pub mod Hex
pub mod Ports
pub mod Events
pub mod Clients
mod Tests
