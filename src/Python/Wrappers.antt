-- ===== src/Python/Wrappers.antt =====
-- modules/python3/Jacks_python3_wrap.c: the functions of the module.
pub mod Buffers
pub mod Ports
pub mod Events
pub mod Clients
