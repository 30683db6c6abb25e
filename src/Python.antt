-- ===== src/Python.antt =====
-- modules/python3/Jacks_python3_wrap.c: the module of Python 3. That of Python 2 in modules/python2 is
-- the same file.
pub mod Values
pub mod Convert
pub mod Checks
pub mod Wrappers
pub mod Dispatch
pub mod Agreement
pub mod Signatures
pub mod Typing
pub mod Session
pub mod Indices
pub mod Ownership
pub mod Samples
mod Tests
