-- ===== src/Client.antt =====
-- corelib/JacksRbClient.c: the client, between JACK's threads, which run its callbacks, and the
-- program, which asks it for events.
pub mod State
pub mod Callbacks
pub mod Events
pub mod Setup
pub mod Threads
pub mod Samples
mod Tests
