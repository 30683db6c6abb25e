-- ===== src/Lib.antt =====
-- Jacks: the C core that lets script languages be JACK clients without writing callbacks.
--
-- JACK's threads run the callbacks of a client (corelib/JacksRbClient.c). The process callback
-- copies the samples of each port into the port's ring buffer (corelib/JacksRbPort.c). All
-- callbacks put a pre-allocated event (corelib/JacksEvent.c) in a bounded queue and post a
-- semaphore; the program takes events off with `JacksRbClient_get_event`. The session callback
-- then waits on a latch (corelib/JacksLatch.c), which the completion of its event posts. Errors for
-- the script languages go through a static message buffer (corelib/JacksHelper.c).
--
--   Prelude          the library names and the helpers on numbers and lists that all files share
--   Memory           faults, outcomes, and stores of structs behind pointers
--   Libraries        what is called and not written here, as parameters with their laws: the JACK
--                    ring buffer and server, malloc, and the queue of corelib/lfds
--   Samples          small instances of these parameters, on which the tests run
--   Exceptions       corelib/JacksHelper.c: throw_exception, clear_exception, check_exception
--   Latch            corelib/JacksLatch.c: JacksLatch_* for one thread; Latch/Threads has any number
--                    of threads in JacksLatch_get and JacksLatch_post, as a step relation
--   Event            corelib/JacksEvent.c: JacksEvent_*
--   Port             corelib/JacksRbPort.c: JacksRbPort_* and its static functions
--   Client/State     the struct of corelib/JacksRbClient.c, and the memory around it
--   Client/Callbacks the functions that JACK calls; _session_cb is cut in two at its wait
--   Client/Events    JacksRbClient_get_event
--   Client/Threads   the queue and the semaphore between the threads in the callbacks and those in
--                    get_event, as a step relation over their shared accesses
--   Client/Setup     JacksRbClient_new, _registerPort, _activate, _free
--   Api              modules/Jacks.i, modules/jack_exceptions.h and corelib/Jacks.h: the wrapped call
--                    (Call), port buffers (Hex), string lists (Values), JsPort (Ports), the session
--                    part of JsEvent (Events), JsClient and ~JsEvent (Clients)
--   Lua              modules/lua/Jacks_lua_wrap.c, which SWIG made of modules/Jacks.i: Lua's values and
--                    the errors (Values), calls that return, raise, crash or wait (Act), the memory
--                    of a script and what JACK answers (Machine), the C functions JsPort_* and so on
--                    (Functions), the macros of SWIG (Checks), the _wrap_* functions (Wrappers),
--                    the functions and the collector (Dispatch), the tables of methods (Methods), the
--                    constants (Constants)
--   Python           modules/python3/Jacks_python3_wrap.c, which SWIG made of the same file: Python's values
--                    and errors and what a script holds (Values), from Python to C (Convert), the
--                    parts of a wrapper (Checks), the _wrap_* functions (Wrappers), the functions and
--                    the end of an object (Dispatch). The C functions behind them are those of Lua.
--   Python/Signatures  what each function accepts there; Python/Agreement sets the calls from both
--                    languages side by side
--   Lua/Opening, Lua/Started, Lua/Startup  a script that makes a client, registers a port and
--                    activates
--   Lua/Delivery, Lua/Cycle, Lua/Saving  a cycle and a session event, from JACK's callback to a
--                    script
--   Lua/Signatures   what each function accepts, and Lua/Results/Types what it gives, as declared
--   Latch/Refinement the binary semaphore that the latch is for its callers
--
-- A script's call checks and converts its arguments, clears the pending exception, runs the C
-- function on the objects of corelib, and turns a pending exception into an error of the script.
--
-- JACK gives NULL for a port that it refuses, and what its functions do with NULL is not documented:
-- the model's use of the NULL is a fault, so the theorems on the callback ask for registered ports.
--
-- State is passed explicitly. A struct is a record; the client's events, latch and ports lie in
-- stores, so that pointers can be shared, null or freed, and a use of a null or freed pointer, a
-- failed assertion, an index out of range and `exit` are faults. The calls made of JACK are kept in
-- order in a list. An `int` and a `size_t` wrap at 32 and 64 bits, written out; `jack_nframes_t`
-- has 32 bits, and a sample has 4 bytes. Answers of JACK and of the system that the code only
-- branches on are arguments. The loop of get_event runs on fuel: one more than the count of the
-- semaphore is enough, by the theorem on it. The process loop recurses on the ports left.
--
-- Not modelled: messages on stderr; the limit SEM_VALUE_MAX of the semaphore's count, at which
-- sem_post fails, and the userdata of other libraries among a script's values, which the macros of
-- SWIG would read as their own; how the constants get their numbers, which are those of
-- modules/jack_headers.h here and come from the headers of JACK when the module is built; JacksRbClient_get_sample_rate and _get_name, which only pass a
-- call on; the generic runtime of SWIG in modules/lua and modules/python3 (its type tables, metatables, the
-- registration of classes, and the start), the wording of its messages, the life of Lua's own
-- strings, whose copies stay here, and a lack of memory for the copies that Python's wrappers make;
-- the wrappers for Perl and Ruby, which SWIG makes of the same modules/Jacks.i for other runtimes, and
-- the nodejs binding (modules); the queue's inside
-- (corelib/lfds, a copy of liblfds); the test programs.
pub mod Prelude
pub mod Memory
pub mod Exceptions
pub mod Latch
pub mod Event
pub mod Libraries
pub mod Samples
pub mod Port
pub mod Client
pub mod Api
pub mod Lua
pub mod Python
