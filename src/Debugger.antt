-- ===== src/Debugger.antt =====
-- CAPE/Debugger.c: breakpoints in the debug registers of a thread, their lists for all threads, and
-- breakpoints written into the code.
pub mod Registers
pub mod Threads
pub mod Current
pub mod Broadcast
pub mod Soft
