-- ===== src/Lib.antt =====
-- A model of the monitor's own state and of the pure code below it, with the theorems that the
-- code keeps its tables well formed and its decisions right. Paths are from the repository's root.
--
-- The program is a DLL that replaces functions of the system by hooks. A hook asks the gate of
-- hooking.c (`enter_hook`) whether it runs, and the gate keeps a record for each thread in a list
-- of lookup.c, asks the library ranges of misc.c which frames of the stack count as callers, and
-- caps how often a hook runs. unhook.c remembers the code that hooks overwrote and watches it from
-- a thread. What hooks log is encoded by utf8.c, and numbers are printed by misc.c without the C
-- library. log.c puts the call into a message, counts its repeats and sends the messages through a
-- buffer to the analyzer. pipe.c formats the messages to the analyzer. CAPE/Injection.c remembers
-- other processes and shared sections, hook_file.c the open files. hook_sleep.c shortens the waits
-- of the program and moves its clocks by what was skipped. CAPE/Debugger.c keeps breakpoints: four
-- debug registers for each thread, and bytes in the code with what they replaced in a list of
-- lookup.c. CAPE/CAPE.c tracks regions of memory and scans them for PE images.
--
-- Files:
--   Base: Boolean tests, lists, bits, bounded buffers and byte memory over the native numbers.
--   Lookup: lookup.c. A write through a returned pointer is `lookup_put`.
--   Utf8: utf8.c. Utf8/Decode has a decoder after RFC 3629, which refuses surrogates, and
--     Utf8/Strings has the allocated blocks.
--   NumText: `num_to_string`, `num_to_hex`, `uuid_to_string`, byte order and IPv4 text of misc.c.
--   DllRanges: `add_dll_range`, `is_in_dll_range`, `remove_dll_range` of misc.c.
--   Unhook: the region table and a round of `_unhook_detect_thread` of unhook.c.
--   Injection: the process list and the section views of CAPE/Injection.c.
--   HookGate: hooking.c with `operate_on_backtrace` of hooking_64.c. `Gate` is the global state,
--     `Hook` and `HookInfo` are the two structs, `Call` is what a call sees of the system.
--   Files: the lists of open files, their reports and counts of hook_file.c.
--   Pipe: the formatter of pipe.c. Pipe/Passes has the two passes, Pipe/Messages what is sent.
--   Replace: `replace_string_in_buf` of misc.c and its variants.
--   Debugger: hardware and software breakpoints of CAPE/Debugger.c. Debugger/Registers has the
--     debug registers of a context, Debugger/Threads the list of threads, Debugger/Current the
--     calls for the current thread, Debugger/Broadcast those for all threads, Debugger/Soft the
--     0xCC bytes of both lists of software breakpoints.
--   Sleep: the waits and clocks of hook_sleep.c. Sleep/Waiting relates a wait to the clock read
--     after it, Sleep/Runs follows sequences of calls, Sleep/Clocks has what the program reads.
--   Scans: the scans of memory of CAPE/CAPE.c. Pe: its tests for PE headers; Pe/Laws has sizes and
--     file offsets, Pe/Searching the search for a header.
--   Regions: the list of tracked regions of CAPE/CAPE.c.
--   KeyText: the encoding of NUL characters in the names of registry keys, of misc.c.
--   Log: log.c. Log has the buffer and its flush, Log/Calls `loq` from the built message on;
--     Log/Writing and Log/Jobs follow the buffer, Log/Last, Log/Repeats and Log/Runs the repeats,
--     Log/Explained, Log/Order, Log/Keeping and Log/Readable the descriptions. Log/Values,
--     Log/Variants, Log/Registry and Log/Format have the values of a call, Log/Walk the two passes
--     over its format, Log/Passes and Log/Agreeing their comparison, Log/Escapes and Log/MultiSz
--     what becomes of a list of strings. Log/Notes and Log/Environ have the calls that log.c
--     makes, Log/Fitting and Log/Reports their types.
--   Tests: runs on concrete data, and the theorems at inputs that meet their hypotheses.
--
-- Conventions: an unsigned integer is a native number, with its wrap-around written out where the
-- code relies on it or could reach it; a pointer or a handle is a number, and 0 is NULL; an array
-- with a count is the list of its used entries; a global is a field of a record that an operation
-- takes and returns. What the bson library makes of a message is an argument of `loq`. What the
-- system answers (`VirtualProtect`, `VirtualQuery`, `stricmp`, the stack walk, the time, the paths
-- of files) is an argument. Allocation is taken to succeed, as most of the code does.
--
-- Fuel: `digit_loop` has eleven rounds for the ten divisors from 10 ^ 9 down to 1 and the test
-- that ends the loop, and the printed result is proved to be there. `octet_loop` has three rounds,
-- for an octet below 1000. `replace_loop` has two rounds more than the buffer has units, each of
-- which moves by one unit at least. `set_others` is the loop over the threads, and the theorem on
-- it is about every number of rounds; `scan_headers` has as many rounds as the bound of its loop
-- allows. `raw_loop` has one round more than the message has bytes, since only its first round can
-- copy none. `decode` is a reader for the theorems and takes one round for each code unit; the
-- theorem on it is about every larger number too.
--
-- Not modelled: the start and end of the log, and what gathers the facts of its first messages;
-- the bodies of the hooks, whose work is to call the system and to log; the debugger and dumping
-- side effects that `enter_hook` starts (`api_dispatch`, `caller_dispatch`); code patching and
-- disassembly; threads and what the system does while one waits; the exception filter of the
-- debugger and its callbacks; dumps; the configuration; the exception handlers around memory
-- accesses outside of Scans and Pe; the vendored libraries (distorm, bson, libyara, Scylla).
pub mod Base
pub mod Lookup
pub mod Utf8
pub mod NumText
pub mod Unhook
pub mod DllRanges
pub mod Injection
pub mod Debugger
pub mod Files
pub mod HookGate
pub mod Pipe
pub mod Replace
pub mod Sleep
pub mod Scans
pub mod Pe
pub mod Regions
pub mod KeyText
pub mod Log
pub mod Tests
