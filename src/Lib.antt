-- ===== src/Lib.antt =====
-- Shared memory buffers between WebAssembly instances: the Rust programs of the repository.
--
-- The repository shows how a host process maps one buffer into the linear memory of WebAssembly
-- instances. The lookup example (rust/lookup) stores a hash table in a shared memory file, maps it
-- into the memory of a wasm module, and compares lookups in the mapped table with calls back to
-- the host. In the gtk program (rust/gtk) a host draws a hunter and runners, which
-- two wasm modules move in one shared buffer, on a grid in another one that they may only read; the
-- host and the modules' containers signal each other by polling.
--
-- Files:
--   Base, Word, Memory: shared names, panics as values, little-endian words, a linear memory.
--   A `Run` is a value or the reason of a panic or a trap; every function of the code that may
--   panic returns one.
--   Page: `page_align` of rust/lookup/src/main.rs.
--   Posix: the calls of libc that both programs make; Posix/Pages: what they rely on of them.
--   Lookup/Entry: `KeyValue` of main.rs, its order, the sort of a chain, and `HashMap::get` over
--   the list of a map's entries. Entry/Canonical: the sort does not depend on the order before.
--   Lookup/File, Lookup/Store: `store_lookup` with `write_u32` and `write_bytes`, over a file with
--   a position. Store/Format is the format that the comment above `store_lookup` describes;
--   Store/Canonical compares the files for two orders of iteration.
--   Lookup/HashMap: the map as a quotient of the lists of its entries.
--   Lookup/Reader: `Reader` of rust/lookup/src/reader.rs; Reader/Wraps: its offsets close to 2^32.
--   Lookup/Module: `create_context` and `lookup_int`; Module/Calls: `lookup_ext`,
--   `verify_lookups` and the performance tests.
--   Lookup/Callback, Lookup/Utf8: `Externs` of main.rs (`extract_str`, `print_callback`,
--   `lookup_callback`, `invoke_index`).
--   Lookup/Imports: `Resolver` of main.rs: the names of the callbacks.
--   Lookup/Host: `create_lookup`, `store_test_keys`, `initialise_wasm`; Host/Instance: `wasm_alloc`,
--   `wasm_call` and `get_linear_memory` on an instance of the interpreter.
--   Lookup/Release: `Drop` of the context of main.rs.
--   Lookup/Main: `main` of main.rs from the creation of the pairs on: the parts one after the other.
--   Int: the `i32` of Rust over integers, in a debug build (an overflow panics) and in a release
--   build (it wraps).
--   Gtk/State: `State` and `Signal` of rust/gtk/src/shared.rs and host_common.rs.
--   Gtk/Actor: rust/gtk/src/module_common.rs: the random numbers, `move_by`, the data of the grid.
--   Gtk/Hunter, Gtk/Runner: `init` and `tick` of rust/gtk/src/modules/hunter.rs and runner.rs.
--   Gtk/Draws: the draws of RAND_VALUE in a tick, and what stops a debug build.
--   Gtk/Signals: `wait_for_signal` of host_common.rs and `send_signal` of rust/gtk/src/bin/host.rs,
--   each against what the other processes write.
--   Gtk/Actors: `Actors::hunter` and `Actors::runner` of bin/host.rs over the documented layout.
--   Gtk/Protocol: the host, two containers and their signal bytes as a step relation.
--   Gtk/Grid: `Grid` of bin/host.rs: `get`, `set`, `init`, `modify`. Gtk/View: the same buffer as the
--   modules see it.
--   Gtk/Host: `HostContext::new`, `toggle_host_modify` and `on_tick` of bin/host.rs, as to the grid.
--   Gtk/Context: `Context::new_unowned` and `update` of module_common.rs: what the modules' references
--   into the buffers refer to. Context/Shown: what the host reads after a tick.
--   Gtk/Draw: `on_draw` of bin/host.rs, as the list of what it fills.
--   Gtk/Buffers: `map_buffer` and `Buffers` of host_common.rs, `create_shared_buffer` and the end of
--   `HostContext` of bin/host.rs; Buffers/Opened: its start, with `fork_container`;
--   Buffers/Align: `page_align` of host_common.rs.
--   Gtk/Fault: `create_context`, `update_context` and `modify_grid` of the modules as stores to pages.
--   Gtk/World: the whole gtk program as a step relation: the protocol, the grid of the host, the
--   buttons, and the calls of the modules. World/Kept is its invariant.
--   Profile: the counting module and the two Rust containers of profile/src-rust.
--   Gtk/Tests, Lookup/Tests, Profile/Tests: concrete runs, and the theorems at concrete values.
--
-- How the code is read. A string is its UTF-8 bytes and a byte is a number. The lookup programs are
-- built in release mode, so `u32` and `usize` wrap: at 2^32 in the module (wasm32), at 2^64 on the
-- host.
-- An `i32` that crosses the border is its bit pattern. A `HashMap` is the list of its entries in
-- the order in which it iterates, with distinct keys.
--
-- Parameters. `DefaultHasher`, whose algorithm is not specified, is a function `hash` on bytes. The
-- module's allocator in a call of `lookup_ext` is a function of the attempt and the capacity, and the
-- memory does not grow in the call; a theorem states what it needs of the blocks (in the memory, apart
-- from one another and from what is in use). The `malloc_` that the host calls may grow the memory.
-- `mmap` is a function with the laws of `IsMmap`, and in the gtk program libc is a record of calls with
-- the laws of `IsLibc`. The writes, the seeks and `set_len` on the opened shared memory file are taken to
-- succeed (the code unwraps their results). Pointers wrap at 2^32 in `Reader`; a pointer that the module
-- hands to a callback and that runs past 2^32 counts as out of range. In the lookup example the answer of
-- `shm_open` and the generated random pairs are arguments, in the gtk program the drawn positions.
--
-- Loops are recursions on a list or on the number of rounds left; none takes fuel.
--
-- In Gtk/World a call of a module is one step. The two modules tick at the same time: what a call reads
-- of the actors that the other module moves are any positions on the grid. `Exit` is sent without
-- waiting, and is the last signal of the host; a container that takes it may answer or not. `ModifyGrid`
-- is not answered by the hunter: Gtk/Protocol takes this from the comment at the button, Gtk/World has
-- the store through the mapping of the container instead.
--
-- Not modelled: printing and timing, argument parsing, the loading of the module and the traits of
-- wasmi (`StringValue`), `large_alloc` and `malloc_` (which only allocate), the widgets of the window,
-- the C programs. The main loops of the gtk containers are not in the repository tree, but symbolic
-- links; the protocol and Gtk/World take them from the comments: a container calls the export of the
-- name of the signal and then answers.
pub mod Base
pub mod Gtk
pub mod Int
pub mod Lookup
pub mod Memory
pub mod Page
pub mod Posix
pub mod Profile
pub mod Word
