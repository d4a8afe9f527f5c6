-- ===== src/Lib.antt =====
-- The ELF loader of app-elfloader (rust/src), as a model with proofs.
--
-- The program loads an ELF64 executable into a unikernel. `elf.rs` parses and validates an image,
-- `layout.rs` turns it into a plan of mappings, `loader.rs` carries the plan out through the trait
-- `Vm`, `program.rs` loads a program and its interpreter, `auxv.rs` lays out the initial stack, and
-- `app.rs` and `binfmt.rs` are the two entry points.
--
-- Files, and what they model:
--   Prelude, Prelude/*      names of the libraries, Boolean tests, lists over the native numbers
--   Outcome                 `Ok`, `Err` and panics; `Safe`, which says that there is no panic
--   Word, Word/*            u64 arithmetic, masks, multiples of an alignment
--   Err                     rust/src/err.rs
--   Elf/Header              rust/src/elf.rs: constants, `Ehdr`, `Phdr`, `Ehdr::parse`, `Phdr::parse`;
--                           Header/Bounds and Header/Encode hold the proofs
--   Elf/Source              rust/src/elf.rs: `ImageSource` and its implementation for byte slices
--   Elf/Reject              rust/src/elf.rs: `Reject`
--   Elf/Align               rust/src/elf.rs: `align_down`, `align_up`
--   Elf/Load                rust/src/elf.rs: `validate_load`
--   Elf/Image               rust/src/elf.rs: `Image::parse`, one function per stage (`check_ehdr`,
--                           `check_table`, `read_table`, `classify`, `sort_loads`, `check_overlaps`);
--                           proofs in Image/Table, Classify, Order and Parse
--   Elf/Interp              rust/src/elf.rs: `Image::interp_path`
--   Elf/Span                rust/src/elf.rs: `Image::va_span`, `Image::load_align`; proofs in Span/Cover
--   Layout/Plan             rust/src/layout.rs: the plan's data, `prot_of`, `reservation_len`, `plan`;
--                           proofs in the files below Layout/Plan
--   Layout/View, Layout/Prot  rust/src/layout.rs: `LoadPlan::phdr_addr`; the bits of `prot_of`
--   Layout/Plan/Shape       the parts of a segment's plan side by side
--   Action, Action/Keeps    calls that change the system: state in, outcome and state out; `Post`
--   Loader                  rust/src/loader.rs: `Vm`, `load_mapped`, `fill_mapped`, `load_copied`, `fill_copied`,
--                           `Loaded::unload`, `entry_is_executable`, `check_stack_request`
--   Loader/Calls            an address space that records its calls
--   Loader/Memory, Range    the laws of an address space (`IsVm`) over a view of memory as cells
--   Loader/Paint, Fill, Segments, Mapped, Reserve, Sound, Release   the mmap path on such a space
--   Loader/Copy, CopiedCell, Copied, Block                          the copy path on such a space
--   Program                 rust/src/program.rs: `load_program`, `load_interp`, `LoadedProgram`; Program/Took,
--                           Interp, Sound and Auxv hold the proofs
--   Auxv                    rust/src/auxv.rs: `check_arg_env_size`, `Pusher`, `build_stack`; Auxv/Writer,
--                           Words, Sizes, Build and Sound hold the proofs, Auxv/Vector how a program reads
--                           the vector
--   Util                    rust/src/util.rs: `basename`, `is_bare_name`, `path_candidates`, `Show`; proofs in
--                           Util/Base and Util/Bare
--   Sys/AppStack            rust/src/sys.rs: `AppStack`, which `build_stack` writes through
--   Sys/File                rust/src/sys.rs: `File` and `MemImage` as image sources; Sys/File/Sound shows that a
--                           file is a source that a program can be loaded from
--   Sys/Config              rust/src/sys.rs: `Cfg`, `CString::new`, `getenv`, `locate_in_path`
--   App                     rust/src/app.rs: `split_command_line`, `resolve`, the exit code of `elfrs_main`
--   Binfmt                  rust/src/binfmt.rs: the results of `elfrs_binfmt_load`, the program's name and arguments
--   Log                     rust/src/log.rs: the buffer in which `emit` formats a message
--   Tests, Tests/*          a small executable, a small stack and a small address space, with the theorems at them
--
-- How the code is read:
--   - `usize` is 64 bits wide. The crate is built with `overflow-checks` and `panic = "abort"`, so a
--     `+`, `-` or `*` that leaves the u64 range, and an index out of range, is the outcome `panic`.
--   - An `ImageSource` is a function: two reads of one range give the same result.
--   - `try_reserve` is a parameter `reserve`, which says whether room for so many elements is there.
--   - `EM_NATIVE` is a parameter `native`. The page size is a parameter; the theorems take it to be a
--     power of two, as the `debug_assert`s of the code do.
--   - A `StackWriter` is any implementation; the theorem on the stack takes one that writes just the bytes
--     it is given (`IsWriter`).
--   - A `Vm` is any record of calls on an unknown state, and an `Opener` any record of opening and
--     closing. What the theorems on memory take of them is written out in `IsVm` (Loader/Memory) and
--     `IsOpener` (Program/Took): a call that succeeds changes the range that it names and nothing else, a
--     mapping that is not `Exact` takes a free range, clearing and writing need writable pages.
--   - A read starts at an offset below 2 ^ 64, and fills a buffer shorter than 2 ^ 63 bytes: what a source
--     promises of other reads is not asked for (`IsSource`, `IsFile`).
--   - Dropping an opened source at the end of its block is the call `close`.
--   - Logging and `debug_assert` are left out, but what a log message computes is not.
--   - Loops are structural recursion over the list or the count that bounds them. The copy loop of
--     `fill_copied` recurses on fuel, the file size: each round copies at least one byte. Out of fuel it
--     would panic, and the theorem on `load_copied` says that it does not.
--
--   - `elfrs_pread`, `elfrs_getenv` and `elfrs_path_is_exec` are parameters. What the theorem on reading a
--     file takes of `pread` is written out in `IsPread` (Sys/File): it may serve less than it is asked for.
--     The read loop has the length of the buffer as its fuel, since every turn fills a byte.
--
-- Not modelled: `run` of `app.rs`, `load` of `binfmt.rs` as a whole and the rest of `sys.rs`, which call the C glue; `rt.rs`, which
-- allocates; the C code under glue, autogen and vdso.
pub mod Prelude
pub mod Outcome
pub mod Word
pub mod Err
pub mod Action
pub mod Elf
pub mod Layout
pub mod Loader
pub mod Program
pub mod Auxv
pub mod Sys
pub mod App
pub mod Binfmt
pub mod Util
pub mod Log
pub mod Tests
