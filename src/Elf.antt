-- ===== src/Elf.antt =====
-- rust/src/elf.rs: the ELF64 reader. `Header` has the executable header and the program headers,
-- `Source` what they are read from, `Align` the rounding, `Load` the check of one segment, `Image`
-- the whole reader, `Interp` the interpreter's path, `Span` the addresses that an image takes.
pub mod Header
pub mod Source
pub mod Align
pub mod Reject
pub mod Load
pub mod Image
pub mod Span
pub mod Interp
