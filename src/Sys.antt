-- ===== src/Sys.antt =====
-- rust/src/sys.rs: the stack of the application, and files as image sources.
pub mod AppStack
pub mod File
pub mod Config
