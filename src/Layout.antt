-- ===== src/Layout.antt =====
-- rust/src/layout.rs: turning a parsed image into a plan of mappings.
pub mod Plan
pub mod Prot
pub mod View
