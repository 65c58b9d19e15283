-- ===== src/Lookup.antt =====
-- The lookup example: rust/lookup.
pub mod Entry
pub mod File
pub mod Store
pub mod Reader
pub mod Module
pub mod Utf8
pub mod Callback
pub mod Imports
pub mod Host
pub mod Main
pub mod HashMap
pub mod Release
mod Tests
