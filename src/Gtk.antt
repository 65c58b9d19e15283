-- ===== src/Gtk.antt =====
-- The gtk program (rust/gtk): a host that draws runners and a hunter, which two wasm modules move
-- in a shared buffer, on a grid that the modules may only read.
pub mod Outcome
pub mod Draws
pub mod State
pub mod Actor
pub mod Hunter
pub mod Runner
pub mod Signals
pub mod Actors
pub mod Grid
pub mod View
pub mod Host
pub mod Buffers
pub mod Fault
pub mod Context
pub mod Draw
pub mod Protocol
pub mod World
mod Tests
