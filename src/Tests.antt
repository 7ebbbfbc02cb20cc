-- ===== src/Tests.antt =====
-- Concrete inputs, and the theorems at them.
mod Samples
mod Context
mod Clock
mod Life
mod Parsing
mod Lines
mod Packets
mod Running
mod Extent
mod First
mod Captured
mod Settings
mod Announced
