-- ===== src/Examples.antt =====
-- Concrete inputs, and the properties at them.
pub mod World
pub mod Gates
pub mod Prober
pub mod Loop
pub mod Checker
pub mod Program
pub mod Runs
pub mod System
pub mod Copies
pub mod Watches
pub mod Action
pub mod Spacing
pub mod Lapses
