-- ===== src/Examples.antt =====
-- Concrete inputs: tests of the model, and an instance of each theorem.
pub mod Layout
pub mod Schedule
pub mod Dump
pub mod Driver
pub mod Guard
pub mod Monitor
pub mod Swap
pub mod Page
pub mod Table
pub mod Lap
pub mod Watch
