-- ===== src/Probe.antt =====
-- The measurement tools (tools/dirty-probe): the reader of a shared capture, how it connects, and the
-- arguments of the program.
pub mod Reader
pub mod Connect
pub mod Words
pub mod Monitor
pub mod Arguments
pub mod Frames
pub mod Summary
pub mod Bench
