-- ===== src/Cpu.antt =====
-- The CPU process, which runs the instructions of one program at a time.
pub mod Primitives
pub mod Balance
pub mod Calls
pub mod Lookup
pub mod Messages
pub mod Cycle
