-- ===== src/Serial.antt =====
-- Common/serial.c: what the processes write into their packets and read back from them.
pub mod Integers
pub mod Format
pub mod PcbPack
pub mod PcbUnpack
pub mod PcbRoundTrip
