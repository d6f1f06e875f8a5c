-- ===== src/Memory.antt =====
-- The memory process (Memoria): the table of frames, the bytes of the frames, and the requests that
-- the other processes send to it.
pub mod PageTable
pub mod Server
pub mod Cache
pub mod HashTable
pub mod Process
