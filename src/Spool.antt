-- ===== src/Spool.antt =====
-- agent/agent/spool.c: the agent's outgoing messages, kept in numbered files on disk.
pub mod Event
pub mod Files
pub mod State
pub mod Write
pub mod Read
pub mod Life
pub mod Scan
pub mod Codec
pub mod Contents
pub mod Push
pub mod Advance
pub mod Pop
pub mod Fifo
pub mod Faults
pub mod Culling
pub mod Fresh
pub mod Samples
mod Tests
