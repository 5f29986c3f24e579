-- ===== src/Memory.antt =====
-- The dynamic memory lab: lab-3-memory/src.
pub mod DataSegment
pub mod Manager
pub mod BlockList
mod Tests
