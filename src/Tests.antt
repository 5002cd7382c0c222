-- ===== src/Tests.antt =====
-- A small machine and, on it, each theorem at work: a heap that hands out the blocks of one run of
-- memory, 16 frames of which the first 4 are taken, and a page table of 32 chains.
pub mod Fixture
pub mod Frames
pub mod Heaps
pub mod Faults
pub mod Spaces
pub mod UserCopies
pub mod Processes
pub mod OpenFiles
