-- ===== src/Safety.antt =====
-- Temporal safety of the allocator, and the lemmas that lead to it.
pub mod Assign
pub mod Files
pub mod Carve
pub mod Reuse
pub mod Small
pub mod Kept
pub mod Remapped
pub mod Malloc
pub mod Retire
pub mod Moved
pub mod Free
pub mod Start
pub mod Exhausted
pub mod Fault
pub mod Use
pub mod UseBig
pub mod Range
pub mod Big
pub mod BigMalloc
pub mod Walk
pub mod BigFree
pub mod Locks
pub mod Neighbours
pub mod Steps
pub mod Trace
