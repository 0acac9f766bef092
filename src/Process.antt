-- ===== src/Process.antt =====
-- The process table of kfmon.c: which spawned process runs for which watch. Its operations run under
-- `ptlock`, so each is one atomic step here.
pub mod Table
pub mod Occupancy
pub mod System
pub mod Running
pub mod Ownership
pub mod Apart
pub mod Reachable
pub mod Refine
pub mod Lost
pub mod Unordered
pub mod Spawn
pub mod Blocker
pub mod Tests
