-- ===== src/Hrc.antt =====
-- The hierarchical scheduler, sched/hierarchy: tasks and their priorities, the master, the workers
-- and wrappers, and the streams with the lists that hold them.
pub mod Buffer
pub mod Streams
pub mod FreeLists
pub mod StreamLists
pub mod System
pub mod Threads
pub mod Wrappers
pub mod TaskPriority
pub mod World
pub mod Priority
pub mod Master
