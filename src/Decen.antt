-- ===== src/Decen.antt =====
-- The decentralised scheduler, sched/decentralised: the bounded buffer of its streams, its task
-- queues and their priority levels.
pub mod Ring
pub mod Deque
pub mod Scheduler
