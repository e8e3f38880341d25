-- ===== src/Coroutine.antt =====
-- src/coroutine: the scheduler of coroutines, and what they wait on.
pub mod Tests
pub mod Scheduler
pub mod Waiters
pub mod CoMutex
pub mod Condition
pub mod Mutex
pub mod Future
pub mod Async
