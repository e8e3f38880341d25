-- ===== src/Util.antt =====
-- src/util: the intrusive list, and src/extends/small_packages: the block queue.
pub mod Tests
pub mod IntrusiveList
pub mod BlockQueue
