-- ===== src/Suse/Waking.antt =====
-- wakeup_threads (suse_scheduler.c), its loop and what it leaves.
pub mod Moved
pub mod Listed
pub mod Turn
pub mod Step
pub mod Loop
pub mod Woken
