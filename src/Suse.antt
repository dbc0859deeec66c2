-- ===== src/Suse.antt =====
-- planificacion/suse: the scheduler.
pub mod Floats
pub mod State
pub mod Monad
pub mod Timing
pub mod Lookup
pub mod Moves
pub mod Create
pub mod Wakeup
pub mod Semaphores
pub mod Join
pub mod Schedule
pub mod Turns
pub mod Keeps
pub mod Reach
pub mod Multiprog
pub mod Balanced
pub mod Shortest
pub mod Removal
pub mod Destroy
pub mod Metrics
pub mod Config
pub mod Waking
mod Tests
