-- ===== src/Kernel.antt =====
-- include/kernel.h, src/kernel.c, src/syscalls.c: the kernel's state and its operations.
pub mod State
pub mod Monad
pub mod Scheduler
pub mod Ports
pub mod Messages
pub mod Syscalls
pub mod Interrupts
pub mod Spawn
pub mod Start
mod Tests
