-- ===== src/Targets.antt =====
-- The order in which the kernel's subsystems come up: src/kernel/lib/target.c.
pub mod Defs
pub mod Sound
pub mod Moves
pub mod Work
pub mod Correct
mod Tests
