-- ===== src/Memory.antt =====
-- memory.c, the memory manager of the kernel.
pub mod State
pub mod Frames
pub mod Paging
pub mod Brk
pub mod Malloc
pub mod Region0
pub mod Boot
mod Tests
