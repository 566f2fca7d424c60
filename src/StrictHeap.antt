-- ===== src/StrictHeap.antt =====
-- etc/new_heap.c, the copy of the heap whose kernel build aborts when a block is corrupted.
pub mod Run
pub mod Block
pub mod Alloc
pub mod Follows
pub mod Checks
pub mod Growth
pub mod Frees
pub mod Requests
pub mod Realloc
pub mod Usage
pub mod Moves
pub mod Counts
pub mod Undisturbed
mod Tests
