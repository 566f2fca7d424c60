-- ===== src/UserHeap.antt =====
-- new_heap.c with the break functions of etc/yuserlib/yuser/libc.c: the allocator of user programs.
pub mod State
pub mod Brk
pub mod Block
pub mod Alloc
pub mod Realloc
pub mod Chain
pub mod Sound
pub mod Split
pub mod Take
pub mod FirstFit
pub mod Serve
pub mod Merge
pub mod Collect
pub mod Release
pub mod Extend
pub mod Join
pub mod Grow
pub mod Enlarge
pub mod Request
pub mod Init
pub mod RoundTrip
pub mod Resize
pub mod Overlap
pub mod Usage
pub mod Accounts
pub mod Regions
pub mod Refines
pub mod Returns
pub mod Widen
pub mod Swap
pub mod Moves
pub mod Resizes
pub mod Zeroes
pub mod Programs
mod Tests
