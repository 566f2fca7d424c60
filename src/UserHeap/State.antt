-- ===== src/UserHeap/State.antt =====
-- The headers of the heap blocks by address, the globals of new_heap.c and the break of libc.c.
-- `bytes` is the memory that programs store in, `warnings` the number of calls of
-- `helper_maybort` so far.
use yalnix_os_project.Base.{ℕ, ◌+◌, ◌-◌, ◌*◌, ◌/◌, ◌%◌, Bool, update}
use yalnix_os_project.Machine.{word}

-- `mblock_t`; pointers are addresses, 0 for NULL.
pub record Block : Type 0 where
  pub magic1 : ℕ
  pub size : ℕ
  pub size_used : ℕ
  pub next : ℕ
  pub previous : ℕ
  pub magic2 : ℕ

pub record UserHeap : Type 0 where
  pub heap_start : ℕ
  pub heap_end : ℕ
  pub not_initialized : Bool
  pub current_break : ℕ
  pub blocks : ℕ → Block
  pub bytes : ℕ → ℕ
  pub warnings : ℕ

-- What the allocator is linked with: `USER_LIB`, and the status that `SysBrk` returns; and what the
-- variable `last` of `malloc` happens to hold before it is assigned.
pub record Link : Type 0 where
  pub user_lib : Bool
  pub sys_brk : UserHeap → ℕ → ℕ
  pub unset : ℕ

-- Arithmetic of `u_long` and of pointers.
abbrev pub add32 : ℕ → ℕ → ℕ
add32 a b = (a + b) % word

abbrev pub sub32 : ℕ → ℕ → ℕ
sub32 a b = (a + word - b) % word

abbrev pub magic : ℕ
magic = 0xfeeddad

-- `sizeof(mblock_t)`
abbrev pub header_size : ℕ
header_size = 24

abbrev pub min_block : ℕ
min_block = 2 * header_size

unfoldable pub word_round : ℕ → ℕ
word_round n = (n + 3) % word / 4 * 4

abbrev pub block_start : ℕ → ℕ
block_start a = add32 a header_size

abbrev pub block_end : UserHeap → ℕ → ℕ
block_end s a = add32 (block_start a) (s.blocks a).size

abbrev pub write_block : ℕ → Block → UserHeap → UserHeap
write_block a b s = record s { blocks = update s.blocks a b }

-- `helper_maybort`, which may return.
abbrev pub warn : UserHeap → UserHeap
warn s = record s { warnings = s.warnings + 1 }
