-- ===== src/Memory/State.antt =====
-- The static variables of memory.c. `tables` is the storage of the page tables, by the address
-- that `malloc` gave, and `writes` the calls of `WriteRegister` so far, the newest first.
use yalnix_os_project.Base.{ℕ, Bool, List, ◌/◌}
use yalnix_os_project.Machine.{Pte, Register, page_size, max_pmem_size}

abbrev pub max_physical_frames : ℕ
max_physical_frames = max_pmem_size / page_size

abbrev pub frame_free : ℕ
frame_free = 0

abbrev pub frame_used : ℕ
frame_used = 1

-- The bitmap, one byte for each frame.
pub record Frames : Type 0 where
  pub total_frames : ℕ
  pub bitmap : ℕ → ℕ

pub record Memory : Type 0 where
  pub frames : Frames
  pub vm_enabled : Bool
  pub region0_page_table : ℕ
  pub kernel_brk_page : ℕ
  pub requested_kernel_brk_page : ℕ
  pub tables : ℕ → ℕ → Pte
  pub writes : List (Register × ℕ)

-- The page numbers that the linker sets.
pub record Layout : Type 0 where
  pub first_kernel_text_page : ℕ
  pub first_kernel_data_page : ℕ
  pub orig_kernel_brk_page : ℕ
