-- ===== src/Memory/Boot.antt =====
-- memory.c during the boot, with virtual memory still off: what each step of `KernelStart` keeps.
pub mod Malloc
pub mod Tables
pub mod Later
use yalnix_os_project.Base.{
  ℕ, ◌*◌, ◌/◌, ◌≤◌, ◌<◌, ◌≡◌, Bool, false, ◌||◌, if◌then◌else◌, ltb, within, min, arith, refl,
}
use yalnix_os_project.Machine.{page_size, max_pt_len, min_pmem_size}
use yalnix_os_project.Memory.State.{Memory, Layout, max_physical_frames, frame_free, frame_used}
use yalnix_os_project.Memory.Frames.{init_physical_memory, kstack_first_page, kstack_limit_page}
use yalnix_os_project.Memory.Frames.Init.{init_frames_total, init_frames_bytes}
use yalnix_os_project.Memory.Region0.Build.{IsLaidOut}

-- The frames below the kernel break and those of the boot stack are in use, and no others.
pub record Booting (l : Layout) (m : Memory) : Type 0 where
  pub off : m.vm_enabled ≡ false
  pub enough : max_pt_len ≤ m.frames.total_frames
  pub bounded : m.frames.total_frames ≤ max_physical_frames
  pub brk_low : l.orig_kernel_brk_page ≤ m.kernel_brk_page
  pub brk_high : m.kernel_brk_page < kstack_first_page
  pub requested_low : l.orig_kernel_brk_page ≤ m.requested_kernel_brk_page
  pub requested_high : m.requested_kernel_brk_page < kstack_first_page
  pub bytes :
      (i : ℕ)
      → i < m.frames.total_frames
      → m.frames.bitmap i ≡ (
          if ltb i m.kernel_brk_page || within kstack_first_page kstack_limit_page i
          then frame_used
          else frame_free)

-- `InitPhysicalMemory` on a machine with at least the least memory that the hardware allows.
pub init_physical_memory-Booting :
    (l : Layout) (pmem_size : ℕ) (m : Memory)
    → IsLaidOut l
    → min_pmem_size ≤ pmem_size
    → m.vm_enabled ≡ false
    → Booting l (init_physical_memory l pmem_size m)
unfolding init_physical_memory
init_physical_memory-Booting l pmem_size m ok big off = record {
  off = off;
  enough = omega (arith, init_frames_total l pmem_size);
  bounded = omega (arith, init_frames_total l pmem_size);
  brk_low = omega arith;
  brk_high = ok.brk_lt_stack;
  requested_low = omega arith;
  requested_high = ok.brk_lt_stack;
  bytes = init_frames_bytes l pmem_size;
}
