-- ===== src/Memory/Tests.antt =====
-- The theorems on memory.c at small machines.
use yalnix_os_project.Base.{
  ◌+◌, ◌*◌, ◌≤◌, ◌≡◌, ◌↔◌, inr, refl, true, false, [], ltb, if◌then◌else◌, arith,
}
use yalnix_os_project.Machine.{success, error, page_size, max_pt_len}
use yalnix_os_project.Memory.Frames.{alloc_frame}
use yalnix_os_project.Memory.Frames.Alloc.{Allocates, alloc_frame-Allocates}
use yalnix_os_project.Memory.Region0.{fill_region0, sync_kernel_brk_before_vm}
use yalnix_os_project.Memory.Region0.Build.{IsLaidOut}
use yalnix_os_project.Memory.Region0.Sync.{SyncedBrk, sync_kernel_brk_before_vm-SyncedBrk}
use yalnix_os_project.Memory.State.{Frames, Memory, Layout, frame_free, frame_used}
use yalnix_os_project.Memory.Frames.Count.{free_frames, count_free}
use yalnix_os_project.Memory.Paging.{mapping, empty_pte, addr_to_vpn}
use yalnix_os_project.Memory.Brk.{set_kernel_brk}
use yalnix_os_project.Memory.Brk.Range.{set_kernel_brk_refuses}
use yalnix_os_project.Memory.Brk.Moves.{Running, MovesBrk}
use yalnix_os_project.Memory.Brk.Safety.{set_kernel_brk-Running, set_kernel_brk-MovesBrk}
use yalnix_os_project.Memory.Brk.Cost.{set_kernel_brk-status, failed_grow_leaks}
use yalnix_os_project.Memory.Region0.Build.{Wrote, boot_entry, fill_region0-Wrote}

abbrev layout : Layout
layout = record { first_kernel_text_page = 0; first_kernel_data_page = 1; orig_kernel_brk_page = 2 }

layout-IsLaidOut : IsLaidOut layout
layout-IsLaidOut = omega arith

-- Five frames, three of them in use.
abbrev five : Frames
five = record { total_frames = 5; bitmap = λ i. if ltb i 3 then frame_used else frame_free }

-- Virtual memory is on, and the pages below 3 are mapped to the frames of their own numbers.
abbrev small : Memory
small = record {
  frames = five;
  vm_enabled = true;
  region0_page_table = 1000;
  kernel_brk_page = 3;
  requested_kernel_brk_page = 3;
  tables = λ pt v. if ltb v 3 then mapping v 3 else empty_pte;
  writes = [];
}

small-Running : Running layout small
small-Running = record {
  on = refl;
  root = λ e. omega arith;
  low = omega arith;
  high = omega arith;
  heap = λ v lo hi. ground arith;
  owned = record {
    bounded = omega arith;
    in_use = λ v h k. ground arith;
    distinct = λ v w hv hw kv kw e. ground arith;
  };
}

set_kernel_brk-Running_example : Running layout (set_kernel_brk layout (8 * page_size) small).1
set_kernel_brk-Running_example = set_kernel_brk-Running layout (8 * page_size) small small-Running

set_kernel_brk-MovesBrk_example : MovesBrk small 5 (set_kernel_brk layout (4 * page_size + 1) small)
unfolding addr_to_vpn
set_kernel_brk-MovesBrk_example =
    set_kernel_brk-MovesBrk layout (4 * page_size + 1) 5 small small-Running
      (refl, omega arith, omega arith)

set_kernel_brk-status_example :
    ((set_kernel_brk layout (5 * page_size) small).0 ≡ success) ↔ (5 ≤ 3 + free_frames five)
unfolding addr_to_vpn
set_kernel_brk-status_example =
    set_kernel_brk-status layout (5 * page_size) 5 small small-Running
      (refl, omega arith, omega arith)

failed_grow_leaks_example :
    let failed = set_kernel_brk layout (8 * page_size) small in
    let repeated = set_kernel_brk layout (3 * page_size) failed.1 in
    (failed.0 ≡ error)
    × ((failed.1).kernel_brk_page ≡ 3)
    × (free_frames (failed.1).frames ≡ 0)
    × (repeated.0 ≡ success)
    × (free_frames (repeated.1).frames ≡ 0)
unfolding addr_to_vpn count_free
failed_grow_leaks_example =
    failed_grow_leaks layout (8 * page_size) 8 (3 * page_size) small small-Running
      (refl, omega arith, omega arith) (omega arith) (refl, omega arith, omega arith)

set_kernel_brk_refuses_example : set_kernel_brk layout (126 * page_size) small ≡ (error, small)
set_kernel_brk_refuses_example =
    set_kernel_brk_refuses layout (126 * page_size) small (omega arith) (omega arith)
      (inr (omega arith))

alloc_frame-Allocates_example : Allocates five 0 (alloc_frame five)
alloc_frame-Allocates_example = alloc_frame-Allocates five

-- A machine before virtual memory is on, whose heap has asked for two pages.
abbrev booting : Memory
booting = record small {
  frames = record { total_frames = 128; bitmap = λ i. if ltb i 2 then frame_used else frame_free };
  vm_enabled = false;
  kernel_brk_page = 2;
  requested_kernel_brk_page = 4;
}

fill_region0-Wrote_example :
    Wrote 1000 (boot_entry layout 2) 0 booting max_pt_len (fill_region0 layout 1000 booting)
fill_region0-Wrote_example =
    fill_region0-Wrote layout 1000 booting layout-IsLaidOut (λ e. omega arith) (omega arith)
      (omega arith) (omega arith)

sync_kernel_brk_before_vm-SyncedBrk_example :
    SyncedBrk 1000 booting (sync_kernel_brk_before_vm 1000 booting)
sync_kernel_brk_before_vm-SyncedBrk_example =
    sync_kernel_brk_before_vm-SyncedBrk 1000 booting (λ e. omega arith) (omega arith) (omega arith)
      (omega arith)
