-- ===== src/KernelStart/Idle.antt =====
-- The idle process on a heap that does not run out.
use yalnix_os_project.Base.{ℕ, ◌<◌, ◌≡◌, ◌≢◌, sym, false, List, ◌==◌, arith}
use yalnix_os_project.Machine.{UserContext, Register, null, max_pt_len}
use yalnix_os_project.Panic.{ok}
use yalnix_os_project.Memory.State.{Memory, Layout, frame_free}
use yalnix_os_project.Memory.Paging.{empty_pte}
use yalnix_os_project.Memory.Malloc.{Heap, malloc}
use yalnix_os_project.Memory.Region0.{page_table_size, clear_table, create_region1_page_table}
use yalnix_os_project.Memory.Region0.Build.{clear_table-Wrote}
use yalnix_os_project.Memory.Boot.Tables.{HasRegion0}
use yalnix_os_project.Memory.Boot.Later.{malloc-HasRegion0, clear_table-HasRegion0}
use yalnix_os_project.Kernel.{Kernel, Platform}
use yalnix_os_project.Process.{create_idle_process, install_idle, pcb_size}
use yalnix_os_project.Process.Idle.{with_stack, map_idle_stack_lem}

-- What the boot relies on of `malloc`: it does not return NULL, and it does not return the block
-- that holds the region 0 table.
pub record IsReliable (heap : Heap) : Type 0 where
  pub answers : (size : ℕ) (m : Memory) → (heap size m).block ≢ null
  pub fresh : (size : ℕ) (m : Memory) → (heap size m).block ≢ m.region0_page_table

pub malloc-answers :
    (l : Layout) (heap : Heap) (size : ℕ) (m : Memory)
    → IsReliable heap
    → (malloc l heap size m).0 ≢ null
unfolding malloc
malloc-answers l heap size m h = h.answers size m

pub malloc-fresh :
    (l : Layout) (heap : Heap) (size : ℕ) (m : Memory)
    → IsReliable heap
    → (malloc l heap size m).0 ≢ m.region0_page_table
unfolding malloc
malloc-fresh l heap size m h = h.fresh size m

-- A memory in which the idle process has its empty page table, and its stack is about to get the
-- free frame `p`.
pub record IdleBuilt (l : Layout) (pt : ℕ) (w : List (Register × ℕ)) (p table : ℕ) (m : Memory)
    : Type 0 where
  pub region0 : HasRegion0 l pt w m
  pub cleared : (v : ℕ) → v < max_pt_len → m.tables table v ≡ empty_pte
  pub apart : table ≢ pt
  pub real : p < m.frames.total_frames
  pub unused : m.frames.bitmap p ≡ frame_free

-- `CreateIdleProcess` on the tables of the boot succeeds.
pub create_idle_process_lem :
    (p : Platform) (u : UserContext) (k : Kernel) (pt : ℕ) (w : List (Register × ℕ))
    → IsReliable p.heap
    → HasRegion0 p.layout pt w k.memory
    → (idle table frame : ℕ) × (m : Memory) × IdleBuilt p.layout pt w frame table m
      × (idle ≢ null)
      × (create_idle_process p u k ≡ ok (install_idle p idle table u k (with_stack table frame m)))
unfolding create_idle_process create_region1_page_table
create_idle_process_lem p u k pt w h r =
    let l = p.layout in
    let idle : ℕ = (malloc l p.heap pcb_size k.memory).0 in
    let m1 : Memory = (malloc l p.heap pcb_size k.memory).1 in
    let r1 = malloc-HasRegion0 l p.heap pcb_size pt w k.memory r in
    let table : ℕ = (malloc l p.heap page_table_size m1).0 in
    let m2 : Memory = (malloc l p.heap page_table_size m1).1 in
    let r2 = malloc-HasRegion0 l p.heap page_table_size pt w m1 r1 in
    let idle_set = malloc-answers l p.heap pcb_size k.memory h in
    let table_set = malloc-answers l p.heap page_table_size m1 h in
    let new : table ≢ pt = rw (← r1.root) (malloc-fresh l p.heap page_table_size m1 h) in
    let m3 : Memory = clear_table table m2 in
    let r3 = clear_table-HasRegion0 l pt table w m2 (λ e. new (sym e)) r2 in
    let b = r3.booting in
    let f : ℕ = m3.kernel_brk_page in
    let lt : f < m3.frames.total_frames = let x = b.brk_high in let y = b.enough in omega arith in
    let free : m3.frames.bitmap f ≡ frame_free = ground (arith, b.bytes f lt, b.brk_high) in
    let s = map_idle_stack_lem table f m3 table_set lt free in
    let no_idle : (idle == null) ≡ false = ground arith in
    let no_table : (table == null) ≡ false = ground arith in
    (
      idle,
      table,
      s.0,
      m3,
      record {
        region0 = r3;
        cleared = λ v hv. ground (arith, (clear_table-Wrote table m2).entries v);
        apart = new;
        real = s.1;
        unused = s.2;
      },
      idle_set,
      rw (no_idle, no_table, no_table, s.3),
    )
