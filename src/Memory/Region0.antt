-- ===== src/Memory/Region0.antt =====
-- memory.c: the page tables of the boot, and the heap growth that happened before virtual memory.
pub mod Build
pub mod Sync
use yalnix_os_project.Base.{ℕ, ◌+◌, ◌-◌, ◌*◌, ◌==◌, if◌then◌else◌}
use yalnix_os_project.Base.Int.{pos}
use yalnix_os_project.Base.Loops.{for_range}
use yalnix_os_project.Machine.{max_pt_len, null, prot_read, prot_exec}
use yalnix_os_project.Panic.{Outcome, ok, halted, region0_malloc_failed}
use yalnix_os_project.Memory.State.{Memory, Layout}
use yalnix_os_project.Memory.Frames.{mark_frame_used, kstack_first_page, kstack_limit_page}
use yalnix_os_project.Memory.Paging.{clear_pte, map_page}
use yalnix_os_project.Memory.Brk.{read_write}
use yalnix_os_project.Memory.Malloc.{Heap, malloc}

-- `sizeof(pte_t) * MAX_PT_LEN`
abbrev pub page_table_size : ℕ
page_table_size = 4 * max_pt_len

abbrev pub read_exec : ℕ
read_exec = prot_read + prot_exec

-- `for (vpn = 0; vpn < MAX_PT_LEN; vpn++) ClearPte(&pt[vpn]);`
unfoldable pub clear_table : ℕ → Memory → Memory
clear_table pt m = for_range max_pt_len 0 (clear_pte pt) m

-- `for (vpn = first; vpn < limit; vpn++) MapPage(pt, vpn, vpn, prot);`
unfoldable pub map_identity : ℕ → ℕ → ℕ → ℕ → Memory → Memory
map_identity pt first limit prot m =
    for_range (limit - first) first (λ vpn t. (map_page pt (pos vpn) (pos vpn) prot t).1) m

-- The four loops over a table that `malloc` gave.
unfoldable pub fill_region0 : Layout → ℕ → Memory → Memory
fill_region0 l pt m =
    let cleared = clear_table pt m in
    let text =
      map_identity pt l.first_kernel_text_page l.first_kernel_data_page read_exec cleared in
    let heap = map_identity pt l.first_kernel_data_page text.kernel_brk_page read_write text in
    map_identity pt kstack_first_page kstack_limit_page read_write heap

unfoldable pub build_region0_page_table : Layout → Heap → Memory → Outcome (ℕ × Memory)
build_region0_page_table l heap m =
    let (pt, m') = malloc l heap page_table_size m in
    if pt == null
    then halted region0_malloc_failed
    else ok (pt, record (fill_region0 l pt m') { region0_page_table = pt })

-- NULL if the table could not be allocated.
unfoldable pub create_region1_page_table : Layout → Heap → Memory → ℕ × Memory
create_region1_page_table l heap m =
    let (pt, m') = malloc l heap page_table_size m in
    if pt == null then (null, m') else (pt, clear_table pt m')

-- One round of the loop of `SyncKernelBrkBeforeVM`.
unfoldable pub sync_page : ℕ → ℕ → Memory → Memory
sync_page pt vpn m =
    (map_page pt (pos vpn) (pos vpn) read_write
      (record m { frames = mark_frame_used (pos vpn) m.frames })).1

unfoldable pub sync_kernel_brk_before_vm : ℕ → Memory → Memory
sync_kernel_brk_before_vm pt m =
    let m' : Memory = record m { region0_page_table = pt } in
    if pt == null
    then m'
    else let low = m'.kernel_brk_page in
      let high = m'.requested_kernel_brk_page in
      let mapped = for_range (high - low) low (sync_page pt) m' in
      record mapped { kernel_brk_page = mapped.requested_kernel_brk_page }
