-- ===== src/Memory/Brk.antt =====
-- memory.c: `SetKernelBrk`, which the kernel's heap calls to move its break.
pub mod Range
pub mod Owned
pub mod Grow
pub mod Shrink
pub mod Moves
pub mod Safety
pub mod Cost
use yalnix_os_project.Base.{
  ℕ, zero, suc, ◌+◌, ◌-◌, not, Option, none, some, ◌∷◌, ltb, ◌==◌, if◌then◌else◌,
}
use yalnix_os_project.Base.Int.{pos, pos_part, ltb_ℤ, leb_ℤ}
use yalnix_os_project.Base.Loops.{for_range}
use yalnix_os_project.Machine.{
  Status, success, error, null, prot_read, prot_write, tlb_flush, tlb_flush_0,
}
use yalnix_os_project.Memory.State.{Frames, Memory, Layout}
use yalnix_os_project.Memory.Frames.{alloc_frame, free_frame, kstack_first_page}
use yalnix_os_project.Memory.Paging.{addr_to_vpn, clear_pte, map_page}

abbrev pub read_write : ℕ
read_write = prot_read + prot_write

-- An early `return ERROR` ends the function.
abbrev pub and_then : Status × Memory → (Memory → Status × Memory) → Status × Memory
and_then (success, m) next = next m
and_then (error, m) next = (error, m)

-- The frame goes back if the page could not be mapped.
pub undo_alloc : ℕ → Status × Memory → Status × Memory
undo_alloc pfn (success, m) = (success, m)
undo_alloc pfn (error, m) = (error, record m { frames = free_frame (pos pfn) m.frames })

pub map_frame : ℕ → Option ℕ × Frames → Memory → Status × Memory
unfolding undo_alloc
map_frame vpn (none, s) m = (error, record m { frames = s })
map_frame vpn (some pfn, s) m =
    undo_alloc pfn
      (map_page m.region0_page_table (pos vpn) (pos pfn) read_write (record m { frames = s }))

-- One round of the growing loop.
pub grow_page : ℕ → Memory → Status × Memory
unfolding map_frame
grow_page vpn m = map_frame vpn (alloc_frame m.frames) m

pub grow_loop : ℕ → ℕ → Memory → Status × Memory
grow_loop zero vpn m = (success, m)
grow_loop (suc rounds) vpn m = and_then (grow_page vpn m) (λ m'. grow_loop rounds (vpn + 1) m')

-- One round of the shrinking loop.
pub shrink_page : ℕ → Memory → Memory
shrink_page vpn m =
    let entry = m.tables m.region0_page_table vpn in
    let frames = if entry.valid == 0 then m.frames else free_frame (pos entry.pfn) m.frames in
    clear_pte m.region0_page_table vpn (record m { frames = frames })

pub grow : ℕ → Memory → Status × Memory
unfolding grow_loop
grow new_page m =
    if ltb m.kernel_brk_page new_page
    then grow_loop (new_page - m.kernel_brk_page) m.kernel_brk_page m
    else (success, m)

pub shrink : ℕ → Memory → Memory
unfolding shrink_page
shrink new_page m =
    if ltb new_page m.kernel_brk_page
    then for_range (m.kernel_brk_page - new_page) new_page shrink_page m
    else m

-- The flush and the two assignments at the end.
abbrev pub commit : ℕ → Memory → Memory
commit new_page m = record m {
  kernel_brk_page = new_page;
  requested_kernel_brk_page = new_page;
  writes = (tlb_flush, tlb_flush_0) ∷ m.writes;
}

-- With virtual memory on, and a page that passed the range checks.
pub move_brk : ℕ → Memory → Status × Memory
move_brk new_page m =
    if m.region0_page_table == null
    then (error, m)
    else and_then (grow new_page m) (λ m'. (success, commit new_page (shrink new_page m')))

unfoldable pub set_kernel_brk : Layout → ℕ → Memory → Status × Memory
set_kernel_brk l addr m =
    let new_page = addr_to_vpn addr in
    if ltb_ℤ new_page (pos l.orig_kernel_brk_page)
    then (error, m)
    else if leb_ℤ (pos kstack_first_page) new_page
    then (error, m)
    else if not m.vm_enabled
    then (success, record m { requested_kernel_brk_page = pos_part new_page })
    else move_brk (pos_part new_page) m
