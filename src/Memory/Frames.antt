-- ===== src/Memory/Frames.antt =====
-- memory.c: ownership of physical frames. A frame number is a C `int`, so it can be negative.
pub mod Alloc
pub mod Init
pub mod Count
use yalnix_os_project.Base.{
  ℕ, zero, suc, ◌+◌, ◌-◌, ◌/◌, ◌^◌, Bool, false, ◌||◌, Option, none, some, ltb, ◌==◌, if◌then◌else◌,
  update, min,
}
use yalnix_os_project.Base.Int.{ℤ, pos, pos_part, ltb_ℤ, leb_ℤ}
use yalnix_os_project.Base.Loops.{for_range}
use yalnix_os_project.Machine.{page_size, page_shift, kernel_stack_base, kernel_stack_limit}
use yalnix_os_project.Memory.State.{
  Frames, Memory, Layout, max_physical_frames, frame_free, frame_used,
}

-- `pfn < 0 || pfn >= total_frames`
abbrev pub outside : ℤ → Frames → Bool
outside pfn s = ltb_ℤ pfn (pos 0) || leb_ℤ (pos s.total_frames) pfn

unfoldable pub mark_frame_used : ℤ → Frames → Frames
mark_frame_used pfn s =
    if outside pfn s then s else record s { bitmap = update s.bitmap (pos_part pfn) frame_used }

unfoldable pub mark_frame_free : ℤ → Frames → Frames
mark_frame_free pfn s =
    if outside pfn s then s else record s { bitmap = update s.bitmap (pos_part pfn) frame_free }

unfoldable pub is_frame_free : ℤ → Frames → Bool
is_frame_free pfn s = if outside pfn s then false else s.bitmap (pos_part pfn) == frame_free

-- The loop of `AllocFrame`, with `rounds` frames left to look at from `pfn` on.
pub alloc_from : ℕ → ℕ → Frames → Option ℕ × Frames
alloc_from zero pfn s = (none, s)
alloc_from (suc rounds) pfn s =
    let rest = alloc_from rounds (pfn + 1) s in
    if is_frame_free (pos pfn) s then (some pfn, mark_frame_used (pos pfn) s) else rest

-- `none` is `ERROR`.
unfoldable pub alloc_frame : Frames → Option ℕ × Frames
unfolding alloc_from
alloc_frame s = alloc_from s.total_frames 0 s

unfoldable pub free_frame : ℤ → Frames → Frames
free_frame pfn s = if outside pfn s then s else mark_frame_free pfn s

abbrev pub kstack_first_page : ℕ
kstack_first_page = kernel_stack_base / 2 ^ page_shift

abbrev pub kstack_limit_page : ℕ
kstack_limit_page = kernel_stack_limit / 2 ^ page_shift

-- `total_frames` and the cleared bitmap.
unfoldable pub cleared_frames : ℕ → Frames
cleared_frames pmem_size =
    let pages = pmem_size / page_size in
    record {
      total_frames = if ltb max_physical_frames pages then max_physical_frames else pages;
      bitmap = λ _. frame_free;
    }

-- `for (pfn = first; pfn < limit; pfn++) MarkFrameUsed(pfn);`
unfoldable pub mark_frames : ℕ → ℕ → Frames → Frames
mark_frames first limit s = for_range (limit - first) first (λ pfn t. mark_frame_used (pos pfn) t) s

-- The bitmap that `InitPhysicalMemory` leaves: marked below the kernel break and over the boot
-- kernel stack.
unfoldable pub init_frames : Layout → ℕ → Frames
unfolding cleared_frames mark_frames
init_frames l pmem_size =
    let cleared = cleared_frames pmem_size in
    let kernel = mark_frames 0 (min l.orig_kernel_brk_page cleared.total_frames) cleared in
    mark_frames kstack_first_page kstack_limit_page kernel

unfoldable pub init_physical_memory : Layout → ℕ → Memory → Memory
init_physical_memory l pmem_size m = record m {
  frames = init_frames l pmem_size;
  kernel_brk_page = l.orig_kernel_brk_page;
  requested_kernel_brk_page = l.orig_kernel_brk_page;
}
