-- ===== src/Memory/Frames/Init.antt =====
-- What `InitPhysicalMemory` leaves in the bitmap.
use yalnix_os_project.Base.{
  ℕ, ◌+◌, ◌-◌, ◌∙◌, ◌/◌, ◌≤◌, ◌<◌, ◌≡◌, refl, ◌||◌, arith, if◌then◌else◌, ltb, within, min,
}
use yalnix_os_project.Base.Int.{pos}
use yalnix_os_project.Base.Loops.{for_range_inv}
use yalnix_os_project.Machine.{page_size}
use yalnix_os_project.Memory.State.{Frames, Layout, max_physical_frames, frame_free, frame_used}
use yalnix_os_project.Memory.Frames.{
  mark_frame_used, cleared_frames, mark_frames, init_frames, kstack_first_page, kstack_limit_page,
}

-- `s` is `old` with the real frames of `[low, high)` marked as used.
record Marked (old : Frames) (low high : ℕ) (s : Frames) : Type 0 where
  total : s.total_frames ≡ old.total_frames
  bytes :
      (i : ℕ)
      → i < old.total_frames
      → s.bitmap i ≡ (if within low high i then frame_used else old.bitmap i)

mark-Marked :
    (old : Frames) (low j : ℕ) (t : Frames)
    → low ≤ j
    → Marked old low j t
    → Marked old low (j + 1) (mark_frame_used (pos j) t)
unfolding mark_frame_used
mark-Marked old low j t p m = record {
  total = ground arith;
  bytes = λ i h. ground (arith, m.bytes i h);
}

mark_frames-Marked :
    (old : Frames) (low high : ℕ) → low ≤ high → Marked old low high (mark_frames low high old)
unfolding mark_frames
mark_frames-Marked old low high h =
    for_range_inv (Marked old low) _ (high - low) low high old (omega arith)
      (λ j t p q m. mark-Marked old low j t p m)
      (record { total = refl; bytes = λ i h. ground arith })

cleared_frames_total :
    (pmem_size : ℕ)
    → (cleared_frames pmem_size).total_frames ≡ min (pmem_size / page_size) max_physical_frames
unfolding cleared_frames
cleared_frames_total pmem_size = ground arith

module _ (l : Layout) (pmem_size : ℕ) where
  cleared : Frames
  cleared = cleared_frames pmem_size

  kernel_marked : Frames
  unfolding cleared
  kernel_marked = mark_frames 0 (min l.orig_kernel_brk_page cleared.total_frames) cleared

  below_break : Marked cleared 0 (min l.orig_kernel_brk_page cleared.total_frames) kernel_marked
  unfolding kernel_marked
  below_break = mark_frames-Marked cleared 0 _ (omega arith)

  on_stack : Marked kernel_marked kstack_first_page kstack_limit_page (init_frames l pmem_size)
  unfolding kernel_marked init_frames
  on_stack = mark_frames-Marked kernel_marked kstack_first_page kstack_limit_page (omega arith)

  -- The number of frames, at most what the bitmap has room for.
  pub init_frames_total :
      (init_frames l pmem_size).total_frames ≡ min (pmem_size / page_size) max_physical_frames
  unfolding cleared
  init_frames_total = on_stack.total ∙ below_break.total ∙ cleared_frames_total pmem_size

  -- After InitPhysicalMemory a real frame is in use exactly if it is below the original break or
  -- belongs to the boot kernel stack.
  pub init_frames_bytes :
      (i : ℕ)
      → i < (init_frames l pmem_size).total_frames
      → (init_frames l pmem_size).bitmap i ≡ (
          if ltb i l.orig_kernel_brk_page || within kstack_first_page kstack_limit_page i
          then frame_used
          else frame_free)
  unfolding cleared cleared_frames
  init_frames_bytes i h =
      let t = on_stack.total in
      let u = below_break.total in ground (arith, on_stack.bytes i, below_break.bytes i)
