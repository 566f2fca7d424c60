-- ===== src/Process/Idle.antt =====
-- The idle process that `CreateIdleProcess` builds on the tables of the boot.
use yalnix_os_project.Base.{ℕ, ◌-◌, ◌<◌, ◌≡◌, ◌≢◌, Option, arith}
use yalnix_os_project.Machine.{null, max_pt_len}
use yalnix_os_project.Panic.{ok}
use yalnix_os_project.Memory.State.{Frames, Memory, frame_free, frame_used}
use yalnix_os_project.Memory.Frames.{alloc_frame}
use yalnix_os_project.Memory.Frames.Alloc.{
  Allocates, exhausted, allocated, with_byte, alloc_frame-Allocates,
}
use yalnix_os_project.Memory.Paging.{mapping, write_pte}
use yalnix_os_project.Memory.Paging.Laws.{map_page_in}
use yalnix_os_project.Memory.Brk.{read_write}
use yalnix_os_project.Memory.Brk.Owned.{Owned, entry, Mapped}
use yalnix_os_project.Process.{map_idle_stack}

-- The memory with the idle stack on frame `p`.
abbrev pub with_stack : ℕ → ℕ → Memory → Memory
with_stack pt p m =
    write_pte pt (max_pt_len - 1) (mapping p read_write)
      (record m { frames = with_byte m.frames p frame_used })

map_idle_stack-Allocates :
    (pt f : ℕ) (m : Memory) (r : Option ℕ × Frames)
    → pt ≢ null
    → f < m.frames.total_frames
    → m.frames.bitmap f ≡ frame_free
    → Allocates m.frames 0 r
    → (p : ℕ) × (p < m.frames.total_frames)
      × (m.frames.bitmap p ≡ frame_free)
      × (map_idle_stack pt r m ≡ ok (with_stack pt p m))
unfolding map_idle_stack
map_idle_stack-Allocates pt f m r ne lt free (exhausted full) =
    absurd (full f (omega arith) lt free)
map_idle_stack-Allocates pt f m r ne lt free (allocated p real ge unused first) = (
  p,
  real,
  unused,
  rw (
      map_page_in pt (max_pt_len - 1) p read_write
        (record m { frames = with_byte m.frames p frame_used }) ne (omega arith) real),
)

-- While some frame is free, the idle stack gets one that was free.
pub map_idle_stack_lem :
    (pt f : ℕ) (m : Memory)
    → pt ≢ null
    → f < m.frames.total_frames
    → m.frames.bitmap f ≡ frame_free
    → (p : ℕ) × (p < m.frames.total_frames)
      × (m.frames.bitmap p ≡ frame_free)
      × (map_idle_stack pt (alloc_frame m.frames) m ≡ ok (with_stack pt p m))
map_idle_stack_lem pt f m ne lt free =
    map_idle_stack-Allocates pt f m (alloc_frame m.frames) ne lt free
      (alloc_frame-Allocates m.frames)

module _ (pt p : ℕ) (m : Memory) (o : Owned m) (apart : pt ≢ m.region0_page_table)
    (real : p < m.frames.total_frames) (free : m.frames.bitmap p ≡ frame_free) where
  -- The idle stack is outside region 0, so the entries there stay.
  pub with_stack-entry : (v : ℕ) → entry (with_stack pt p m) v ≡ entry m v
  with_stack-entry v = ground arith

  pub with_stack-Owned : Owned (with_stack pt p m)
  with_stack-Owned = record {
    bounded = o.bounded;
    in_use = λ v h k. ground (arith, with_stack-entry v, o.in_use v h);
    distinct = λ v w hv hw kv kw e.
        ground (arith, with_stack-entry v, with_stack-entry w, o.distinct v w hv hw);
  }

  -- No page of region 0 shares the frame of the idle stack.
  pub with_stack-apart :
      (v : ℕ)
      → v < max_pt_len
      → Mapped (with_stack pt p m) v
      → (entry (with_stack pt p m) v).pfn ≢ p
  with_stack-apart v h k = ground (arith, with_stack-entry v, o.in_use v h)
