-- ===== src/Memory/Brk/Owned.antt =====
-- The invariant of the running memory manager: region 0 maps frames that are real, in use and
-- pairwise different.
use yalnix_os_project.Base.{ℕ, ◌^◌, ◌%◌, ◌≤◌, ◌<◌, ◌≡◌, ◌≢◌, arith, ◌==◌, if◌then◌else◌}
use yalnix_os_project.Machine.{Pte, max_pt_len}
use yalnix_os_project.Memory.State.{Memory, max_physical_frames, frame_free, frame_used}
use yalnix_os_project.Memory.Frames.Alloc.{with_byte}
use yalnix_os_project.Memory.Paging.{mapping, empty_pte, write_pte}

-- The region 0 entry of a page.
abbrev pub entry : Memory → ℕ → Pte
entry m v = m.tables m.region0_page_table v

abbrev pub Mapped : Memory → ℕ → Type 0
Mapped m v = (entry m v).valid ≢ 0

pub record Owned (m : Memory) : Type 0 where
  pub bounded : m.frames.total_frames ≤ max_physical_frames
  pub in_use :
      (v : ℕ)
      → v < max_pt_len
      → Mapped m v
      → ((entry m v).pfn < m.frames.total_frames) × (m.frames.bitmap (entry m v).pfn ≢ frame_free)
  pub distinct :
      (v w : ℕ)
      → v < max_pt_len
      → w < max_pt_len
      → Mapped m v
      → Mapped m w
      → (entry m v).pfn ≡ (entry m w).pfn
      → v ≡ w

-- The memory after page `v` was mapped to the free frame `p`.
abbrev pub with_page : Memory → ℕ → ℕ → ℕ → Memory
with_page m v p prot =
    write_pte m.region0_page_table v (mapping p prot)
      (record m { frames = with_byte m.frames p frame_used })

module _ (m : Memory) (o : Owned m) (v p prot : ℕ) (real : p < m.frames.total_frames)
    (free : m.frames.bitmap p ≡ frame_free) where
  -- A frame that region 0 maps is not the free one.
  other_frame : (w : ℕ) → w < max_pt_len → Mapped m w → (entry m w).pfn ≢ p
  other_frame w h k e = (o.in_use w h k).1 (rw e free)

  small : p % 2 ^ 24 ≡ p
  small = let b = o.bounded in omega arith

  pub with_page-Owned : Owned (with_page m v p prot)
  with_page-Owned = record {
    bounded = o.bounded;
    in_use = λ w h k. ground (arith, o.in_use w h, small);
    distinct = λ w x hw hx kw kx e.
        ground (arith, o.distinct w x hw hx, other_frame w hw, other_frame x hx, small);
  }

-- The memory after page `v` was unmapped and its frame, if it had one, was released.
abbrev pub without_page : Memory → ℕ → Memory
without_page m v = write_pte m.region0_page_table v empty_pte (record m {
  frames =
      if (entry m v).valid == 0 then m.frames else with_byte m.frames (entry m v).pfn frame_free;
})

pub without_page-Owned : (m : Memory) (v : ℕ) → v < max_pt_len → Owned m → Owned (without_page m v)
without_page-Owned m v h o = record {
  bounded = ground (arith, o.bounded);
  in_use = λ w hw k. ground (arith, o.in_use w hw, o.distinct v w h hw);
  distinct = λ w x hw hx kw kx e. ground (arith, o.distinct w x hw hx);
}
