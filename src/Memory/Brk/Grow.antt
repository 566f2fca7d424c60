-- ===== src/Memory/Brk/Grow.antt =====
-- The growing loop of `SetKernelBrk`.
use yalnix_os_project.Base.{ℕ, zero, suc, ◌+◌, ◌-◌, ◌≤◌, ◌<◌, ◌≡◌, refl, ◌≢◌, ◌⊎◌, Option, arith}
use yalnix_os_project.Machine.{Status, success, error, max_pt_len, null}
use yalnix_os_project.Memory.State.{Memory, Frames, frame_free, frame_used}
use yalnix_os_project.Memory.Frames.{alloc_frame}
use yalnix_os_project.Memory.Frames.Alloc.{
  Allocates, exhausted, allocated, with_byte, alloc_frame-Allocates,
}
use yalnix_os_project.Memory.Frames.Count.{free_frames, count_free-used, count_free-none}
use yalnix_os_project.Memory.Paging.Laws.{map_page_in}
use yalnix_os_project.Memory.Brk.{read_write, map_frame, grow_page, grow_loop, and_then}
use yalnix_os_project.Memory.Brk.Owned.{entry, Owned, with_page, with_page-Owned}

-- One round: no frame is left and nothing changes, or the page gets a free frame.
pub data GrowsPage (m : Memory) (v : ℕ) : Status × Memory → Type 0 where
  no_frame : free_frames m.frames ≡ 0 → GrowsPage m v (error, m)
  grown :
      (p : ℕ)
      → p < m.frames.total_frames
      → m.frames.bitmap p ≡ frame_free
      → GrowsPage m v (success, with_page m v p read_write)

map_frame-GrowsPage :
    (m : Memory) (v : ℕ) (r : Option ℕ × Frames)
    → m.region0_page_table ≢ null
    → v < max_pt_len
    → Allocates m.frames 0 r
    → GrowsPage m v (map_frame v r m)
unfolding map_frame
map_frame-GrowsPage m v r root h (exhausted full) =
    no_frame (count_free-none m.frames m.frames.total_frames full)
map_frame-GrowsPage m v r root h (allocated p lt ge free first) =
    rw
      (map_page_in m.region0_page_table v p read_write
        (record m { frames = with_byte m.frames p frame_used }) root h lt)
      (grown p lt free)

grow_page-GrowsPage :
    (m : Memory) (v : ℕ)
    → m.region0_page_table ≢ null
    → v < max_pt_len
    → GrowsPage m v (grow_page v m)
unfolding grow_page
grow_page-GrowsPage m v root h =
    map_frame-GrowsPage m v (alloc_frame m.frames) root h (alloc_frame-Allocates m.frames)

-- What any number of rounds over the pages `[low, high)` leaves alone, and the invariant.
pub record Grown (m : Memory) (low high : ℕ) (m' : Memory) : Type 0 where
  pub rest : m' ≡ record m { frames = m'.frames; tables = m'.tables }
  pub total : m'.frames.total_frames ≡ m.frames.total_frames
  pub kept : (v : ℕ) → (v < low) ⊎ (high ≤ v) → entry m' v ≡ entry m v
  pub others : (a : ℕ) → a ≢ m.region0_page_table → m'.tables a ≡ m.tables a
  pub owned : Owned m'

-- The loop maps every page, each to a frame of its own, or it runs out of frames.
pub data GrowsTo (m : Memory) (low high : ℕ) : Status × Memory → Type 0 where
  reached :
      {m' : Memory}
      → Grown m low high m'
      → ((v : ℕ) → low ≤ v → v < high → ((entry m' v).valid ≡ 1) × ((entry m' v).prot ≡ read_write))
      → free_frames m'.frames + (high - low) ≡ free_frames m.frames
      → GrowsTo m low high (success, m')
  short :
      {m' : Memory}
      → Grown m low high m'
      → free_frames m'.frames ≡ 0
      → free_frames m.frames < high - low
      → GrowsTo m low high (error, m')

Grown-page :
    (m : Memory) (v high p : ℕ) (m' : Memory)
    → v < high
    → Grown (with_page m v p read_write) (v + 1) high m'
    → Grown m v high m'
Grown-page m v high p m' h g = record {
  rest = g.rest;
  total = g.total;
  kept = λ w out. ground (arith, g.kept w);
  others = λ a ne. ground (arith, g.others a ne);
  owned = g.owned;
}

GrowsTo-page :
    (m : Memory) (v high p : ℕ) (r : Status × Memory)
    → v < high
    → p < m.frames.total_frames
    → m.frames.bitmap p ≡ frame_free
    → GrowsTo (with_page m v p read_write) (v + 1) high r
    → GrowsTo m v high r
GrowsTo-page m v high p r h lt free (reached {m'} g pages count) =
    reached (Grown-page m v high p m' h g) (λ w hl hh. ground (arith, pages w, g.kept w))
      (omega (arith, count_free-used m.frames.bitmap p m.frames.total_frames lt free))
GrowsTo-page m v high p r h lt free (short {m'} g none_left few) =
    short (Grown-page m v high p m' h g) none_left
      (omega (arith, count_free-used m.frames.bitmap p m.frames.total_frames lt free))

Grown-refl : (m : Memory) (low high : ℕ) → Owned m → Grown m low high m
Grown-refl m low high o = record {
  rest = refl;
  total = refl;
  kept = λ v out. refl;
  others = λ a ne. refl;
  owned = o;
}

-- One round, with what the later rounds do as an argument.
GrowsTo-round :
    (m : Memory) (v high : ℕ) (next : Memory → Status × Memory) (r : Status × Memory)
    → v < high
    → Owned m
    → ((m' : Memory)
        → m'.region0_page_table ≡ m.region0_page_table
        → Owned m'
        → GrowsTo m' (v + 1) high (next m'))
    → GrowsPage m v r
    → GrowsTo m v high (and_then r next)
GrowsTo-round m v high next r h o later (no_frame none_left) =
    short (Grown-refl m v high o) none_left (omega arith)
GrowsTo-round m v high next r h o later (grown p lt free) =
    GrowsTo-page m v high p _ h lt free
      (later (with_page m v p read_write) refl (with_page-Owned m o v p read_write lt free))

pub grow_loop-GrowsTo :
    (rounds v high : ℕ) (m : Memory)
    → v + rounds ≡ high
    → high ≤ max_pt_len
    → m.region0_page_table ≢ null
    → Owned m
    → GrowsTo m v high (grow_loop rounds v m)
unfolding grow_loop
grow_loop-GrowsTo zero v high m e top root o =
    reached (Grown-refl m v high o) (λ w hl hh. absurd (omega arith)) (omega arith)
grow_loop-GrowsTo (suc rounds) v high m e top root o =
    GrowsTo-round m v high (λ m'. grow_loop rounds (v + 1) m') (grow_page v m) (omega arith) o
      (λ m' same o'. grow_loop-GrowsTo rounds (v + 1) high m' (omega arith) top (rw same root) o')
      (grow_page-GrowsPage m v root (omega arith))
