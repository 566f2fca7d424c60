-- ===== src/Memory/Brk/Cost.antt =====
-- When `SetKernelBrk` succeeds, and what a failed call costs.
use yalnix_os_project.Base.{ℕ, ◌+◌, ◌≤◌, ◌<◌, ◌≡◌, ◌↔◌, refl, sym, ap, arith}
use yalnix_os_project.Machine.{Status, success, error}
use yalnix_os_project.Memory.State.{Memory, Layout}
use yalnix_os_project.Memory.Frames.Count.{free_frames}
use yalnix_os_project.Memory.Brk.{set_kernel_brk}
use yalnix_os_project.Memory.Brk.Moves.{Running, MovesBrk, moved, stuck}
use yalnix_os_project.Memory.Brk.Safety.{InRange, set_kernel_brk-Running, set_kernel_brk-MovesBrk}

MovesBrk-status :
    (m : Memory) (page : ℕ) (r : Status × Memory)
    → MovesBrk m page r
    → (r.0 ≡ success) ↔ (page ≤ m.kernel_brk_page + free_frames m.frames)
MovesBrk-status m page r (moved d) = (λ e. let c = d.frames in omega arith, λ h. refl)
MovesBrk-status m page r (stuck s) = (λ e. cc, λ h. let w = s.wanted in absurd (omega arith))

-- With virtual memory on, a request for a page in range succeeds exactly when the free frames
-- cover the pages between the break and it.
pub set_kernel_brk-status :
    (l : Layout) (addr page : ℕ) (m : Memory)
    → Running l m
    → InRange l addr page
    → ((set_kernel_brk l addr m).0 ≡ success) ↔ (page ≤ m.kernel_brk_page + free_frames m.frames)
set_kernel_brk-status l addr page m r range =
    MovesBrk-status m page (set_kernel_brk l addr m) (set_kernel_brk-MovesBrk l addr page m r range)

-- What a failed request leaves: an error, the break where it was, and no free frame.
record Failed (m : Memory) (r : Status × Memory) : Type 0 where
  status : r.0 ≡ error
  brk : (r.1).kernel_brk_page ≡ m.kernel_brk_page
  none_free : free_frames (r.1).frames ≡ 0

MovesBrk-Failed :
    (m : Memory) (page : ℕ) (r : Status × Memory)
    → m.kernel_brk_page + free_frames m.frames < page
    → MovesBrk m page r
    → Failed m r
MovesBrk-Failed m page r h (moved d) = let c = d.frames in absurd (omega arith)
MovesBrk-Failed m page r h (stuck s) = record {
  status = refl;
  brk = ap (λ (t : Memory). t.kernel_brk_page) s.rest;
  none_free = s.exhausted;
}

MovesBrk-same :
    (m : Memory) (page : ℕ) (r : Status × Memory)
    → page ≡ m.kernel_brk_page
    → MovesBrk m page r
    → (r.0 ≡ success) × (free_frames (r.1).frames ≡ free_frames m.frames)
MovesBrk-same m page r e (moved d) = let c = d.frames in (refl, omega arith)
MovesBrk-same m page r e (stuck s) = let w = s.wanted in absurd (omega arith)

-- With virtual memory on, a request in range for more pages than there are free frames fails,
-- leaves the break where it was and no frame free, and setting the break again to where it is
-- succeeds and gives no frame back.
pub failed_grow_leaks :
    (l : Layout) (addr page again : ℕ) (m : Memory)
    → Running l m
    → InRange l addr page
    → m.kernel_brk_page + free_frames m.frames < page
    → InRange l again m.kernel_brk_page
    → let failed = set_kernel_brk l addr m in
      let repeated = set_kernel_brk l again failed.1 in
      (failed.0 ≡ error)
      × ((failed.1).kernel_brk_page ≡ m.kernel_brk_page)
      × (free_frames (failed.1).frames ≡ 0)
      × (repeated.0 ≡ success)
      × (free_frames (repeated.1).frames ≡ 0)
failed_grow_leaks l addr page again m r range few range' =
    let f =
      MovesBrk-Failed m page (set_kernel_brk l addr m) few
        (set_kernel_brk-MovesBrk l addr page m r range) in
    let m' : Memory = (set_kernel_brk l addr m).1 in
    let back = MovesBrk-same m' m.kernel_brk_page (set_kernel_brk l again m') (sym f.brk) (
      set_kernel_brk-MovesBrk l again m.kernel_brk_page m' (set_kernel_brk-Running l addr m r)
        range') in
    (f.status, f.brk, f.none_free, back.0, omega (arith, back.1, f.none_free))
