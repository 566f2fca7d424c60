-- ===== src/Memory/Frames/Count.antt =====
-- How many frames are free, and how allocation and release change that number.
use yalnix_os_project.Base.{
  ℕ, zero, suc, ◌+◌, ◌≤◌, ◌<◌, ◌≡◌, refl, ◌≢◌, Option, none, some, arith, update, if◌then◌else◌,
  ◌==◌,
}
use yalnix_os_project.Base.Int.{pos}
use yalnix_os_project.Memory.State.{Frames, frame_free, frame_used}
use yalnix_os_project.Memory.Frames.{alloc_frame, free_frame}
use yalnix_os_project.Memory.Frames.Alloc.{
  Allocates, exhausted, allocated, NoneFree, alloc_frame-Allocates, free_frame_in,
}

-- The free frames below `n`.
unfoldable pub count_free : (ℕ → ℕ) → ℕ → ℕ
count_free bitmap zero = 0
count_free bitmap (suc n) = count_free bitmap n + (if bitmap n == frame_free then 1 else 0)

abbrev pub free_frames : Frames → ℕ
free_frames s = count_free s.bitmap s.total_frames

count_free-outside :
    (bitmap : ℕ → ℕ) (p v n : ℕ) → n ≤ p → count_free (update bitmap p v) n ≡ count_free bitmap n
unfolding count_free
count_free-outside bitmap p v zero h = refl
count_free-outside bitmap p v (suc n) h = ground (arith, count_free-outside bitmap p v n)

pub count_free-used :
    (bitmap : ℕ → ℕ) (p n : ℕ)
    → p < n
    → bitmap p ≡ frame_free
    → count_free (update bitmap p frame_used) n + 1 ≡ count_free bitmap n
unfolding count_free
count_free-used bitmap p zero h e = absurd (omega arith)
count_free-used bitmap p (suc n) h e =
    ground (arith, count_free-used bitmap p n, count_free-outside bitmap p frame_used n)

pub count_free-free :
    (bitmap : ℕ → ℕ) (p n : ℕ)
    → p < n
    → bitmap p ≢ frame_free
    → count_free (update bitmap p frame_free) n ≡ count_free bitmap n + 1
unfolding count_free
count_free-free bitmap p zero h e = absurd (omega arith)
count_free-free bitmap p (suc n) h e =
    ground (arith, count_free-free bitmap p n, count_free-outside bitmap p frame_free n)

pub count_free-none : (s : Frames) (n : ℕ) → NoneFree s 0 n → count_free s.bitmap n ≡ 0
unfolding count_free
count_free-none s zero full = refl
count_free-none s (suc n) full = ground (
  arith,
  count_free-none s n (λ i h k. full i h (omega arith)),
  full n (omega arith) (omega arith),
)

-- The outcome of an allocation against the number of free frames.
abbrev pub Taken : Frames → Option ℕ × Frames → Type 0
Taken s (none, t) = (free_frames s ≡ 0) × (t ≡ s)
Taken s (some p, t) =
    (p < s.total_frames) × (free_frames t + 1 ≡ free_frames s) × (t.total_frames ≡ s.total_frames)

Allocates-Taken : (s : Frames) (r : Option ℕ × Frames) → Allocates s 0 r → Taken s r
Allocates-Taken s r (exhausted full) = (count_free-none s s.total_frames full, refl)
Allocates-Taken s r (allocated p lt ge free first) =
    (lt, count_free-used s.bitmap p s.total_frames lt free, refl)

-- AllocFrame fails only when the number of free frames is zero, and otherwise lowers it by one.
pub alloc_frame-Taken : (s : Frames) → Taken s (alloc_frame s)
alloc_frame-Taken s = Allocates-Taken s (alloc_frame s) (alloc_frame-Allocates s)

-- Freeing a real frame that is in use raises the number of free frames by one.
pub free_frames-free_frame :
    (s : Frames) (p : ℕ)
    → p < s.total_frames
    → s.bitmap p ≢ frame_free
    → free_frames (free_frame (pos p) s) ≡ free_frames s + 1
free_frames-free_frame s p lt busy =
    rw (free_frame_in s p lt) (count_free-free s.bitmap p s.total_frames lt busy)
