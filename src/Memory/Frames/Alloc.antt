-- ===== src/Memory/Frames/Alloc.antt =====
-- What `AllocFrame` and `FreeFrame` do to the bitmap.
use yalnix_os_project.Base.{
  ℕ, zero, suc, ◌+◌, ◌≤◌, ◌<◌, ◌≡◌, refl, ap, ◌≢◌, inl, inr, Bool-cases, Option, none, some, arith,
  update, ℕ_discrete, ◌==◌,
}
use yalnix_os_project.Base.Int.{pos}
use yalnix_os_project.Memory.State.{Frames, frame_free, frame_used}
use yalnix_os_project.Memory.Frames.{
  mark_frame_used, mark_frame_free, is_frame_free, alloc_from, alloc_frame, free_frame,
}

-- The bitmap with one byte written.
abbrev pub with_byte : Frames → ℕ → ℕ → Frames
with_byte s p v = record s { bitmap = update s.bitmap p v }

pub mark_frame_used_in :
    (s : Frames) (p : ℕ) → p < s.total_frames → mark_frame_used (pos p) s ≡ with_byte s p frame_used
unfolding mark_frame_used
mark_frame_used_in s p h = ground arith

pub free_frame_in :
    (s : Frames) (p : ℕ) → p < s.total_frames → free_frame (pos p) s ≡ with_byte s p frame_free
unfolding free_frame mark_frame_free
free_frame_in s p h = ground arith

pub is_frame_free_in :
    (s : Frames) (p : ℕ) → p < s.total_frames → is_frame_free (pos p) s ≡ (s.bitmap p == frame_free)
unfolding is_frame_free
is_frame_free_in s p h = ground arith

-- Every frame from `low` up to `high` is in use.
abbrev pub NoneFree : Frames → ℕ → ℕ → Type 0
NoneFree s low high = (i : ℕ) → low ≤ i → i < high → s.bitmap i ≢ frame_free

-- The outcomes of a search from `low` on: the first free frame, marked, or nothing at all.
pub data Allocates (s : Frames) (low : ℕ) : Option ℕ × Frames → Type 0 where
  exhausted : NoneFree s low s.total_frames → Allocates s low (none, s)
  allocated :
      (p : ℕ)
      → p < s.total_frames
      → low ≤ p
      → s.bitmap p ≡ frame_free
      → NoneFree s low p
      → Allocates s low (some p, with_byte s p frame_used)

NoneFree-back :
    (s : Frames) (low high : ℕ)
    → s.bitmap low ≢ frame_free
    → NoneFree s (low + 1) high
    → NoneFree s low high
NoneFree-back s low high busy later i h k = elim (ℕ_discrete i low) [
  | yes e ↦ rw e busy
  | no ne ↦ later i (omega arith) k
]

Allocates-back :
    (s : Frames) (low : ℕ) (r : Option ℕ × Frames)
    → s.bitmap low ≢ frame_free
    → Allocates s (low + 1) r
    → Allocates s low r
Allocates-back s low r busy (exhausted full) =
    exhausted (NoneFree-back s low s.total_frames busy full)
Allocates-back s low r busy (allocated p lt ge free first) =
    allocated p lt (omega arith) free (NoneFree-back s low p busy first)

alloc_from-Allocates :
    (rounds pfn : ℕ) (s : Frames)
    → pfn + rounds ≡ s.total_frames
    → Allocates s pfn (alloc_from rounds pfn s)
unfolding alloc_from
alloc_from-Allocates zero pfn s e = exhausted (λ i h k. absurd (omega arith))
alloc_from-Allocates (suc rounds) pfn s e = elim (Bool-cases (s.bitmap pfn == frame_free)) [
  | inl free ↦
      rw (is_frame_free_in s pfn (omega arith), free, mark_frame_used_in s pfn (omega arith))
        (allocated pfn (omega arith) (omega arith) (ground arith) (λ i h k. absurd (omega arith)))
  | inr busy ↦
      rw (is_frame_free_in s pfn (omega arith), busy)
        (Allocates-back s pfn _ (ground arith)
          (alloc_from-Allocates rounds (pfn + 1) s (omega arith)))
]

-- AllocFrame returns the first free frame and marks exactly that one, or fails without a change
-- when no frame is free.
pub alloc_frame-Allocates : (s : Frames) → Allocates s 0 (alloc_frame s)
unfolding alloc_frame
alloc_frame-Allocates s = alloc_from-Allocates s.total_frames 0 s (omega arith)

free-Allocates :
    (s : Frames) (r : Option ℕ × Frames) (p : ℕ) (t : Frames)
    → Allocates s 0 r
    → r ≡ (some p, t)
    → ((free_frame (pos p) t).total_frames ≡ s.total_frames)
      × ((i : ℕ) → (free_frame (pos p) t).bitmap i ≡ s.bitmap i)
free-Allocates s r p t (exhausted full) e = cc
free-Allocates s r p t (allocated q lt ge free first) e =
    let same : q ≡ p = cc in
    let left : with_byte s q frame_used ≡ t = ap (λ (x : Option ℕ × Frames). x.1) e in
    rw (← same, ← left, free_frame_in (with_byte s q frame_used) q lt) (refl, λ i. ground arith)

-- Freeing the frame that AllocFrame has just given restores the number of frames and every byte of
-- the bitmap.
pub free_frame-alloc_frame :
    (s : Frames) (p : ℕ) (t : Frames)
    → alloc_frame s ≡ (some p, t)
    → ((free_frame (pos p) t).total_frames ≡ s.total_frames)
      × ((i : ℕ) → (free_frame (pos p) t).bitmap i ≡ s.bitmap i)
free_frame-alloc_frame s p t e = free-Allocates s (alloc_frame s) p t (alloc_frame-Allocates s) e
