-- ===== src/Memory/Brk/Shrink.antt =====
-- The shrinking loop of `SetKernelBrk`.
use yalnix_os_project.Base.{
  ℕ, ◌+◌, ◌-◌, ◌≤◌, ◌<◌, ◌≡◌, refl, ap, false, ◌≢◌, ◌⊎◌, inl, inr, ◌==◌, Bool-cases, arith,
}
use yalnix_os_project.Base.Loops.{for_range, for_range_inv}
use yalnix_os_project.Machine.{max_pt_len}
use yalnix_os_project.Memory.State.{Memory}
use yalnix_os_project.Memory.Frames.Alloc.{free_frame_in}
use yalnix_os_project.Memory.Frames.Count.{free_frames, count_free-free}
use yalnix_os_project.Memory.Paging.{clear_pte, empty_pte}
use yalnix_os_project.Memory.Brk.{shrink_page}
use yalnix_os_project.Memory.Brk.Owned.{entry, Mapped, Owned, without_page, without_page-Owned}

shrink_page-without_page :
    (m : Memory) (v : ℕ) → v < max_pt_len → Owned m → shrink_page v m ≡ without_page m v
unfolding shrink_page clear_pte
shrink_page-without_page m v h o = elim (Bool-cases ((entry m v).valid == 0)) [
  | inl empty ↦ rw empty
  | inr full ↦ rw (full, free_frame_in m.frames (entry m v).pfn (o.in_use v h (ground arith)).0)
]

-- The pages `[low, high)` are unmapped, their frames are free again, and the rest is as it was.
pub record Shrunk (m : Memory) (low high : ℕ) (m' : Memory) : Type 0 where
  pub rest : m' ≡ record m { frames = m'.frames; tables = m'.tables }
  pub total : m'.frames.total_frames ≡ m.frames.total_frames
  pub kept : (v : ℕ) → (v < low) ⊎ (high ≤ v) → entry m' v ≡ entry m v
  pub cleared : (v : ℕ) → low ≤ v → v < high → entry m' v ≡ empty_pte
  pub others : (a : ℕ) → a ≢ m.region0_page_table → m'.tables a ≡ m.tables a
  pub count : free_frames m'.frames ≡ free_frames m.frames + (high - low)
  pub owned : Owned m'

Shrunk-page :
    (m : Memory) (low v : ℕ) (m' : Memory)
    → low ≤ v
    → v < max_pt_len
    → Mapped m v
    → Shrunk m low v m'
    → Shrunk m low (v + 1) (shrink_page v m')
Shrunk-page m low v m' l h k s = rw (shrink_page-without_page m' v h s.owned) (
    let root : m'.region0_page_table ≡ m.region0_page_table =
      ap (λ (t : Memory). t.region0_page_table) s.rest in
    let full : ((entry m' v).valid == 0) ≡ false = ground (arith, s.kept v) in
    record {
      rest =
          ap
            (λ (t : Memory). record t {
              frames = (without_page m' v).frames;
              tables = (without_page m' v).tables;
            })
            s.rest;
      total = ground (arith, s.total);
      kept = λ w out. ground (arith, s.kept w);
      cleared = λ w a b. ground (arith, s.cleared w);
      others = λ a ne. ground (arith, s.others a);
      count = rw full (
          omega (
            arith,
            count_free-free m'.frames.bitmap (entry m' v).pfn m'.frames.total_frames
                (s.owned.in_use v h (ground arith)).0 (s.owned.in_use v h (ground arith)).1,
          ));
      owned = without_page-Owned m' v h s.owned;
    })

pub shrink_loop-Shrunk :
    (rounds low high : ℕ) (m : Memory)
    → low + rounds ≡ high
    → high ≤ max_pt_len
    → ((v : ℕ) → low ≤ v → v < high → Mapped m v)
    → Owned m
    → Shrunk m low high (for_range rounds low shrink_page m)
shrink_loop-Shrunk rounds low high m e top full o =
    for_range_inv (Shrunk m low) shrink_page rounds low high m e
      (λ v t l h s. Shrunk-page m low v t l (omega arith) (full v l h) s)
      (record {
        rest = refl;
        total = refl;
        kept = λ v out. refl;
        cleared = λ v a b. absurd (omega arith);
        others = λ a ne. refl;
        count = omega arith;
        owned = o;
      })
