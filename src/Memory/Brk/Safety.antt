-- ===== src/Memory/Brk/Safety.antt =====
-- `SetKernelBrk` with virtual memory on: its invariant and its outcome on every branch.
use yalnix_os_project.Base.{ℕ, ◌≤◌, ◌<◌, ◌≡◌, refl, ◌⊎◌, inl, inr, true, dec_lt, arith}
use yalnix_os_project.Base.Int.{ℤ, pos, negsuc}
use yalnix_os_project.Machine.{error}
use yalnix_os_project.Memory.State.{Memory, Layout}
use yalnix_os_project.Memory.Frames.{kstack_first_page}
use yalnix_os_project.Memory.Paging.{addr_to_vpn}
use yalnix_os_project.Memory.Brk.{move_brk, set_kernel_brk}
use yalnix_os_project.Memory.Brk.Moves.{Running, MovesBrk, move_brk-MovesBrk, MovesBrk-Running}

-- The page of an address is one that the heap may end below.
abbrev pub InRange : Layout → ℕ → ℕ → Type 0
InRange l addr page =
    (addr_to_vpn addr ≡ pos page) × (l.orig_kernel_brk_page ≤ page) × (page < kstack_first_page)

page_cases :
    (l : Layout) (addr : ℕ) (m : Memory) (z : ℤ)
    → m.vm_enabled ≡ true
    → addr_to_vpn addr ≡ z
    → (set_kernel_brk l addr m ≡ (error, m))
      ⊎ ((page : ℕ) × InRange l addr page × (set_kernel_brk l addr m ≡ move_brk page m))
unfolding set_kernel_brk
page_cases l addr m (negsuc n) on e = ground arith
page_cases l addr m (pos n) on e = elim (dec_lt n l.orig_kernel_brk_page) [
  | yes low ↦ inl (ground arith)
  | no ge ↦ elim (dec_lt n kstack_first_page) [
    | yes lt ↦ inr (n, (e, omega arith, lt), ground arith)
    | no high ↦ inl (ground arith)
  ]
]

-- With virtual memory on, a call is refused or moves the break to the page of its address.
pub set_kernel_brk_cases :
    (l : Layout) (addr : ℕ) (m : Memory)
    → m.vm_enabled ≡ true
    → (set_kernel_brk l addr m ≡ (error, m))
      ⊎ ((page : ℕ) × InRange l addr page × (set_kernel_brk l addr m ≡ move_brk page m))
set_kernel_brk_cases l addr m on = page_cases l addr m (addr_to_vpn addr) on refl

pub set_kernel_brk-InRange :
    (l : Layout) (addr page : ℕ) (m : Memory)
    → m.vm_enabled ≡ true
    → InRange l addr page
    → set_kernel_brk l addr m ≡ move_brk page m
unfolding set_kernel_brk
set_kernel_brk-InRange l addr page m on (e, lo, hi) = ground arith

-- With virtual memory on, SetKernelBrk keeps the invariant for every address, whether it succeeds
-- or fails: the break is between the original break and the kernel stack, every heap page is
-- mapped, and region 0 maps frames that are real, in use and pairwise different.
pub set_kernel_brk-Running :
    (l : Layout) (addr : ℕ) (m : Memory) → Running l m → Running l (set_kernel_brk l addr m).1
set_kernel_brk-Running l addr m r = elim (set_kernel_brk_cases l addr m r.on) [
  | inl refused ↦ rw refused r
  | inr (page, (e, lo, hi), same) ↦
      rw same (MovesBrk-Running m page r lo hi _ (move_brk-MovesBrk m page r lo hi))
]

-- When the kernel runs with virtual memory on and its invariant holds, for an address whose page
-- is in range SetKernelBrk either moves the break there (new pages mapped read and write, old ones
-- cleared, all others unchanged, the count of free frames changed by exactly the number of pages,
-- region 0 flushed last) or runs out of frames (break unchanged, no frame free, pages outside the
-- request unchanged).
pub set_kernel_brk-MovesBrk :
    (l : Layout) (addr page : ℕ) (m : Memory)
    → Running l m
    → InRange l addr page
    → MovesBrk m page (set_kernel_brk l addr m)
set_kernel_brk-MovesBrk l addr page m r range =
    rw (set_kernel_brk-InRange l addr page m r.on range)
      (move_brk-MovesBrk m page r range.1 range.2)
