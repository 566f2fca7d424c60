-- ===== src/Memory/Brk/Range.antt =====
-- Which addresses `SetKernelBrk` refuses.
use yalnix_os_project.Base.{ℕ, ◌+◌, ◌-◌, ◌*◌, ◌/◌, ◌≤◌, ◌<◌, ◌≡◌, ◌⊎◌, false, arith}
use yalnix_os_project.Machine.{success, error, page_size, word}
use yalnix_os_project.Memory.State.{Memory, Layout}
use yalnix_os_project.Memory.Frames.{kstack_first_page}
use yalnix_os_project.Memory.Paging.{addr_to_vpn}
use yalnix_os_project.Memory.Brk.{set_kernel_brk}

-- SetKernelBrk refuses every 32-bit address that rounds up below the original break (which is not
-- page 0) or to the kernel stack and beyond, also where the rounding wraps or turns negative, and
-- changes nothing.
pub set_kernel_brk_refuses :
    (l : Layout) (addr : ℕ) (m : Memory)
    → addr < word
    → 0 < l.orig_kernel_brk_page
    → (addr ≤ (l.orig_kernel_brk_page - 1) * page_size)
      ⊎ ((kstack_first_page - 1) * page_size < addr)
    → set_kernel_brk l addr m ≡ (error, m)
unfolding set_kernel_brk addr_to_vpn
set_kernel_brk_refuses l addr m w o out = ground arith

-- Before virtual memory is on, a request in range succeeds and only records the page of the
-- address as the requested break.
pub set_kernel_brk_before_vm :
    (l : Layout) (addr : ℕ) (m : Memory)
    → (l.orig_kernel_brk_page - 1) * page_size < addr
    → addr ≤ (kstack_first_page - 1) * page_size
    → m.vm_enabled ≡ false
    → set_kernel_brk l addr m
      ≡ (success, record m { requested_kernel_brk_page = (addr + (page_size - 1)) / page_size })
unfolding set_kernel_brk addr_to_vpn
set_kernel_brk_before_vm l addr m lo hi off = ground arith
