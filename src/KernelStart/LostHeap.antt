-- ===== src/KernelStart/LostHeap.antt =====
-- The heap that `CreateIdleProcess` asks for is not mapped when virtual memory goes on.
use mathlib.Core.Path.{subst}
use yalnix_os_project.Base.{ℕ, ◌≤◌, ◌<◌, ◌≡◌, false, ◌∷◌, arith}
use yalnix_os_project.Machine.{UserContext, max_pt_len, min_pmem_size, vector_base}
use yalnix_os_project.Panic.{ok}
use yalnix_os_project.Memory.State.{Memory}
use yalnix_os_project.Memory.Frames.{kstack_first_page}
use yalnix_os_project.Memory.Brk.Owned.{entry, Mapped}
use yalnix_os_project.Memory.Region0.Build.{IsLaidOut, boot_entry}
use yalnix_os_project.Kernel.{Kernel, Platform}
use yalnix_os_project.KernelStart.{kernel_start}
use yalnix_os_project.KernelStart.Idle.{IsReliable}
use yalnix_os_project.KernelStart.Running.{Booted, kernel_start-Booted}

-- Every page of the heap up to the requested break is mapped.
abbrev pub HeapMapped : Platform → Memory → Type 0
HeapMapped p m =
    (v : ℕ) → p.layout.orig_kernel_brk_page ≤ v → v < m.requested_kernel_brk_page → Mapped m v

unmapped_request :
    (p : Platform) (m : Memory)
    → IsLaidOut p.layout
    → p.layout.orig_kernel_brk_page ≤ m.kernel_brk_page
    → m.kernel_brk_page < m.requested_kernel_brk_page
    → m.requested_kernel_brk_page ≤ kstack_first_page
    → ((v : ℕ) → v < max_pt_len → entry m v ≡ boot_entry p.layout m.kernel_brk_page v)
    → ¬ (HeapMapped p m)
unfolding boot_entry
unmapped_request p m laid low more top entries all =
    ground
      (arith, all m.kernel_brk_page, entries m.kernel_brk_page, laid.text_le_data, laid.data_le_brk)

-- A boot that ends with the requested break above the kernel break, because the heap grew after
-- SyncKernelBrkBeforeVM, leaves a page of the granted heap unmapped.
pub kernel_start_loses_heap :
    (p : Platform) (pmem_size : ℕ) (u : UserContext) (k : Kernel) (r : Kernel × UserContext)
    → IsLaidOut p.layout
    → IsReliable p.heap
    → min_pmem_size ≤ pmem_size
    → k.memory.vm_enabled ≡ false
    → kernel_start p pmem_size u k ≡ ok r
    → r.0.memory.kernel_brk_page < r.0.memory.requested_kernel_brk_page
    → r.0.memory.requested_kernel_brk_page ≤ kstack_first_page
    → ¬ (HeapMapped p r.0.memory)
kernel_start_loses_heap p pmem_size u k r laid h big off run more top =
    let (out, run', booted) = kernel_start-Booted p pmem_size u k laid h big off in
    let same : out ≡ r = cc in
    let b : Booted p u ((vector_base, p.trap_vector_address) ∷ k.memory.writes) r.0 r.1 =
      subst
        (λ (x : Kernel × UserContext).
          Booted p u ((vector_base, p.trap_vector_address) ∷ k.memory.writes) x.0 x.1)
        same booted in
    unmapped_request p r.0.memory laid b.running.low more top b.region0
