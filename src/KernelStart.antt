-- ===== src/KernelStart.antt =====
-- kernelstart.c: the boot of the kernel.
pub mod Idle
pub mod Running
pub mod LostHeap
mod Tests
use yalnix_os_project.Base.{ℕ, true, ◌∷◌, ◌==◌, if◌then◌else◌}
use yalnix_os_project.Machine.{
  UserContext, Register, null, max_pt_len, tlb_flush_all, vector_base, vm_enable, tlb_flush, ptbr0,
  ptlr0, ptbr1, ptlr1,
}
use yalnix_os_project.Panic.{Outcome, ok, halted, ◌>>=◌, region0_missing, idle_missing}
use yalnix_os_project.Memory.State.{Memory}
use yalnix_os_project.Memory.Frames.{init_physical_memory}
use yalnix_os_project.Memory.Region0.{build_region0_page_table, sync_kernel_brk_before_vm}
use yalnix_os_project.Kernel.{Kernel, Platform}
use yalnix_os_project.Trap.{init_trap_vector}
use yalnix_os_project.Process.{init_process_system, create_idle_process}

abbrev pub write_register : Register → ℕ → Memory → Memory
write_register r value m = record m { writes = (r, value) ∷ m.writes }

-- The steps before the page tables: frames, process globals, trap vector.
pub prepare : Platform → ℕ → Kernel → Kernel
prepare p pmem_size k =
    let framed : Kernel = record k { memory = init_physical_memory p.layout pmem_size k.memory } in
    let processes = init_process_system framed in
    record processes {
      memory = write_register vector_base p.trap_vector_address processes.memory;
      trap_vector = init_trap_vector processes.trap_vector;
    }

-- The steps that turn virtual memory on, with the addresses of the two page tables.
pub enable_vm : ℕ → ℕ → Memory → Memory
enable_vm region0 region1 m =
    let m1 = write_register ptbr0 region0 m in
    let m2 = write_register ptlr0 max_pt_len m1 in
    let m3 = write_register ptbr1 region1 m2 in
    let m4 = write_register ptlr1 max_pt_len m3 in
    let m5 : Memory = record m4 { vm_enabled = true } in
    write_register tlb_flush tlb_flush_all (write_register vm_enable 1 m5)

-- The kernel and the context that control returns to.
pub enter_idle : ℕ → ℕ → Kernel → Kernel × UserContext
unfolding enable_vm
enter_idle region0 idle k = (
  record k { memory = enable_vm region0 (k.pcbs idle).region1_pt k.memory; current_process = idle },
  (k.pcbs idle).user_context,
)

-- `KernelStart` after `BuildRegion0PageTable` has returned.
pub start_idle : Platform → UserContext → Kernel → ℕ × Memory → Outcome (Kernel × UserContext)
start_idle p uctxt k (region0, m) = if region0 == null then halted region0_missing else do
  (idle, k') ←
      create_idle_process p uctxt (record k { memory = sync_kernel_brk_before_vm region0 m })
  if idle == null then halted idle_missing else ok (enter_idle region0 idle k')

unfoldable pub kernel_start : Platform → ℕ → UserContext → Kernel → Outcome (Kernel × UserContext)
kernel_start p pmem_size uctxt k =
    let k' = prepare p pmem_size k in
    build_region0_page_table p.layout p.heap k'.memory >>= start_idle p uctxt k'
