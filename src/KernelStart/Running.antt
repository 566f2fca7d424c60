-- ===== src/KernelStart/Running.antt =====
-- The boot from end to end, on a heap that does not run out.
use yalnix_os_project.Base.{
  ℕ, ◌-◌, ◌≤◌, ◌<◌, ◌≡◌, ◌≢◌, refl, ap, ◌∙◌, false, List, ◌∷◌, some, ◌==◌, update_same, arith,
}
use yalnix_os_project.Machine.{
  UserContext, Register, null, max_pt_len, min_pmem_size, vmem_1_limit, tlb_flush_all, vector_base,
  vm_enable, tlb_flush, ptbr0, ptlr0, ptbr1, ptlr1,
}
use yalnix_os_project.Panic.{ok}
use yalnix_os_project.Memory.State.{Memory, frame_free}
use yalnix_os_project.Memory.Frames.{init_physical_memory}
use yalnix_os_project.Memory.Paging.{mapping, empty_pte}
use yalnix_os_project.Memory.Brk.{read_write}
use yalnix_os_project.Memory.Brk.Owned.{Owned, entry, Mapped}
use yalnix_os_project.Memory.Brk.Moves.{Running}
use yalnix_os_project.Memory.Malloc.{malloc}
use yalnix_os_project.Memory.Region0.{page_table_size, sync_kernel_brk_before_vm}
use yalnix_os_project.Memory.Region0.Build.{IsLaidOut, boot_entry}
use yalnix_os_project.Memory.Boot.{Booting, init_physical_memory-Booting}
use yalnix_os_project.Memory.Boot.Tables.{
  HasRegion0, built, build_region0_page_table-built, built-HasRegion0, sync-HasRegion0,
}
use yalnix_os_project.Memory.Boot.Later.{built-brk, HasRegion0-Owned, HasRegion0-heap}
use yalnix_os_project.Kernel.{Kernel, Pcb, Platform}
use yalnix_os_project.Trap.{trap_vector_size}
use yalnix_os_project.Trap.Dispatch.{handler_of, init_trap_vector-slots}
use yalnix_os_project.Process.{init_process_system, install_idle, idle_pcb, pointer_size}
use yalnix_os_project.Process.Idle.{
  with_stack, with_stack-entry, with_stack-Owned, with_stack-apart,
}
use yalnix_os_project.KernelStart.{prepare, enable_vm, enter_idle, start_idle, kernel_start}
use yalnix_os_project.KernelStart.Idle.{
  IsReliable, IdleBuilt, create_idle_process_lem, malloc-answers,
}

-- The state in which the boot hands control to the idle process.
pub record Booted (p : Platform) (uctxt : UserContext) (writes : List (Register × ℕ)) (k : Kernel)
    (u : UserContext) : Type 0 where
  pub running : Running p.layout k.memory
  pub region0 :
      (v : ℕ) → v < max_pt_len → entry k.memory v ≡ boot_entry p.layout k.memory.kernel_brk_page v
  pub current : k.current_process ≡ k.idle_process
  pub context : u ≡ record uctxt { pc = p.do_idle_address; sp = vmem_1_limit - pointer_size }
  pub stack_frame : ℕ
  pub stack :
      k.memory.tables (k.pcbs k.current_process).region1_pt (max_pt_len - 1)
      ≡ mapping stack_frame read_write
  pub others :
      (v : ℕ)
      → v < max_pt_len - 1
      → k.memory.tables (k.pcbs k.current_process).region1_pt v ≡ empty_pte
  pub stack_used :
      (stack_frame < k.memory.frames.total_frames)
      × (k.memory.frames.bitmap stack_frame ≢ frame_free)
  pub isolated : (v : ℕ) → v < max_pt_len → Mapped k.memory v → (entry k.memory v).pfn ≢ stack_frame
  pub handlers : (v : ℕ) → v < trap_vector_size → k.trap_vector v ≡ some (handler_of v)
  pub registers :
      k.memory.writes
      ≡ (tlb_flush, tlb_flush_all)
        ∷ (vm_enable, 1)
        ∷ (ptlr1, max_pt_len)
        ∷ (ptbr1, (k.pcbs k.current_process).region1_pt)
        ∷ (ptlr0, max_pt_len)
        ∷ (ptbr0, k.memory.region0_page_table)
        ∷ writes

-- The last steps, from a built idle process.
module _ (p : Platform) (u : UserContext) (k : Kernel) (pt idle table frame : ℕ)
    (w : List (Register × ℕ)) (m : Memory) (laid : IsLaidOut p.layout)
    (handlers : (v : ℕ) → v < trap_vector_size → k.trap_vector v ≡ some (handler_of v))
    (b : IdleBuilt p.layout pt w frame table m) where
  final : Kernel × UserContext
  unfolding install_idle idle_pcb enable_vm enter_idle
  final = enter_idle pt idle (install_idle p idle table u k (with_stack table frame m)).1

  o : Owned m
  o = HasRegion0-Owned p.layout pt w m laid b.region0

  apart : table ≢ m.region0_page_table
  apart = rw b.region0.root b.apart

  final_pcb : final.0.pcbs idle ≡ idle_pcb p table u
  unfolding final
  final_pcb = update_same k.pcbs idle (idle_pcb p table u)

  final-Running : Running p.layout final.0.memory
  unfolding final
  final-Running =
      let s = with_stack-Owned table frame m o apart b.real b.unused in
      let same = with_stack-entry table frame m o apart b.real b.unused in
      let r = b.region0 in
      record {
        on = refl;
        root = rw r.root r.set;
        low = r.booting.brk_low;
        high = let h = r.booting.brk_high in omega arith;
        heap = λ v lo hi. rw (same v) (HasRegion0-heap p.layout pt w m laid r v lo hi);
        owned = record { bounded = s.bounded; in_use = s.in_use; distinct = s.distinct };
      }

  final-Booted : Booted p u w final.0 final.1
  unfolding final
  final-Booted =
      let r = b.region0 in
      let same = with_stack-entry table frame m o apart b.real b.unused in
      record {
        running = final-Running;
        region0 = λ v h. rw (same v, r.root) (r.entries v h);
        current = refl;
        context = ap (λ (x : Pcb). x.user_context) final_pcb;
        stack_frame = frame;
        stack = rw final_pcb (ground arith);
        others = λ v h. rw final_pcb (ground (arith, b.cleared v));
        stack_used = ground (arith, b.real);
        isolated = with_stack-apart table frame m o apart b.real b.unused;
        handlers = handlers;
        registers = rw (final_pcb, r.written, r.root);
      }

prepare-Booting :
    (p : Platform) (pmem_size : ℕ) (k : Kernel)
    → IsLaidOut p.layout
    → min_pmem_size ≤ pmem_size
    → k.memory.vm_enabled ≡ false
    → Booting p.layout (prepare p pmem_size k).memory
unfolding prepare init_process_system
prepare-Booting p pmem_size k laid big off =
    let b = init_physical_memory-Booting p.layout pmem_size k.memory laid big off in
    record {
      off = b.off;
      enough = b.enough;
      bounded = b.bounded;
      brk_low = b.brk_low;
      brk_high = b.brk_high;
      requested_low = b.requested_low;
      requested_high = b.requested_high;
      bytes = b.bytes;
    }

prepare_writes :
    (p : Platform) (pmem_size : ℕ) (k : Kernel)
    → (prepare p pmem_size k).memory.writes ≡ (vector_base, p.trap_vector_address) ∷ k.memory.writes
unfolding prepare init_process_system init_physical_memory
prepare_writes p pmem_size k = refl

prepare_brk :
    (p : Platform) (pmem_size : ℕ) (k : Kernel)
    → (prepare p pmem_size k).memory.kernel_brk_page ≡ p.layout.orig_kernel_brk_page
unfolding prepare init_process_system init_physical_memory
prepare_brk p pmem_size k = refl

prepare_handlers :
    (p : Platform) (pmem_size : ℕ) (k : Kernel) (v : ℕ)
    → v < trap_vector_size
    → (prepare p pmem_size k).trap_vector v ≡ some (handler_of v)
unfolding prepare init_process_system
prepare_handlers p pmem_size k v h = ground (arith, init_trap_vector-slots k.trap_vector v)

-- From the boot's table to the idle process.
start_idle-Booted :
    (p : Platform) (u : UserContext) (k : Kernel) (pt : ℕ) (w : List (Register × ℕ)) (m : Memory)
    → IsLaidOut p.layout
    → IsReliable p.heap
    → ((v : ℕ) → v < trap_vector_size → k.trap_vector v ≡ some (handler_of v))
    → m.kernel_brk_page ≡ p.layout.orig_kernel_brk_page
    → HasRegion0 p.layout pt w m
    → (r : Kernel × UserContext) × (start_idle p u k (pt, m) ≡ ok r) × Booted p u w r.0 r.1
unfolding start_idle final
start_idle-Booted p u k pt w m laid h handlers brk r =
    let low = r.booting.requested_low in
    let s : Memory = sync_kernel_brk_before_vm pt m in
    let k' : Kernel = record k { memory = s } in
    let synced = sync-HasRegion0 p.layout pt w m laid (omega arith) r in
    let (idle, table, frame, m', built, set, run) = create_idle_process_lem p u k' pt w h synced in
    let root : (pt == null) ≡ false = let ne = r.set in ground arith in
    let new : (idle == null) ≡ false = ground arith in
    (
      final p u k' pt idle table frame w m' laid handlers built,
      rw (root, run, new),
      final-Booted p u k' pt idle table frame w m' laid handlers built,
    )

-- On a machine with at least the least memory, a kernel laid out in order and a heap that never
-- returns NULL nor the block of the region 0 table, KernelStart does not halt: it enters idle with
-- virtual memory on and the memory manager's invariant in force, region 0 mapped as the boot table
-- says, an idle stack page on a frame of its own, a handler for every trap, and the registers
-- written in order.
pub kernel_start-Booted :
    (p : Platform) (pmem_size : ℕ) (u : UserContext) (k : Kernel)
    → IsLaidOut p.layout
    → IsReliable p.heap
    → min_pmem_size ≤ pmem_size
    → k.memory.vm_enabled ≡ false
    → (r : Kernel × UserContext) × (kernel_start p pmem_size u k ≡ ok r)
      × Booted p u ((vector_base, p.trap_vector_address) ∷ k.memory.writes) r.0 r.1
unfolding kernel_start
kernel_start-Booted p pmem_size u k laid h big off =
    let k' : Kernel = prepare p pmem_size k in
    let b = prepare-Booting p pmem_size k laid big off in
    let ne = malloc-answers p.layout p.heap page_table_size k'.memory h in
    let pt : ℕ = (malloc p.layout p.heap page_table_size k'.memory).0 in
    let m : Memory = built p.layout p.heap k'.memory in
    let r = built-HasRegion0 p.layout p.heap k'.memory laid ne b in
    let brk = built-brk p.layout p.heap k'.memory laid ne b ∙ prepare_brk p pmem_size k in
    let (out, run, booted) =
      start_idle-Booted p u k' pt (k'.memory.writes) m laid h (prepare_handlers p pmem_size k) brk
        r in
    (
      out,
      rw (build_region0_page_table-built p.layout p.heap k'.memory ne) run,
      rw (← prepare_writes p pmem_size k) booted,
    )
