-- ===== src/KernelStart/Tests.antt =====
-- The boot of a small machine.
use yalnix_os_project.Base.{
  ℕ, ◌+◌, ◌*◌, ◌≡◌, refl, false, none, [], ◌∷◌, ◌==◌, if◌then◌else◌, arith,
}
use yalnix_os_project.Machine.{UserContext, vector_base, min_pmem_size, page_size}
use yalnix_os_project.Panic.{ok, halted, Outcome}
use yalnix_os_project.Memory.State.{Layout}
use yalnix_os_project.Memory.Malloc.{Heap}
use yalnix_os_project.Memory.Region0.Build.{IsLaidOut}
use yalnix_os_project.Kernel.{Kernel, Platform}
use yalnix_os_project.Process.{pcb_size}
use yalnix_os_project.KernelStart.{kernel_start, prepare, start_idle, enter_idle, enable_vm}
use yalnix_os_project.Base.Loops.{for_range}
use yalnix_os_project.Memory.Frames.{
  init_physical_memory, init_frames, mark_frames, cleared_frames, mark_frame_used, alloc_frame,
  is_frame_free,
}
use yalnix_os_project.Memory.Paging.{addr_to_vpn, clear_pte, map_page}
use yalnix_os_project.Memory.Brk.{set_kernel_brk}
use yalnix_os_project.Memory.Malloc.{malloc, set_breaks}
use yalnix_os_project.Memory.Region0.{
  build_region0_page_table, create_region1_page_table, fill_region0, clear_table, map_identity,
  sync_kernel_brk_before_vm, sync_page,
}
use yalnix_os_project.Process.{
  init_process_system, create_idle_process, map_idle_stack, idle_stack_mapped, install_idle,
}
use yalnix_os_project.KernelStart.Idle.{IsReliable}
use yalnix_os_project.KernelStart.Running.{Booted, kernel_start-Booted}
use yalnix_os_project.KernelStart.LostHeap.{HeapMapped, kernel_start_loses_heap}

abbrev layout : Layout
layout = record {
  first_kernel_text_page = 2;
  first_kernel_data_page = 4;
  orig_kernel_brk_page = 10;
}

layout-IsLaidOut : IsLaidOut layout
layout-IsLaidOut = omega arith

-- A heap with room: each block lies above the region 0 table.
abbrev roomy : Heap
roomy size m = record { breaks = []; block = m.region0_page_table + 0x1000 }

-- A heap that needs one more page for the process control block.
abbrev growing : Heap
growing size m = record {
  breaks = if size == pcb_size then (10 * page_size + 1) ∷ [] else [];
  block = m.region0_page_table + 0x1000;
}

roomy-IsReliable : IsReliable roomy
roomy-IsReliable = record { answers = λ size m. omega arith; fresh = λ size m. omega arith }

growing-IsReliable : IsReliable growing
growing-IsReliable = record { answers = λ size m. omega arith; fresh = λ size m. omega arith }

abbrev platform : Heap → Platform
platform heap = record {
  layout = layout;
  heap = heap;
  new_pid = λ pt. 1;
  do_idle_address = 0x5000;
  trap_vector_address = 0x9000;
}

abbrev context : UserContext
context = record { vector = 0; code = 0; addr = 0; pc = 0; sp = 0; ebp = 0; regs = λ i. 0 }

abbrev power_on : Kernel
power_on = record {
  memory = record {
    frames = record { total_frames = 0; bitmap = λ i. 0 };
    vm_enabled = false;
    region0_page_table = 0;
    kernel_brk_page = 0;
    requested_kernel_brk_page = 0;
    tables = λ pt v. record { valid = 1; prot = 7; pfn = 99 };
    writes = [];
  };
  current_process = 77;
  idle_process = 77;
  pcbs =
      λ a. record { pid = 0; region1_pt = 0; user_context = context; kernel_stack_pages = λ i. 0 };
  trap_vector = λ v. none;
}

kernel_start-Booted_example :
    (r : Kernel × UserContext) × (kernel_start (platform roomy) min_pmem_size context power_on
      ≡ ok r)
    × Booted (platform roomy) context ((vector_base, 0x9000) ∷ []) r.0 r.1
kernel_start-Booted_example =
    kernel_start-Booted (platform roomy) min_pmem_size context power_on layout-IsLaidOut
      roomy-IsReliable (omega arith) refl

-- The result of a boot that does not halt.
abbrev result_of : Outcome (Kernel × UserContext) → Kernel × UserContext
result_of (ok r) = r
result_of (halted e) = (power_on, context)

abbrev grown : Kernel × UserContext
grown = result_of (kernel_start (platform growing) min_pmem_size context power_on)

-- Names the steps that a run of the boot computes with.
boot_runs : ℕ
unfolding kernel_start prepare start_idle enter_idle enable_vm init_process_system
    init_physical_memory init_frames mark_frames cleared_frames mark_frame_used for_range
    build_region0_page_table malloc set_breaks set_kernel_brk addr_to_vpn fill_region0 clear_table
    clear_pte map_identity map_page sync_kernel_brk_before_vm sync_page create_idle_process
    create_region1_page_table map_idle_stack idle_stack_mapped alloc_frame is_frame_free
    install_idle
boot_runs = 0

growing_breaks :
    (grown.0.memory.kernel_brk_page ≡ 10) × (grown.0.memory.requested_kernel_brk_page ≡ 11)
unfolding boot_runs
growing_breaks = (refl, refl)

kernel_start_loses_heap_example : ¬ (HeapMapped (platform growing) grown.0.memory)
unfolding boot_runs
kernel_start_loses_heap_example =
    kernel_start_loses_heap (platform growing) min_pmem_size context power_on grown layout-IsLaidOut
      growing-IsReliable (omega arith) refl refl (omega arith) (omega arith)
