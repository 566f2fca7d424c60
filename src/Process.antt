-- ===== src/Process.antt =====
-- process.c: the process globals and the idle process.
pub mod Idle
use yalnix_os_project.Base.{ℕ, ◌+◌, ◌-◌, ◌/◌, ◌^◌, Option, none, some, ◌==◌, if◌then◌else◌, update}
use yalnix_os_project.Base.Int.{pos}
use yalnix_os_project.Machine.{
  UserContext, Status, success, error, null, max_pt_len, kernel_stack_base, page_shift,
  vmem_1_limit,
}
use yalnix_os_project.Panic.{
  Outcome, ok, halted, ◌>>=◌, pcb_malloc_failed, region1_table_failed, idle_stack_failed,
  idle_mapping_failed,
}
use yalnix_os_project.Memory.State.{Frames, Memory}
use yalnix_os_project.Memory.Frames.{alloc_frame, kstack_first_page}
use yalnix_os_project.Memory.Paging.{map_page}
use yalnix_os_project.Memory.Brk.{read_write}
use yalnix_os_project.Memory.Malloc.{malloc}
use yalnix_os_project.Memory.Region0.{create_region1_page_table}
use yalnix_os_project.Kernel.{Kernel, Pcb, Platform}

unfoldable pub init_process_system : Kernel → Kernel
init_process_system k = record k { current_process = null; idle_process = null }

-- `sizeof(pcb_t)`: a pid, a pointer, a context of fourteen words and two stack pages.
abbrev pub pcb_size : ℕ
pcb_size = 72

abbrev pub pointer_size : ℕ
pointer_size = 4

-- A frame that could not be mapped is given back just before the kernel halts.
unfoldable pub idle_stack_mapped : Status × Memory → Outcome Memory
idle_stack_mapped (success, m) = ok m
idle_stack_mapped (error, m) = halted idle_mapping_failed

unfoldable pub map_idle_stack : ℕ → Option ℕ × Frames → Memory → Outcome Memory
unfolding idle_stack_mapped
map_idle_stack pt (none, s) m = halted idle_stack_failed
map_idle_stack pt (some pfn, s) m =
    idle_stack_mapped
      (map_page pt (pos (max_pt_len - 1)) (pos pfn) read_write (record m { frames = s }))

-- The idle process's control block, over the cleared one.
unfoldable pub idle_pcb : Platform → ℕ → UserContext → Pcb
idle_pcb p pt boot_context = record {
  pid = p.new_pid pt;
  region1_pt = pt;
  user_context = record boot_context { pc = p.do_idle_address; sp = vmem_1_limit - pointer_size };
  kernel_stack_pages = update (update (λ _. 0) 0 kstack_first_page) 1 (kstack_first_page + 1);
}

unfoldable pub install_idle : Platform → ℕ → ℕ → UserContext → Kernel → Memory → ℕ × Kernel
unfolding idle_pcb
install_idle p idle pt boot_context k m = (
  idle,
  record k {
    memory = m;
    idle_process = idle;
    pcbs = update k.pcbs idle (idle_pcb p pt boot_context);
  },
)

unfoldable pub create_idle_process : Platform → UserContext → Kernel → Outcome (ℕ × Kernel)
create_idle_process p boot_context k =
    let (idle, m1) = malloc p.layout p.heap pcb_size k.memory in
    if idle == null
    then halted pcb_malloc_failed
    else let (pt, m2) = create_region1_page_table p.layout p.heap m1 in
      if pt == null then halted region1_table_failed else do
        m3 ← map_idle_stack pt (alloc_frame m2.frames) m2
        ok (install_idle p idle pt boot_context k m3)
