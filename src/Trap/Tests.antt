-- ===== src/Trap/Tests.antt =====
-- A system call through the installed vector.
use yalnix_os_project.Base.{◌≡◌, none, some, arith}
use yalnix_os_project.Machine.{UserContext}
use yalnix_os_project.Kernel
use yalnix_os_project.Trap.{run_handler, init_trap_vector}
use yalnix_os_project.Trap.Dispatch.{trap_effect, init_trap_vector-effect}

abbrev context : UserContext
context = record {
  vector = 0;
  code = 0x50;
  addr = 0;
  pc = 0x100000;
  sp = 0;
  ebp = 0;
  regs = λ i. i;
}

init_trap_vector-effect_example :
    (h : Kernel.Handler) × (init_trap_vector (λ v. none) 0 ≡ some h)
    × (run_handler h context ≡ trap_effect 0 context)
init_trap_vector-effect_example = init_trap_vector-effect (λ v. none) 0 context (omega arith)
