-- ===== src/Trap.antt =====
-- trap.c: the trap vector and its handlers. Tracing leaves no trace in the model.
pub mod Dispatch
mod Tests
use yalnix_os_project.Base.{ℕ, Option, some, update}
use yalnix_os_project.Base.Loops.{for_range}
use yalnix_os_project.Machine.{UserContext, error_word}
use yalnix_os_project.Panic.{Outcome, ok, halted, unhandled_trap}
use yalnix_os_project.Kernel

abbrev pub trap_vector_size : ℕ
trap_vector_size = 16

abbrev pub trap_kernel : ℕ
trap_kernel = 0

abbrev pub trap_clock : ℕ
trap_clock = 1

-- `HandleTrapKernel`: no system call is implemented, so each returns `ERROR` in register 0.
pub run_trap_kernel : UserContext → Outcome UserContext
run_trap_kernel u = ok (record u { regs = update u.regs 0 error_word })

pub run_trap_clock : UserContext → Outcome UserContext
run_trap_clock u = ok u

pub run_trap_unhandled : UserContext → Outcome UserContext
run_trap_unhandled u = halted unhandled_trap

-- The body of each handler. Six of them only call `HandleTrapUnhandled`.
unfoldable pub run_handler : Kernel.Handler → UserContext → Outcome UserContext
unfolding run_trap_kernel run_trap_clock run_trap_unhandled
run_handler Kernel.handle_trap_kernel u = run_trap_kernel u
run_handler Kernel.handle_trap_clock u = run_trap_clock u
run_handler Kernel.handle_trap_illegal u = run_trap_unhandled u
run_handler Kernel.handle_trap_memory u = run_trap_unhandled u
run_handler Kernel.handle_trap_math u = run_trap_unhandled u
run_handler Kernel.handle_trap_tty_receive u = run_trap_unhandled u
run_handler Kernel.handle_trap_tty_transmit u = run_trap_unhandled u
run_handler Kernel.handle_trap_disk u = run_trap_unhandled u
run_handler Kernel.handle_trap_unhandled u = run_trap_unhandled u

unfoldable pub init_trap_vector : (ℕ → Option Kernel.Handler) → ℕ → Option Kernel.Handler
init_trap_vector vector =
    let all =
      for_range trap_vector_size 0 (λ i t. update t i (some Kernel.handle_trap_unhandled)) vector in
    update (update all trap_clock (some Kernel.handle_trap_clock)) trap_kernel
      (some Kernel.handle_trap_kernel)
