-- ===== src/Kernel.antt =====
-- The kernel's state outside memory.c (process.h, process.c, trap.c), and what the framework
-- supplies to it.
use yalnix_os_project.Base.{ℕ, Option}
use yalnix_os_project.Machine.{UserContext}
use yalnix_os_project.Memory.State.{Memory, Layout}
use yalnix_os_project.Memory.Malloc.{Heap}

-- `pcb_t`. `region1_pt` is a pointer.
pub record Pcb : Type 0 where
  pub pid : ℕ
  pub region1_pt : ℕ
  pub user_context : UserContext
  pub kernel_stack_pages : ℕ → ℕ

-- The functions of trap.c that the vector can hold.
pub data Handler : Type 0 where
  handle_trap_kernel : Handler
  handle_trap_clock : Handler
  handle_trap_illegal : Handler
  handle_trap_memory : Handler
  handle_trap_math : Handler
  handle_trap_tty_receive : Handler
  handle_trap_tty_transmit : Handler
  handle_trap_disk : Handler
  handle_trap_unhandled : Handler

-- `pcbs` is the storage of the process control blocks, by address; `none` in the vector is a null
-- pointer.
pub record Kernel : Type 0 where
  pub memory : Memory
  pub current_process : ℕ
  pub idle_process : ℕ
  pub pcbs : ℕ → Pcb
  pub trap_vector : ℕ → Option Handler

-- The linker's page numbers and addresses, the library's heap, and `helper_new_pid`.
pub record Platform : Type 0 where
  pub layout : Layout
  pub heap : Heap
  pub new_pid : ℕ → ℕ
  pub do_idle_address : ℕ
  pub trap_vector_address : ℕ
