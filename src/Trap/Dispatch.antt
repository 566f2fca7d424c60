-- ===== src/Trap/Dispatch.antt =====
-- What each trap does once the vector is installed.
use yalnix_os_project.Base.{
  ℕ, ◌<◌, ◌≡◌, Option, some, ltb, ◌==◌, if◌then◌else◌, within, update, arith,
}
use yalnix_os_project.Base.Loops.{for_range, for_range_inv}
use yalnix_os_project.Machine.{UserContext, error_word}
use yalnix_os_project.Panic.{Outcome, ok, halted, unhandled_trap}
use yalnix_os_project.Kernel
use yalnix_os_project.Trap.{
  trap_vector_size, trap_kernel, trap_clock, run_handler, init_trap_vector,
}

-- The handler of a trap number.
abbrev pub handler_of : ℕ → Kernel.Handler
handler_of v =
    if v == trap_kernel
    then Kernel.handle_trap_kernel
    else if v == trap_clock
    then Kernel.handle_trap_clock
    else Kernel.handle_trap_unhandled

filled :
    (vector : ℕ → Option Kernel.Handler) (v : ℕ)
    → for_range trap_vector_size 0 (λ i t. update t i (some Kernel.handle_trap_unhandled)) vector v
      ≡ (if within 0 trap_vector_size v then some Kernel.handle_trap_unhandled else vector v)
filled vector v =
    for_range_inv
      (λ i (t : ℕ → Option Kernel.Handler).
        t v ≡ (if within 0 i v then some Kernel.handle_trap_unhandled else vector v))
      (λ i t. update t i (some Kernel.handle_trap_unhandled)) trap_vector_size 0 trap_vector_size
      vector (omega arith) (λ j t a b e. ground arith) (ground arith)

-- Every slot of the vector holds a handler, and nothing past its end is written.
pub init_trap_vector-slots :
    (vector : ℕ → Option Kernel.Handler) (v : ℕ)
    → init_trap_vector vector v ≡ (if ltb v trap_vector_size then some (handler_of v) else vector v)
unfolding init_trap_vector
init_trap_vector-slots vector v = ground (arith, filled vector v)

-- What a user process sees of a trap: a system call fails with `ERROR` in register 0 and changes
-- nothing else, the clock changes nothing, and any other trap halts the kernel.
unfoldable pub trap_effect : ℕ → UserContext → Outcome UserContext
trap_effect v u =
    if v == trap_kernel
    then ok (record u { regs = update u.regs 0 error_word })
    else if v == trap_clock
    then ok u
    else halted unhandled_trap

-- After init_trap_vector every trap number below the size of the vector finds a handler; a system
-- call gets ERROR in register 0 and keeps every other register, the clock changes nothing, and any
-- other trap halts the kernel.
pub init_trap_vector-effect :
    (vector : ℕ → Option Kernel.Handler) (v : ℕ) (u : UserContext)
    → v < trap_vector_size
    → (h : Kernel.Handler) × (init_trap_vector vector v ≡ some h)
      × (run_handler h u ≡ trap_effect v u)
unfolding run_handler trap_effect
init_trap_vector-effect vector v u lt =
    (handler_of v, ground (arith, init_trap_vector-slots vector v), ground arith)
