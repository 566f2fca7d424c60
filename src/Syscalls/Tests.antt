-- ===== src/Syscalls/Tests.antt =====
-- The system calls at one program, with a framework that copies the registers.
use yalnix_os_project.Base.{
  ℕ, ◌≡◌, ◌==◌, refl, if◌then◌else◌, true, false, Option, none, some, [], ◌∷◌, update, arith,
}
use yalnix_os_project.Machine.{UserContext, error_word}
use yalnix_os_project.Kernel.{Handler, handle_trap_kernel}
use yalnix_os_project.Trap.{trap_kernel, init_trap_vector, run_handler}
use yalnix_os_project.UserHeap.State.{UserHeap}
use yalnix_os_project.UserHeap.Chain.{header}
use yalnix_os_project.UserHeap.Split.{cell}
use yalnix_os_project.UserHeap.Alloc.{malloc}
use yalnix_os_project.UserHeap.Serve.{Sound}
use yalnix_os_project.UserHeap.Init.{FirstBreak, Promised}
use yalnix_os_project.Bytes.Words.{Outside}
use yalnix_os_project.Bytes.Strings.{StringAt}
use yalnix_os_project.Syscalls.{Request, request, link_through}
use yalnix_os_project.Syscalls.Print.{tty_printf, tty_printf-StringAt}
use yalnix_os_project.Syscalls.Refused.{Delivers, delivered, malloc_under_kernel}

abbrev pub empty_vector : ℕ → Option Handler
empty_vector i = none

abbrev pub to_context : Request → UserContext
to_context r = record {
  vector = trap_kernel;
  code = r.code;
  addr = 0;
  pc = 0;
  sp = 0;
  ebp = 0;
  regs = λ i. if i == 0 then r.a else if i == 1 then r.b else if i == 2 then r.c else r.d;
}

abbrev pub failing : Request → ℕ
failing r = error_word

pub failing-Delivers : Delivers (init_trap_vector empty_vector) to_context failing
unfolding init_trap_vector run_handler
failing-Delivers r =
    delivered handle_trap_kernel
      (record (to_context r) { regs = update (to_context r).regs 0 error_word }) refl refl refl

-- One block, all of it free.
abbrev pub one : UserHeap
one = record {
  heap_start = 4096;
  heap_end = 4344;
  not_initialized = false;
  current_break = 4344;
  blocks = λ i. header (cell 224 0) 0 0;
  bytes = λ a. 0;
  warnings = 0;
}

pub one-Sound : Sound one (cell 224 0 ∷ [])
one-Sound = record {
  ready = refl;
  bounds = record { start_pos = omega arith; start_lt_end = omega arith; end_low = omega arith };
  chain = (refl, omega arith, refl);
}

-- A program that has just started.
abbrev pub new_program : UserHeap
new_program = record one { not_initialized = true }

pub new_program-FirstBreak : FirstBreak new_program
new_program-FirstBreak = record { pos = omega arith; low = omega arith }

malloc_under_kernel_example : Promised new_program (malloc (link_through failing 7) 10 new_program)
malloc_under_kernel_example =
    malloc_under_kernel empty_vector to_context failing failing-Delivers new_program 10 7
      new_program-FirstBreak refl (omega arith)

-- "hi" on terminal 2, with the buffer at 10000 and a kernel that answers with the number of bytes.
tty_printf-StringAt_example :
    (t : UserHeap) × (tty_printf (link_through failing 7) (λ r. r.c) 10000 2 (104 ∷ 105 ∷ []) one
      ≡ some (2, t))
    × StringAt t.bytes 10000 (104 ∷ 105 ∷ [])
    × ((i : ℕ) → Outside 10000 14096 i → t.bytes i ≡ 0)
    × (t ≡ record one { bytes = t.bytes })
unfolding request
tty_printf-StringAt_example =
    tty_printf-StringAt (link_through failing 7) (λ r. r.c) 10000 2 (104 ∷ 105 ∷ []) one
      (cell 224 0 ∷ []) (λ e. omega arith, (λ e. omega arith, tt)) (omega arith) one-Sound
