-- ===== src/Syscalls/Refused.antt =====
-- The system calls of a user program under the kernel as it is, which implements none.
use yalnix_os_project.Base.{
  ℕ, ◌-◌, ◌<◌, ◌^◌, ◌≡◌, ◌≢◌, ◌∙◌, sym, ap, refl, update, true, Option, some, arith,
}
use yalnix_os_project.Machine.{UserContext, error_word, word}
use yalnix_os_project.Panic.{ok}
use yalnix_os_project.Kernel.{Handler, handle_trap_kernel}
use yalnix_os_project.Trap.{trap_kernel, init_trap_vector, run_handler}
use yalnix_os_project.Trap.Dispatch.{init_trap_vector-slots}
use yalnix_os_project.UserHeap.State.{UserHeap}
use yalnix_os_project.UserHeap.Alloc.{malloc}
use yalnix_os_project.UserHeap.Init.{FirstBreak, first_page, Promised, malloc_after_refused_break}
use yalnix_os_project.Syscalls.Unserved.{
  some_inj as some_pair_inj, Reached, checked_call-Unserved, Reached-Unserved,
}
use yalnix_os_project.Syscalls.{
  Request, Trap, Call, sys_brk, exit, request, checked_call, exit_call, exit_program, bad_lib,
  link_through,
}

-- A trap that the framework carries to the handler in the vector, with the call's registers in a
-- user context, and whose value it takes from register 0.
pub data Delivered (vector : ℕ → Option Handler) (deliver : Request → UserContext) (r : Request)
    (answer : ℕ) : Type 0 where
  delivered :
      (h : Handler) (u : UserContext)
      → vector trap_kernel ≡ some h
      → run_handler h (deliver r) ≡ ok u
      → answer ≡ u.regs 0
      → Delivered vector deliver r answer

abbrev pub Delivers : (ℕ → Option Handler) → (Request → UserContext) → Trap → Type 0
Delivers vector deliver trap = (r : Request) → Delivered vector deliver r (trap r)

some_inj {ℓ} : {A : Type ℓ} (a b : A) → some a ≡ some b → a ≡ b
some_inj a b e = cc

ok_inj {ℓ} : {A : Type ℓ} (a b : A) → ok a ≡ ok b → a ≡ b
ok_inj a b e = cc

abbrev failed_context : UserContext → UserContext
failed_context u = record u { regs = update u.regs 0 error_word }

module _ (vector : ℕ → Option Handler) (deliver : Request → UserContext) (trap : Trap)
    (d : Delivers (init_trap_vector vector) deliver trap) where
  answer_lem :
      (r : Request) (n : ℕ) → Delivered (init_trap_vector vector) deliver r n → n ≡ error_word
  unfolding run_handler
  answer_lem r n (delivered h u slot run at) =
      let kernel : h ≡ handle_trap_kernel =
        some_inj h handle_trap_kernel (sym slot ∙ init_trap_vector-slots vector trap_kernel) in
      let ran : ok u ≡ run_handler handle_trap_kernel (deliver r) =
        sym run ∙ ap (λ x. run_handler x (deliver r)) kernel in
      at ∙ ap (λ (x : UserContext). x.regs 0) (ok_inj u (failed_context (deliver r)) ran)

  -- No exit ends the program: the library's exits come back, and so does a call that libc.c forbids.
  pub exit_program_returns : (status : ℕ) → exit_program trap status ≡ error_word
  unfolding exit_program exit_call
  exit_program_returns status = let r = request (exit status) in answer_lem r (trap r) (d r)

  pub bad_lib_returns : bad_lib trap ≡ error_word
  unfolding bad_lib exit_call
  bad_lib_returns = let r = request (exit (word - 1)) in answer_lem r (trap r) (d r)

  pub sys_brk_denied :
      (unset : ℕ) (t : UserHeap) (addr : ℕ) → (link_through trap unset).sys_brk t addr ≢ 0
  unfolding link_through
  sys_brk_denied unset t addr e =
      let r = request (sys_brk addr) in let a = answer_lem r (trap r) (d r) in omega arith

  -- Every checked system call of a program of this kernel is answered with ERROR, in any state of its
  -- memory that its writes and calls lead to.
  pub checked_call_refused :
      (unset : ℕ) (s t u : UserHeap) (c : Call) (answer : ℕ)
      → FirstBreak s
      → s.not_initialized ≡ true
      → Reached (link_through trap unset) trap s t
      → checked_call (link_through trap unset) trap c t ≡ some (answer, u)
      → answer ≡ error_word
  unfolding link_through
  checked_call_refused unset s t u c answer b fresh r called =
      let link = link_through trap unset in
      let h = Reached-Unserved link trap refl (sys_brk_denied unset) s t b fresh r in
      let (v, run, x) = checked_call-Unserved link trap refl (sys_brk_denied unset) c t h in
      ap (λ (y : ℕ × UserHeap). y.0)
        (some_pair_inj (answer, u) (trap (request c), v) (sym called ∙ run))
      ∙ answer_lem (request c) (trap (request c)) (d (request c))

  -- Under this kernel's trap vector, with a framework that delivers a call's registers to the
  -- handler and answers with register 0, the first malloc of less than 2^31 bytes of a program
  -- (first break above address 0 and far enough below the upper half) returns the address a header
  -- behind the break, and the break has not moved.
  pub malloc_under_kernel :
      (s : UserHeap) (len unset : ℕ)
      → FirstBreak s
      → s.not_initialized ≡ true
      → len < 2 ^ 31
      → Promised s (malloc (link_through trap unset) len s)
  unfolding link_through
  malloc_under_kernel s len unset b fresh small =
      malloc_after_refused_break (link_through trap unset) s len b refl fresh
        (sys_brk_denied unset s (first_page s)) small
