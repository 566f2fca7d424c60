-- ===== src/Fancy/Init/Refused.antt =====
-- init under the kernel as it is, which implements no system call.
use yalnix_os_project.Base.{
  ℕ, zero, suc, ◌+◌, ◌<◌, ◌≡◌, ◌∙◌, sym, ap, refl, Option, some, true, false, ◌==◌, update,
  update_same, update_other, ℕ_discrete, arith,
}
use yalnix_os_project.Base.Int.{pos, negsuc, as_int, eqb_ℤ-eq}
use yalnix_os_project.Kernel.{Handler}
use yalnix_os_project.Machine.{UserContext, error_word}
use yalnix_os_project.Trap.{init_trap_vector}
use yalnix_os_project.UserHeap.State.{UserHeap, Link}
use yalnix_os_project.UserHeap.Init.{FirstBreak}
use yalnix_os_project.Syscalls.{
  Request, Trap, Call, checked_call, link_through, fork, wait, exit_program,
}
use yalnix_os_project.Syscalls.Unserved.{Reached}
use yalnix_os_project.Syscalls.Refused.{Delivers, exit_program_returns, checked_call_refused}
use yalnix_os_project.Fancy.Init.{
  Init, waiting, restarting, halted, Forked, returned, Exec, fork_child, loop_head, begin, switched,
  start, boot, search_from, search, waited, exit_returned, console, max_terminal, no_fork,
}

abbrev without_child : ℕ → Init → Init
without_child i s = record s { pids = update s.pids i no_fork }

boot_refused :
    (rounds i : ℕ) (forks : ℕ → Forked) (s : Init)
    → 0 < rounds
    → i + rounds ≡ 4
    → (0 < i → s.pids console ≡ no_fork)
    → ((j : ℕ) → forks j ≡ returned no_fork)
    → (t : Init) × (boot rounds i forks s ≡ halted (negsuc 0) t)
      × (t.child_cnt ≡ s.child_cnt)
      × (t.pids console ≡ no_fork)
unfolding boot start switched begin
boot_refused zero i forks s more sum h each = absurd (omega arith)
boot_refused (suc r) i forks s more sum h each =
    let u = without_child i s in
    let refused : u.pids console ≡ no_fork = elim (ℕ_discrete i console) [
      | yes e ↦ cc (update_same s.pids i no_fork)
      | no e ↦ update_other s.pids i console no_fork (λ x. e (sym x)) ∙ h (omega arith)
    ] in
    elim (ℕ_discrete r 0) [
      | yes e ↦
          let last : (i == max_terminal) ≡ true = ground arith in
          (u, rw (each i, last, eqb_ℤ-eq (u.pids console) no_fork refused) refl, refl, refused)
      | no e ↦
          let (t, run, count, none_there) =
            boot_refused r (i + 1) forks u (omega arith) (omega arith) (λ lt. refused) each in
          let last : (i == max_terminal) ≡ false = ground arith in
          (t, rw (each i, last) run, count, none_there)
    ]

-- A checked system call of the program, in a state of its memory that its writes and calls lead to
-- from `entry`, and what register 0 holds after it.
pub record Called (link : Link) (trap : Trap) (entry : UserHeap) (c : Call) (rc : ℕ) : Type 0 where
  pub heap : UserHeap
  pub later : UserHeap
  pub reached : Reached link trap entry heap
  pub ran : checked_call link trap c heap ≡ some (rc, later)

module _ (vector : ℕ → Option Handler) (deliver : Request → UserContext) (trap : Trap)
    (d : Delivers (init_trap_vector vector) deliver trap) (unset : ℕ) (entry : UserHeap)
    (first : FirstBreak entry) (fresh : entry.not_initialized ≡ true) where
  answers : (c : Call) (rc : ℕ) → Called (link_through trap unset) trap entry c rc → rc ≡ error_word
  answers c rc k =
      checked_call_refused vector deliver trap d unset entry k.heap k.later c rc first fresh
        k.reached k.ran

  forked :
      (exec : Exec) (r : Forked) (rc : ℕ)
      → Called (link_through trap unset) trap entry fork rc
      → r ≡ fork_child (as_int rc) exec
      → r ≡ returned no_fork
  unfolding fork_child
  forked exec r rc k e =
      let same = answers fork rc k in e ∙ ap (λ a. fork_child (as_int a) exec) same

  -- Under this kernel's trap vector, with a framework that delivers a call's registers to the
  -- handler and answers with register 0, init starts no process and calls Exit(-1): it enters main
  -- with no child counted, a heap that is not set up, and its first break above address 0 and far
  -- enough below the upper half, and between its calls of Fork and Wait it only makes checked
  -- system calls and writes bytes that are no block headers. Every Exit comes back: without
  -- children main goes on to Exit(-2) and to Wait, whose answer takes it to Exit(0), and then it
  -- is about to serve the console's terminal again.
  pub init_under_kernel :
      (forks : ℕ → Forked) (exec : ℕ → Exec) (s : Init) (status answer : ℕ)
      → ((j : ℕ)
          → (rc : ℕ) × Called (link_through trap unset) trap entry fork rc
            × (forks j ≡ fork_child (as_int rc) (exec j)))
      → s.child_cnt ≡ 0
      → Called (link_through trap unset) trap entry (wait status) answer
      → ((code : ℕ) → exit_program trap code ≡ error_word)
        × (t : Init) × (boot 4 0 forks s ≡ halted (negsuc 0) t)
        × (exit_returned (negsuc 0) t ≡ halted (negsuc 1) t)
        × (exit_returned (negsuc 1) t ≡ waiting t)
        × (waited (as_int answer) t ≡ halted (pos 0) t)
        × (exit_returned (pos 0) t ≡ restarting console t)
  unfolding exit_returned loop_head waited search search_from
  init_under_kernel forks exec s status answer calls childless called =
      let (t, run, count, none_there) =
        boot_refused 4 0 forks s (omega arith) (omega arith) (λ lt. absurd (omega arith))
          (λ j. let (rc, k, e) = calls j in forked (exec j) (forks j) rc k e) in
      let refused = answers (wait status) answer called in
      let stopped : (t.child_cnt == 0) ≡ true = rw (count, childless) refl in
      (
        exit_program_returns vector deliver trap d,
        t,
        run,
        rw stopped refl,
        refl,
        rw (eqb_ℤ-eq (as_int answer) (t.pids console) (ap as_int refused ∙ sym none_there)) refl,
        rw (eqb_ℤ-eq (t.pids console) (t.pids console) refl) refl,
      )
