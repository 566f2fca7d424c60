-- ===== src/Fancy/Init/Tests.antt =====
-- The theorems on init.c at a boot that starts a process on each terminal.
use yalnix_os_project.Base.{ℕ, ◌+◌, ◌<◌, ◌≡◌, ◌==◌, refl, true, false, if◌then◌else◌, update, arith}
use yalnix_os_project.Base.Int.{pos, negsuc, as_int}
use yalnix_os_project.Machine.{error_word}
use yalnix_os_project.UserHeap.State.{Link}
use yalnix_os_project.Syscalls.{fork, wait, exit_program, link_through}
use yalnix_os_project.Syscalls.Unserved.{
  fresh, at_entry, calls, checked_call-Unserved, Reached-Unserved,
}
use yalnix_os_project.Syscalls.Refused.{sys_brk_denied}
use yalnix_os_project.Syscalls.Tests.{
  empty_vector, to_context, failing, failing-Delivers, new_program, new_program-FirstBreak,
}
use yalnix_os_project.Fancy.Init.{
  Init, starting, waiting, restarting, halted, out_of_bounds, Forked, replaces, fails, fork_child,
  loop_head, begin, switched, start, boot, waited, exit_returned, console, no_exec,
}
use yalnix_os_project.Fancy.Init.System.{Children, Step, starts, Steps, none_yet, goes_on, Served}
use yalnix_os_project.Fancy.Init.Keeps.{init-Served, init_waits_for_a_child}
use yalnix_os_project.Fancy.Init.Faults.{waited_out_of_bounds}
use yalnix_os_project.Fancy.Init.Second.{second_init}
use yalnix_os_project.Fancy.Init.Refused.{Called, init_under_kernel}

abbrev childless : Children
childless p = false

abbrev blank : Init
blank = record { pids = λ i. pos 0; child_cnt = 0 }

abbrev one_more : ℕ → ℕ → Init → Init
one_more i p s = record s { pids = update s.pids i (pos p); child_cnt = s.child_cnt + 1 }

abbrev all_started : Init
all_started = one_more 3 8 (one_more 2 7 (one_more 1 6 (one_more 0 5 blank)))

abbrev four : Children
four = update (update (update (update childless 5 true) 6 true) 7 true) 8 true

four_started : Steps (starting 0 blank) childless (waiting all_started) four
unfolding start begin loop_head switched fork_child
four_started =
    let b1 = update childless 5 true in
    let b2 = update b1 6 true in
    let b3 = update b2 7 true in
    let s1 = one_more 0 5 blank in
    let s2 = one_more 1 6 s1 in
    let s3 = one_more 2 7 s2 in
    goes_on (starting 3 s3) (waiting all_started) b3 four
      (goes_on (starting 2 s2) (starting 3 s3) b2 b3
        (goes_on (starting 1 s1) (starting 2 s2) b1 b2
          (goes_on (starting 0 blank) (starting 1 s1) childless b1 none_yet
            (starts 0 blank 5 childless replaces (omega arith) refl))
          (starts 1 s1 6 b1 replaces (omega arith) refl))
        (starts 2 s2 7 b2 replaces (omega arith) refl))
      (starts 3 s3 8 b3 replaces (omega arith) refl)

init-Served_example : Served (waiting all_started) four
init-Served_example =
    init-Served blank (waiting all_started) childless four (λ p. refl) refl four_started

init_waits_for_a_child_example :
    (p : ℕ) × (four p ≡ true)
    × Step (waiting all_started) four (waited (pos p) all_started) (update four p false)
init_waits_for_a_child_example =
    init_waits_for_a_child blank all_started (waiting all_started) childless four (λ p. refl) refl
      four_started refl

waited_out_of_bounds_example : waited (negsuc 0) all_started ≡ out_of_bounds all_started
waited_out_of_bounds_example =
    waited_out_of_bounds all_started (negsuc 0) four
      (init-Served blank (waiting all_started) childless four (λ p. refl) refl four_started)
      (λ p e. cc) (λ e. refl)

-- The console is started, and the child of terminal 1 cannot run the shell.
abbrev in_the_child : ℕ → Forked
in_the_child j = if j == 1 then fork_child (pos 0) fails else fork_child (pos (j + 10)) replaces

second_init_example :
    (t : Init) × (boot 3 1 in_the_child (one_more 0 5 blank) ≡ waiting t)
    × (t.pids 1 ≡ no_exec)
    × (t.child_cnt ≡ 1 + 2)
    × ((j : ℕ) → 1 < j → j < 4 → t.pids j ≡ pos (j + 10))
    × ((j : ℕ) → j < 1 → t.pids j ≡ (one_more 0 5 blank).pids j)
second_init_example =
    second_init 1 2 in_the_child (λ j. j + 10) (λ j. replaces) (one_more 0 5 blank) (omega arith)
      (omega arith) (λ lt e. cc) refl
      (λ j lt. (omega arith, let other : (j == 1) ≡ false = ground arith in rw other refl))

-- The `Fork` of a program that has just started, and a `Wait` after it.
abbrev under_kernel : Link
under_kernel = link_through failing 7

first_call : Called under_kernel failing new_program fork error_word
unfolding link_through
first_call =
    let (later, ran, hollow) =
      checked_call-Unserved under_kernel failing refl
        (sys_brk_denied empty_vector to_context failing failing-Delivers 7) fork new_program
        (fresh new_program-FirstBreak refl) in
    record { heap = new_program; later = later; reached = at_entry; ran = ran }

second_call : Called under_kernel failing new_program (wait 4096) error_word
unfolding link_through first_call
second_call =
    let k = first_call in
    let before = calls new_program k.later fork error_word at_entry k.ran in
    let denied = sys_brk_denied empty_vector to_context failing failing-Delivers 7 in
    let (later, ran, hollow) =
      checked_call-Unserved under_kernel failing refl denied (wait 4096) k.later (
        Reached-Unserved under_kernel failing refl denied new_program k.later new_program-FirstBreak
          refl before) in
    record { heap = k.later; later = later; reached = before; ran = ran }

init_under_kernel_example :
    ((code : ℕ) → exit_program failing code ≡ error_word)
    × (t : Init) × (boot 4 0 (λ j. fork_child (as_int error_word) replaces) blank
        ≡ halted (negsuc 0) t)
    × (exit_returned (negsuc 0) t ≡ halted (negsuc 1) t)
    × (exit_returned (negsuc 1) t ≡ waiting t)
    × (waited (as_int error_word) t ≡ halted (pos 0) t)
    × (exit_returned (pos 0) t ≡ restarting console t)
init_under_kernel_example =
    init_under_kernel empty_vector to_context failing failing-Delivers 7 new_program
      new_program-FirstBreak refl (λ j. fork_child (as_int error_word) replaces) (λ j. replaces)
      blank 4096 error_word (λ j. (error_word, first_call, refl)) refl second_call
