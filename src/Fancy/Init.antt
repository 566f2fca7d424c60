-- ===== src/Fancy/Init.antt =====
-- fancy/init.c: the process that starts a program on each terminal, and starts it again.
pub mod Table
pub mod Collect
pub mod System
pub mod Keeps
pub mod Starts
pub mod Faults
pub mod Second
pub mod Refused
mod Tests
use yalnix_os_project.Base.{ℕ, zero, suc, ◌+◌, ◌-◌, ◌==◌, leb, ◌&&◌, ◌||◌, if◌then◌else◌, update}
use yalnix_os_project.Base.Int.{ℤ, pos, negsuc, eqb_ℤ}

abbrev pub console : ℕ
console = 0

abbrev pub max_terminal : ℕ
max_terminal = 3

-- `NOFORK`, which is ERROR as well.
abbrev pub no_fork : ℤ
no_fork = negsuc 0

abbrev pub no_exec : ℤ
no_exec = negsuc 1

-- The variables of `main` that last: the array `pids`, by index, and `child_cnt`. The count goes to -1
-- only where an `Exit` has come back, and `main` is followed up to there: see `below_zero`.
pub record Init : Type 0 where
  pub pids : ℕ → ℤ
  pub child_cnt : ℕ

-- What a `ForkChild` comes to: in the child, `Exec` either turns the process into another program or
-- fails.
pub data Forked : Type 0 where
  replaced : Forked
  returned : ℤ → Forked

-- What `Exec` does, where it is called.
pub data Exec : Type 0 where
  replaces : Exec
  fails : Exec

exec_result : Exec → Forked
exec_result replaces = replaced
exec_result fails = returned no_exec

-- `rc` is what `Fork` returns in this process.
unfoldable pub fork_child : ℤ → Exec → Forked
unfolding exec_result
fork_child rc exec =
    if eqb_ℤ rc (pos 0)
    then exec_result exec
    else if eqb_ℤ rc (negsuc 0)
    then returned no_fork
    else returned rc

-- `cmd_argv[0]`, which runs with the terminal as its argument.
pub data Program : Type 0 where
  console_program : Program
  shell_program : Program

-- Where `main` stands: before round `i` of the first loop, in `Wait`, or before the `ForkChild` that
-- serves terminal `i` again; at its end, in another program for a terminal, past the end of `pids`,
-- or where `child_cnt--` takes 0 to -1.
pub data State : Type 0 where
  starting : ℕ → Init → State
  waiting : Init → State
  restarting : ℕ → Init → State
  halted : ℤ → Init → State
  exec_done : Program → ℕ → State
  out_of_bounds : Init → State
  below_zero : Init → State

-- The head of `while (1)`.
unfoldable pub loop_head : Init → State
loop_head s = if s.child_cnt == 0 then halted (negsuc 1) s else waiting s

-- Behind the first loop.
unfoldable pub begin : Init → State
unfolding loop_head
begin s = if eqb_ℤ (s.pids console) (negsuc 0) then halted (negsuc 0) s else loop_head s

-- The two `switch`es on the result: NOEXEC or NOFORK, and the rest.
unfoldable pub switched : ℤ → Init → Init → Init
switched r started failed =
    if eqb_ℤ r no_exec then failed else if eqb_ℤ r no_fork then failed else started

-- One round of the first loop.
unfoldable pub start : ℕ → Forked → Init → State
unfolding begin switched
start i replaced s = exec_done (if i == console then console_program else shell_program) i
start i (returned r) s =
    let s1 : Init = record s { pids = update s.pids i r } in
    let s2 = switched r (record s1 { child_cnt = s1.child_cnt + 1 }) s1 in
    if i == max_terminal then begin s2 else starting (i + 1) s2

-- What runs on where the loop does.
abbrev pub resume : (ℕ → Init → State) → State → State
resume next (starting i s) = next i s
resume next (waiting s) = waiting s
resume next (restarting i s) = restarting i s
resume next (halted code s) = halted code s
resume next (exec_done program i) = exec_done program i
resume next (out_of_bounds s) = out_of_bounds s
resume next (below_zero s) = below_zero s

-- The first loop, from round `i` on, with what each `ForkChild` comes to.
unfoldable pub boot : ℕ → ℕ → (ℕ → Forked) → Init → State
boot zero i forks s = starting i s
boot (suc rounds) i forks s = resume (λ j t. boot rounds j forks t) (start i (forks i) s)

-- `for (i = 0; i <= MAX_TERMINAL; i++) if (pid == pids[i]) break;`, with the rounds that are left.
unfoldable pub search_from : ℕ → ℕ → ℤ → (ℕ → ℤ) → ℕ
search_from zero i pid pids = i
search_from (suc rounds) i pid pids =
    let rest = search_from rounds (i + 1) pid pids in if eqb_ℤ pid (pids i) then i else rest

unfoldable pub search : ℤ → (ℕ → ℤ) → ℕ
search pid pids = search_from (max_terminal + 1) 0 pid pids

-- What follows `Wait`, with the pid that it returns.
unfoldable pub waited : ℤ → Init → State
waited pid s =
    let i = search pid s.pids in
    if eqb_ℤ pid (s.pids console)
    then halted (pos 0) s
    else if leb i max_terminal
    then restarting i s
    else out_of_bounds s

-- Where `main` goes on if the `Exit` with this status comes back.
unfoldable pub exit_returned : ℤ → Init → State
unfolding loop_head
exit_returned (pos n) s =
    let i = search (s.pids console) s.pids in
    if leb i max_terminal then restarting i s else out_of_bounds s
exit_returned (negsuc zero) s = loop_head s
exit_returned (negsuc (suc n)) s = waiting s

-- The end of the round of `while (1)`, up to the next `Wait`.
unfoldable pub restart : ℕ → Forked → Init → State
unfolding loop_head switched
restart i replaced s = exec_done shell_program i
restart i (returned r) s =
    let s1 : Init = record s { pids = update s.pids i r } in
    if (s.child_cnt == 0) && (eqb_ℤ r no_exec || eqb_ℤ r no_fork)
    then below_zero s1
    else loop_head (switched r s1 (record s1 { child_cnt = s1.child_cnt - 1 }))
