-- ===== src/Fancy/Init/Starts.antt =====
-- init keeps its table in order while it starts the first program of each terminal.
use mathlib.Core.Path.{subst}
use yalnix_os_project.Base.{
  ℕ, suc, ◌+◌, ◌≤◌, ◌<◌, ◌≡◌, ◌≢◌, ap, refl, inl, inr, true, false, ◌==◌, if◌then◌else◌, update,
  ℕ_discrete, arith,
}
use yalnix_os_project.Base.Int.{pos, negsuc, eqb_ℤ-eq, eqb_ℤ-ne}
use yalnix_os_project.Fancy.Init.{
  Init, starting, returned, Exec, fork_child, loop_head, begin, switched, start, console,
  max_terminal, no_fork, no_exec,
}
use yalnix_os_project.Fancy.Init.Table.{InOrder, pos_inj, grow-InOrder, fill-InOrder, leave-InOrder}
use yalnix_os_project.Fancy.Init.Collect.{no_child}
use yalnix_os_project.Fancy.Init.System.{Children, no_console, all_died, Served}

pub loop_head-Served :
    (s : Init) (children : Children)
    → InOrder 4 4 s.pids children s.child_cnt
    → s.pids console ≢ no_fork
    → Served (loop_head s) children
unfolding loop_head
loop_head-Served s children o some_console = elim (ℕ_discrete s.child_cnt 0) [
  | yes e ↦
      let stop : (s.child_cnt == 0) ≡ true = ground arith in
      rw stop (all_died refl (no_child 4 4 s.pids children s.child_cnt (omega arith) e o))
  | no e ↦
      let stop : (s.child_cnt == 0) ≡ false = ground arith in rw stop (o, some_console, omega arith)
]

begin-Served :
    (s : Init) (children : Children)
    → InOrder 4 4 s.pids children s.child_cnt
    → Served (begin s) children
unfolding begin
begin-Served s children o = elim (o.slot console (omega arith) (λ e. omega arith)) [
  | inl e ↦ rw (eqb_ℤ-eq (s.pids console) no_fork e) (no_console refl e o)
  | inr (p, e, child) ↦
      let other : s.pids console ≢ no_fork = λ f. cc in
      rw (eqb_ℤ-ne (s.pids console) no_fork other) (loop_head-Served s children o other)
]

-- The first loop goes on, or is over.
next-Served :
    (i : ℕ) (s : Init) (children : Children)
    → i ≤ max_terminal
    → InOrder (suc i) 4 s.pids children s.child_cnt
    → Served (if i == max_terminal then begin s else starting (i + 1) s) children
next-Served i s children le o = elim (ℕ_discrete i max_terminal) [
  | yes e ↦
      let last : (i == max_terminal) ≡ true = ground arith in
      rw last (
        begin-Served s children (subst (λ n. InOrder n 4 s.pids children s.child_cnt) (ap suc e) o))
  | no e ↦
      let more : (i == max_terminal) ≡ false = ground arith in
      let next : i + 1 ≡ suc i = omega arith in rw more (omega arith, rw next o)
]

pub fork_child_some : (p : ℕ) (exec : Exec) → 0 < p → fork_child (pos p) exec ≡ returned (pos p)
unfolding fork_child
fork_child_some p exec lt =
    rw
      (
        eqb_ℤ-ne (pos p) (pos 0) (λ e. let same = pos_inj p 0 e in omega arith),
        eqb_ℤ-ne (pos p) (negsuc 0) (λ e. cc),
      )
      refl

pub start-Served :
    (i : ℕ) (s : Init) (p : ℕ) (children : Children)
    → children p ≡ false
    → i ≤ max_terminal
    → InOrder i 4 s.pids children s.child_cnt
    → Served (start i (returned (pos p)) s) (update children p true)
unfolding start switched
start-Served i s p children fresh le o =
    let hole = grow-InOrder i 4 s.pids children s.child_cnt (omega arith) o in
    let filled =
      fill-InOrder (suc i) i s.pids children s.child_cnt (omega arith) hole 4 p (omega arith)
        fresh in
    rw (eqb_ℤ-ne (pos p) no_exec (λ e. cc), eqb_ℤ-ne (pos p) no_fork (λ e. cc))
      (next-Served i (record s { pids = update s.pids i (pos p); child_cnt = s.child_cnt + 1 })
        (update children p true) le filled)

pub start_none-Served :
    (i : ℕ) (s : Init) (children : Children)
    → i ≤ max_terminal
    → InOrder i 4 s.pids children s.child_cnt
    → Served (start i (returned no_fork) s) children
unfolding start switched
start_none-Served i s children le o =
    let hole = grow-InOrder i 4 s.pids children s.child_cnt (omega arith) o in
    let left =
      leave-InOrder (suc i) i s.pids children s.child_cnt (omega arith) hole 4 (omega arith) in
    next-Served i (record s { pids = update s.pids i no_fork }) children le left
