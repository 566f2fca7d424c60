-- ===== src/Fancy/Init/Keeps.antt =====
-- init keeps its table in order.
use mathlib.Core.Path.{subst}
use yalnix_os_project.Base.{
  ℕ, zero, suc, ◌+◌, ◌-◌, ◌≤◌, ◌<◌, ◌≡◌, ◌≢◌, ◌∙◌, sym, ap, refl, true, false, leb, update,
  update_other, ℕ_discrete, arith, ◌==◌,
}
use yalnix_os_project.Base.Int.{ℤ, pos, eqb_ℤ-eq, eqb_ℤ-ne}
use yalnix_os_project.Fancy.Init.{
  Init, State, starting, waiting, restarting, returned, fork_child, switched, search_from, search,
  waited, restart, console, max_terminal, no_fork, no_exec,
}
use yalnix_os_project.Fancy.Init.Table.{InOrder, fill-InOrder, leave-InOrder, empty-InOrder}
use yalnix_os_project.Fancy.Init.Collect.{free-InOrder, some_child}
use yalnix_os_project.Fancy.Init.System.{
  Children, Step, starts, starts_none, collects, restarts, restarts_none, Steps, none_yet, goes_on,
  console_died, Served,
}
use yalnix_os_project.Fancy.Init.Starts.{
  loop_head-Served, fork_child_some, start-Served, start_none-Served,
}

-- The search ends at the only slot with the pid.
search_from_lem :
    (rounds i stop : ℕ) (pid : ℤ) (pids : ℕ → ℤ)
    → i ≤ stop
    → stop < i + rounds
    → pids stop ≡ pid
    → ((j : ℕ) → i ≤ j → j < stop → pids j ≢ pid)
    → search_from rounds i pid pids ≡ stop
unfolding search_from
search_from_lem zero i stop pid pids le lt at before = absurd (omega arith)
search_from_lem (suc rounds) i stop pid pids le lt at before = elim (ℕ_discrete i stop) [
  | yes e ↦ let hit = eqb_ℤ-eq pid (pids i) (sym (ap pids e ∙ at)) in rw hit e
  | no e ↦
      let miss = eqb_ℤ-ne pid (pids i) (λ q. before i (omega arith) (omega arith) (sym q)) in
      rw miss (
        search_from_lem rounds (i + 1) stop pid pids (omega arith) (omega arith) at
          (λ j lo hi. before j (omega arith) hi))
]

waited-Served :
    (s : Init) (p : ℕ) (children : Children)
    → children p ≡ true
    → Served (waiting s) children
    → Served (waited (pos p) s) (update children p false)
unfolding waited search
waited-Served s p children child (o, some_console, some_live) =
    let w = o.only p child in
    let (c, e, rest) = free-InOrder 4 4 w.0 p s.pids children s.child_cnt w.1 (omega arith) o w.3 in
    let found =
      search_from_lem (max_terminal + 1) 0 w.0 (pos p) s.pids (omega arith) (omega (arith, w.1)) w.3
        (λ j lo hi same.
          let k =
            o.distinct j w.0 p (omega (arith, w.1)) w.1 (λ q. omega (arith, w.1)) w.2 same w.3 in
          omega arith) in
    elim (ℕ_discrete w.0 console) [
      | yes f ↦
          let at : s.pids console ≡ pos p = ap s.pids (sym f) ∙ w.3 in
          rw (eqb_ℤ-eq (pos p) (s.pids console) (sym at)) (
            console_died p c refl at e
              (subst (λ i. InOrder 4 i s.pids (update children p false) c) f rest))
      | no f ↦
          let miss = eqb_ℤ-ne (pos p) (s.pids console) (λ q.
            f (o.distinct w.0 console p w.1 (omega arith) w.2 (λ x. omega arith) w.3 (sym q))) in
          let inside : leb w.0 max_terminal ≡ true = let lt = w.1 in ground arith in
          rw (miss, found, inside) (c, e, omega arith, omega (arith, w.1), some_console, rest)
    ]

restart-Served :
    (i : ℕ) (s : Init) (p : ℕ) (children : Children)
    → children p ≡ false
    → Served (restarting i s) children
    → Served (restart i (returned (pos p)) s) (update children p true)
unfolding restart switched
restart-Served i s p children fresh (c, e, lo, hi, some_console, o) =
    let filled = fill-InOrder 4 i s.pids children c (omega arith) o 4 p (omega arith) fresh in
    let pids = update s.pids i (pos p) in
    let same : c + 1 ≡ s.child_cnt = omega arith in
    let counted : (s.child_cnt == 0) ≡ false = ground arith in
    rw (counted, eqb_ℤ-ne (pos p) no_exec (λ q. cc), eqb_ℤ-ne (pos p) no_fork (λ q. cc))
      (loop_head-Served (record s { pids = pids }) (update children p true)
        (subst (λ n. InOrder 4 4 pids (update children p true) n) same filled)
        (λ q. some_console (sym (update_other s.pids i console (pos p) (λ x. omega arith)) ∙ q)))

restart_none-Served :
    (i : ℕ) (s : Init) (children : Children)
    → Served (restarting i s) children
    → Served (restart i (returned no_fork) s) children
unfolding restart switched
restart_none-Served i s children (c, e, lo, hi, some_console, o) =
    let left = leave-InOrder 4 i s.pids children c (omega arith) o 4 (omega arith) in
    let pids = update s.pids i no_fork in
    let same : c ≡ s.child_cnt - 1 = omega arith in
    let counted : (s.child_cnt == 0) ≡ false = ground arith in
    rw counted (
      loop_head-Served (record s { pids = pids; child_cnt = s.child_cnt - 1 }) children
        (subst (λ n. InOrder 4 4 pids children n) same left)
        (λ q. some_console (sym (update_other s.pids i console no_fork (λ x. omega arith)) ∙ q)))

Step-Served :
    {x y : State} {children later : Children}
    → Step x children y later
    → Served x children
    → Served y later
unfolding fork_child
Step-Served (starts i s p children exec lt fresh) h =
    rw (fork_child_some p exec lt) (start-Served i s p children fresh h.0 h.1)
Step-Served (starts_none i s children exec) h = start_none-Served i s children h.0 h.1
Step-Served (collects s p children child) h = waited-Served s p children child h
Step-Served (restarts i s p children exec lt fresh) h =
    rw (fork_child_some p exec lt) (restart-Served i s p children fresh h)
Step-Served (restarts_none i s children exec) h = restart_none-Served i s children h

Steps-Served :
    {x : State} {children : Children} {y : State} {later : Children}
    → Served x children
    → Steps x children y later
    → Served y later
Steps-Served h none_yet = h
Steps-Served h (goes_on y z later latest before step) = Step-Served step (Steps-Served h before)

-- When main of init starts without children and every later Fork gives a new positive pid or
-- fails, and every Wait answers with the pid of a child that it removes, then wherever init stands
-- after any sequence of these calls, it has not gone past the end of pids, the table holds the
-- pids of exactly its children, each once, with NOFORK in the other slots (but for the slot that
-- is being served), and child_cnt is their number; if it has halted, then the console could not be
-- started, or the console has died, or no child is left.
pub init-Served :
    (s : Init) (y : State) (children later : Children)
    → ((p : ℕ) → children p ≡ false)
    → s.child_cnt ≡ 0
    → Steps (starting 0 s) children y later
    → Served y later
init-Served s y children later childless nothing steps =
    Steps-Served
      (
        omega arith,
        subst (λ n. InOrder 0 4 s.pids children n) (sym nothing)
            (empty-InOrder 4 s.pids children childless),
      )
      steps

-- When main of init starts without children and its calls of Fork and Wait answer as for the
-- invariant, then whenever it is in Wait it has a child, and Wait has an answer.
pub init_waits_for_a_child :
    (s t : Init) (y : State) (children later : Children)
    → ((p : ℕ) → children p ≡ false)
    → s.child_cnt ≡ 0
    → Steps (starting 0 s) children y later
    → y ≡ waiting t
    → (p : ℕ) × (later p ≡ true) × Step y later (waited (pos p) t) (update later p false)
init_waits_for_a_child s t y children later childless nothing steps at =
    let h = init-Served s y children later childless nothing steps in
    let (o, some_console, some_live) = subst (λ x. Served x later) at h in
    let counted = o.counted in
    let (p, child) =
      some_child 4 4 t.pids later t.child_cnt o 4 (omega arith) (omega arith) (omega arith) in
    (
      p,
      child,
      subst (λ x. Step x later (waited (pos p) t) (update later p false)) (sym at)
          (collects t p later child),
    )
