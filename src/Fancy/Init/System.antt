-- ===== src/Fancy/Init/System.antt =====
-- init with the processes that it has started: they end when they like, and `Wait` answers with one
-- that has ended, as long as there is one to wait for.
use yalnix_os_project.Base.{ℕ, suc, ◌≤◌, ◌<◌, ◌≡◌, ◌≢◌, Bool, true, false, update}
use yalnix_os_project.Base.Int.{ℤ, pos, negsuc}
use yalnix_os_project.Fancy.Init.{
  Init, State, starting, waiting, restarting, halted, exec_done, out_of_bounds, below_zero, Exec,
  fork_child, start, waited, restart, console, max_terminal, no_fork,
}
use yalnix_os_project.Fancy.Init.Table.{InOrder}

-- The pids of the children that have not been collected.
abbrev pub Children : Type 0
Children = ℕ → Bool

-- A pid is positive, and not that of another child; ERROR is -1.
pub data Step : State → Children → State → Children → Type 0 where
  starts :
      (i : ℕ) (s : Init) (p : ℕ) (children : Children) (exec : Exec)
      → 0 < p
      → children p ≡ false
      → Step (starting i s) children (start i (fork_child (pos p) exec) s) (update children p true)
  starts_none :
      (i : ℕ) (s : Init) (children : Children) (exec : Exec)
      → Step (starting i s) children (start i (fork_child (negsuc 0) exec) s) children
  collects :
      (s : Init) (p : ℕ) (children : Children)
      → children p ≡ true
      → Step (waiting s) children (waited (pos p) s) (update children p false)
  restarts :
      (i : ℕ) (s : Init) (p : ℕ) (children : Children) (exec : Exec)
      → 0 < p
      → children p ≡ false
      → Step
          (restarting i s)
          children
          (restart i (fork_child (pos p) exec) s)
          (update children p true)
  restarts_none :
      (i : ℕ) (s : Init) (children : Children) (exec : Exec)
      → Step (restarting i s) children (restart i (fork_child (negsuc 0) exec) s) children

pub data Steps (x : State) (children : Children) : State → Children → Type 0 where
  none_yet : Steps x children x children
  goes_on :
      (y z : State) (later latest : Children)
      → Steps x children y later
      → Step y later z latest
      → Steps x children z latest

-- Why init has halted.
pub data Ended (code : ℤ) (s : Init) (children : Children) : Type 0 where
  no_console :
      code ≡ negsuc 0
      → s.pids console ≡ no_fork
      → InOrder 4 4 s.pids children s.child_cnt
      → Ended code s children
  console_died :
      (p c : ℕ)
      → code ≡ pos 0
      → s.pids console ≡ pos p
      → s.child_cnt ≡ suc c
      → InOrder 4 console s.pids children c
      → Ended code s children
  all_died : code ≡ negsuc 1 → ((p : ℕ) → children p ≡ false) → Ended code s children

-- The table is in order wherever init stands, but for the slot that is served again; it is never left
-- at an index past its end, and the count never goes below 0.
abbrev pub Served : State → Children → Type 0
Served (starting i s) children = (i ≤ max_terminal) × InOrder i 4 s.pids children s.child_cnt
Served (waiting s) children =
    InOrder 4 4 s.pids children s.child_cnt × (s.pids console ≢ no_fork) × (0 < s.child_cnt)
Served (restarting i s) children =
    (c : ℕ) × (s.child_cnt ≡ suc c)
    × (0 < i)
    × (i ≤ max_terminal)
    × (s.pids console ≢ no_fork)
    × InOrder 4 i s.pids children c
Served (halted code s) children = Ended code s children
Served (exec_done program i) children = ⊥
Served (out_of_bounds s) children = ⊥
Served (below_zero s) children = ⊥
