-- ===== src/Memory/Malloc.antt =====
-- The kernel's `malloc` comes from the framework's library. Of its code the model knows what the
-- memory manager sees: the break addresses that it hands to `SetKernelBrk`, and the block that it
-- returns (0 for NULL).
use yalnix_os_project.Base.{ℕ, List, [], ◌∷◌}
use yalnix_os_project.Memory.State.{Memory, Layout}
use yalnix_os_project.Memory.Brk.{set_kernel_brk}

pub record Reply : Type 0 where
  pub breaks : List ℕ
  pub block : ℕ

-- A heap answers a size, in the state in which it is asked.
abbrev pub Heap : Type 0
Heap = ℕ → Memory → Reply

unfoldable pub set_breaks : Layout → List ℕ → Memory → Memory
set_breaks l [] m = m
set_breaks l (addr ∷ rest) m = set_breaks l rest (set_kernel_brk l addr m).1

unfoldable pub malloc : Layout → Heap → ℕ → Memory → ℕ × Memory
malloc l heap size m = let r = heap size m in (r.block, set_breaks l r.breaks m)
