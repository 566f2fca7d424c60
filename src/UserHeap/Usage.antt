-- ===== src/UserHeap/Usage.antt =====
-- new_heap.c: `helper_check_heap`, the walk that checks every block and counts. The kernel build's
-- comparison with the last counts only traces.
use yalnix_os_project.Base.{ℕ, zero, suc, not, Option, none, some, ◌==◌, if◌then◌else◌}
use yalnix_os_project.Machine.{null}
use yalnix_os_project.UserHeap.State.{Block, UserHeap, Link, add32, sub32}
use yalnix_os_project.UserHeap.Brk.{init_heap}
use yalnix_os_project.UserHeap.Block.{sanity_check}
use yalnix_os_project.UserHeap.Alloc.{fuel_of}

-- The five counters, which are words.
pub record Usage : Type 0 where
  pub blocks_seen : ℕ
  pub dirty : ℕ
  pub free_block_bytes : ℕ
  pub used_block_bytes : ℕ
  pub ifrag_bytes : ℕ

abbrev pub no_usage : Usage
no_usage = record {
  blocks_seen = 0;
  dirty = 0;
  free_block_bytes = 0;
  used_block_bytes = 0;
  ifrag_bytes = 0;
}

-- What one block adds.
unfoldable pub tally : Block → Usage → Usage
tally b u =
    let seen : Usage = record u { blocks_seen = add32 u.blocks_seen 1 } in
    if not (b.size_used == 0)
    then record seen {
      dirty = add32 u.dirty 1;
      used_block_bytes = add32 u.used_block_bytes b.size_used;
      ifrag_bytes = add32 u.ifrag_bytes (sub32 b.size b.size_used);
    }
    else record seen { free_block_bytes = add32 u.free_block_bytes b.size }

unfoldable pub check_loop : ℕ → ℕ → Usage → UserHeap → Option (Usage × UserHeap)
check_loop zero bp u s = none
check_loop (suc f) bp u s =
    let s' = sanity_check bp s in
    let rest = check_loop f (s'.blocks bp).next (tally (s'.blocks bp) u) s' in
    if bp == null then some (u, s) else rest

unfoldable pub helper_check_heap : Link → UserHeap → Option (Usage × UserHeap)
helper_check_heap link s =
    if not s.not_initialized
    then check_loop (fuel_of s) s.heap_start no_usage s
    else if link.user_lib
    then (let s' = init_heap link s in check_loop (fuel_of s') s'.heap_start no_usage s')
    else some (no_usage, s)
