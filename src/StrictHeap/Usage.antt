-- ===== src/StrictHeap/Usage.antt =====
-- etc/new_heap.c: `helper_check_heap`, the walk that checks every block and counts. The kernel
-- build's comparison with the last counts only traces.
use yalnix_os_project.Base.{ℕ, zero, suc, Bool, not, ◌==◌, if◌then◌else◌}
use yalnix_os_project.Machine.{null}
use yalnix_os_project.UserHeap.State.{Block, UserHeap, add32, sub32}
use yalnix_os_project.UserHeap.Alloc.{fuel_of}
use yalnix_os_project.UserHeap.Usage.{Usage, no_usage}
use yalnix_os_project.StrictHeap.Run.{Run, done, spent, ◌>>=◌, Build}
use yalnix_os_project.StrictHeap.Block.{sanity_check}

-- What one block adds.
unfoldable pub tally : Block → Usage → Usage
tally b u =
    let seen : Usage = record u { blocks_seen = add32 u.blocks_seen 1 } in
    if not (b.size_used == 0)
    then record seen {
      dirty = add32 u.dirty 1;
      used_block_bytes = add32 u.used_block_bytes b.size_used;
      ifrag_bytes = add32 u.ifrag_bytes (sub32 b.size b.size_used);
    }
    else record seen { free_block_bytes = add32 u.free_block_bytes b.size }

unfoldable pub check_loop : Bool → ℕ → ℕ → Usage → UserHeap → Run (Usage × UserHeap)
check_loop k zero bp u s = spent
check_loop k (suc f) bp u s =
    let rest = (do
      s' ← sanity_check k bp s
      check_loop k f (s'.blocks bp).next (tally (s'.blocks bp) u) s') in
    if bp == null then done (u, s) else rest

unfoldable pub helper_check_heap : Build → UserHeap → Run (Usage × UserHeap)
unfolding check_loop
helper_check_heap build s =
    if not s.not_initialized
    then check_loop build.in_kernel (fuel_of s) s.heap_start no_usage s
    else if build.user_lib
    then (let s' = build.init_heap s in
        check_loop build.in_kernel (fuel_of s') s'.heap_start no_usage s')
    else done (no_usage, s)
