-- ===== src/StrictHeap/Counts.antt =====
-- `helper_check_heap` of etc/new_heap.c next to that of new_heap.c.
use yalnix_os_project.Base.{ℕ, zero, suc, Bool, not, some, ◌==◌, arith}
use yalnix_os_project.Machine.{null}
use yalnix_os_project.UserHeap.State.{UserHeap, Link}
use yalnix_os_project.UserHeap.Brk.{init_heap}
use yalnix_os_project.UserHeap.Block.{sanity_check as lax_sanity_check}
use yalnix_os_project.UserHeap.Alloc.{fuel_of}
use yalnix_os_project.UserHeap.Usage.{
  Usage, no_usage, tally as lax_tally, check_loop as lax_check_loop,
  helper_check_heap as lax_helper_check_heap,
}
use yalnix_os_project.StrictHeap.Run.{built}
use yalnix_os_project.StrictHeap.Block.{sanity_check}
use yalnix_os_project.StrictHeap.Usage.{tally, check_loop, helper_check_heap}
use yalnix_os_project.StrictHeap.Follows.{
  Follows, alike, both_spent, Follows-bind, Follows-if, Follows-lower, heap_count,
}
use yalnix_os_project.StrictHeap.Growth.{init_heap-quiet}
use yalnix_os_project.StrictHeap.Checks.{sanity_check-Follows}

abbrev pub usage_count : Usage × UserHeap → ℕ
usage_count r = (r.1).warnings

check_loop-Follows :
    (k : Bool) (fuel bp : ℕ) (u : Usage) (s : UserHeap)
    → Follows k usage_count s.warnings (check_loop k fuel bp u s) (lax_check_loop fuel bp u s)
unfolding check_loop lax_check_loop tally lax_tally
check_loop-Follows k zero bp u s = both_spent
check_loop-Follows k (suc fuel) bp u s =
    Follows-if k usage_count s.warnings (bp == null) _ _ _ _ (alike (u, s) (omega arith)) (
      Follows-bind k heap_count usage_count s.warnings (sanity_check k bp s)
        (some (lax_sanity_check bp s))
        (λ t. check_loop k fuel (t.blocks bp).next (tally (t.blocks bp) u) t)
        (λ t. lax_check_loop fuel (t.blocks bp).next (lax_tally (t.blocks bp) u) t)
        (sanity_check-Follows k bp s)
        (λ t. check_loop-Follows k fuel (t.blocks bp).next (tally (t.blocks bp) u) t))

pub helper_check_heap-Follows :
    (k : Bool) (link : Link) (s : UserHeap)
    → Follows k usage_count s.warnings
        (helper_check_heap (built k link) s)
        (lax_helper_check_heap link s)
unfolding helper_check_heap lax_helper_check_heap
helper_check_heap-Follows k link s =
    let t = init_heap link s in
    let quiet = init_heap-quiet link s in
    let set_up =
      Follows-lower k usage_count t.warnings s.warnings
        (check_loop k (fuel_of t) t.heap_start no_usage t)
        (lax_check_loop (fuel_of t) t.heap_start no_usage t) (omega arith)
        (check_loop-Follows k (fuel_of t) t.heap_start no_usage t) in
    Follows-if k usage_count s.warnings (not s.not_initialized) _ _ _ _
      (check_loop-Follows k (fuel_of s) s.heap_start no_usage s)
      (Follows-if k usage_count s.warnings link.user_lib _ _ _ _ set_up
        (alike (no_usage, s) (omega arith)))
