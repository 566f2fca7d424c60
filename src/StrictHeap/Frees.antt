-- ===== src/StrictHeap/Frees.antt =====
-- `garbage_collect` and `free` of etc/new_heap.c next to those of new_heap.c.
use yalnix_os_project.Base.{
  ℕ, zero, suc, Bool, Bool-cases, inl, inr, not, ◌&&◌, Option, some, ltb, leb, ◌==◌, if◌then◌else◌,
  arith,
}
use yalnix_os_project.Machine.{null}
use yalnix_os_project.UserHeap.State.{UserHeap, Link, warn, block_start, block_end}
use yalnix_os_project.UserHeap.Brk.{init_heap}
use yalnix_os_project.UserHeap.Block.{
  sanity_check as lax_sanity_check, merge_free_pair as lax_merge_free_pair,
}
use yalnix_os_project.UserHeap.Alloc.{
  fuel_of, set_used, gc_loop as lax_gc_loop, garbage_collect as lax_garbage_collect,
  free_loop as lax_free_loop, free as lax_free,
}
use yalnix_os_project.StrictHeap.Run.{Run, done, built}
use yalnix_os_project.StrictHeap.Block.{sanity_check, merge_free_pair}
use yalnix_os_project.StrictHeap.Alloc.{gc_loop, garbage_collect, free_loop, free}
use yalnix_os_project.StrictHeap.Follows.{
  Follows, alike, both_spent, Follows-bind, Follows-if, Follows-lower, heap_count, result_count,
}
use yalnix_os_project.StrictHeap.Growth.{init_heap-quiet}
use yalnix_os_project.StrictHeap.Checks.{sanity_check-Follows, merge_free_pair-Follows}

gc_loop-Follows :
    (k : Bool) (fuel bp : ℕ) (s : UserHeap)
    → Follows k heap_count s.warnings (gc_loop k fuel bp s) (lax_gc_loop fuel bp s)
unfolding gc_loop lax_gc_loop
gc_loop-Follows k zero bp s = both_spent
gc_loop-Follows k (suc fuel) bp s =
    let rest =
      Follows-bind k result_count heap_count s.warnings (merge_free_pair k bp s)
        (some (lax_merge_free_pair bp s)) (λ r. gc_loop k fuel r.0 r.1)
        (λ r. lax_gc_loop fuel r.0 r.1) (merge_free_pair-Follows k bp s)
        (λ r. gc_loop-Follows k fuel r.0 r.1) in
    elim (Bool-cases (bp == null)) [ inl e ↦ rw e (alike s (omega arith)) | inr e ↦ rw e rest ]

pub garbage_collect-Follows :
    (k : Bool) (s : UserHeap)
    → Follows k heap_count s.warnings (garbage_collect k s) (lax_garbage_collect s)
unfolding garbage_collect lax_garbage_collect
garbage_collect-Follows k s = gc_loop-Follows k (fuel_of s) s.heap_start s

free_hit-Follows :
    (k : Bool) (bp : ℕ) (s : UserHeap)
    → Follows k heap_count s.warnings
        (if (s.blocks bp).size_used == 0
          then done (warn s)
          else garbage_collect k (set_used bp 0 s))
        (if (s.blocks bp).size_used == 0
          then some (warn s)
          else lax_garbage_collect (set_used bp 0 s))
free_hit-Follows k bp s = elim (Bool-cases ((s.blocks bp).size_used == 0)) [
  | inl e ↦ rw e (alike (warn s) (omega arith))
  | inr e ↦ rw e (garbage_collect-Follows k (set_used bp 0 s))
]

free_checked-Follows :
    (k : Bool) (addr bp : ℕ) (s : UserHeap) (later : Run UserHeap) (lax_later : Option UserHeap)
    → Follows k heap_count s.warnings later lax_later
    → Follows k heap_count s.warnings
        (if leb (block_start bp) addr && ltb addr (block_end s bp)
          then (if (s.blocks bp).size_used == 0
              then done (warn s)
              else garbage_collect k (set_used bp 0 s))
          else later)
        (if leb (block_start bp) addr && ltb addr (block_end s bp)
          then (if (s.blocks bp).size_used == 0
              then some (warn s)
              else lax_garbage_collect (set_used bp 0 s))
          else lax_later)
free_checked-Follows k addr bp s later lax_later h =
    elim (Bool-cases (leb (block_start bp) addr && ltb addr (block_end s bp))) [
      | inl f ↦ rw f (free_hit-Follows k bp s)
      | inr f ↦ rw f h
    ]

free_loop-Follows :
    (k : Bool) (fuel addr bp : ℕ) (s : UserHeap)
    → Follows k heap_count s.warnings (free_loop k fuel addr bp s) (lax_free_loop fuel addr bp s)
unfolding free_loop lax_free_loop
free_loop-Follows k zero addr bp s = both_spent
free_loop-Follows k (suc fuel) addr bp s =
    let rest =
      Follows-bind k heap_count heap_count s.warnings (sanity_check k bp s)
        (some (lax_sanity_check bp s)) _ _ (sanity_check-Follows k bp s)
        (λ t.
          free_checked-Follows k addr bp t (free_loop k fuel addr (t.blocks bp).next t)
            (lax_free_loop fuel addr (t.blocks bp).next t)
            (free_loop-Follows k fuel addr (t.blocks bp).next t)) in
    elim (Bool-cases (bp == null)) [
      | inl e ↦ rw e (alike (warn s) (omega arith))
      | inr e ↦ rw e rest
    ]

-- Whatever the state of the heap, with the break functions of libc.c free of etc/new_heap.c ends
-- with the result and heap of free of new_heap.c and no fewer complaints than before, or it
-- aborts; it aborts only in the kernel build, and only where that of new_heap.c complains or runs
-- out of fuel. When the walk of one runs out of fuel and nothing has aborted, so does that of the
-- other.
pub free-Follows :
    (k : Bool) (link : Link) (addr : ℕ) (s : UserHeap)
    → Follows k heap_count s.warnings (free (built k link) addr s) (lax_free link addr s)
unfolding free lax_free
free-Follows k link addr s =
    let t = init_heap link s in
    let quiet = init_heap-quiet link s in
    let set_up =
      Follows-lower k heap_count t.warnings s.warnings (free_loop k (fuel_of t) addr t.heap_start t)
        (lax_free_loop (fuel_of t) addr t.heap_start t) (omega arith)
        (free_loop-Follows k (fuel_of t) addr t.heap_start t) in
    let same : Follows k heap_count s.warnings (done s) (some s) = alike s (omega arith) in
    Follows-if k heap_count s.warnings (addr == null) _ _ _ _ same (
      Follows-if k heap_count s.warnings (not s.not_initialized) _ _ _ _
        (free_loop-Follows k (fuel_of s) addr s.heap_start s)
        (Follows-if k heap_count s.warnings link.user_lib _ _ _ _ set_up same))
