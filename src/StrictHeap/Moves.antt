-- ===== src/StrictHeap/Moves.antt =====
-- `realloc` of etc/new_heap.c next to that of new_heap.c.
use yalnix_os_project.Base.{
  ℕ, zero, suc, Bool, Bool-cases, inl, inr, not, ◌&&◌, some, leb, ◌==◌, arith,
}
use yalnix_os_project.Machine.{null}
use yalnix_os_project.UserHeap.State.{UserHeap, Link, warn, add32, block_start, header_size}
use yalnix_os_project.UserHeap.Brk.{init_heap}
use yalnix_os_project.UserHeap.Block.{sanity_check as lax_sanity_check}
use yalnix_os_project.UserHeap.Alloc.{
  Scan, found, missed, fuel_of, set_used, malloc as lax_malloc, free as lax_free,
}
use yalnix_os_project.UserHeap.Realloc.{
  memcpy, realloc_loop as lax_realloc_loop, absorb_next as lax_absorb_next,
  move_block as lax_move_block, resize as lax_resize, realloc_ready as lax_realloc_ready,
  realloc as lax_realloc,
}
use yalnix_os_project.StrictHeap.Run.{done, built}
use yalnix_os_project.StrictHeap.Block.{sanity_check}
use yalnix_os_project.StrictHeap.Alloc.{malloc, free}
use yalnix_os_project.StrictHeap.Realloc.{
  realloc_loop, absorb_next, move_block, resize, realloc_ready, realloc,
}
use yalnix_os_project.StrictHeap.Follows.{
  Follows, alike, both_spent, Follows-bind, Follows-if, Follows-lower, heap_count, result_count,
  scan_count,
}
use yalnix_os_project.StrictHeap.Growth.{init_heap-quiet}
use yalnix_os_project.StrictHeap.Checks.{sanity_check-Follows}
use yalnix_os_project.StrictHeap.Frees.{free-Follows}
use yalnix_os_project.StrictHeap.Requests.{malloc-Follows}

realloc_loop-Follows :
    (k : Bool) (fuel ptr bp : ℕ) (s : UserHeap)
    → Follows k scan_count s.warnings
        (realloc_loop k fuel ptr bp s)
        (lax_realloc_loop fuel ptr bp s)
unfolding realloc_loop lax_realloc_loop
realloc_loop-Follows k zero ptr bp s = both_spent
realloc_loop-Follows k (suc fuel) ptr bp s =
    Follows-if k scan_count s.warnings (bp == null) _ _ _ _ (alike (missed bp s) (omega arith)) (
      Follows-bind k heap_count scan_count s.warnings (sanity_check k bp s)
        (some (lax_sanity_check bp s)) _ _ (sanity_check-Follows k bp s)
        (λ t.
          Follows-if k scan_count t.warnings (block_start bp == ptr) (done (found bp t))
            (realloc_loop k fuel ptr (t.blocks bp).next t) (some (found bp t))
            (lax_realloc_loop fuel ptr (t.blocks bp).next t) (alike (found bp t) (omega arith))
            (realloc_loop-Follows k fuel ptr (t.blocks bp).next t)))

absorb_next-Follows :
    (k : Bool) (ptr bp np size : ℕ) (s : UserHeap)
    → Follows k result_count s.warnings
        (done (ptr, absorb_next bp np size s))
        (some (ptr, lax_absorb_next bp np size s))
unfolding absorb_next lax_absorb_next
absorb_next-Follows k ptr bp np size s = elim (Bool-cases ((s.blocks np).next == null)) [
  | inl e ↦ rw e (alike _ (omega arith))
  | inr e ↦ rw e (alike _ (omega arith))
]

move_block-Follows :
    (k : Bool) (link : Link) (ptr bp : ℕ) (r : ℕ × UserHeap)
    → Follows k result_count
        (r.1).warnings
        (move_block (built k link) ptr bp r.0 r.1)
        (lax_move_block link ptr bp r.0 r.1)
unfolding move_block lax_move_block
move_block-Follows k link ptr bp (rp, s) =
    let t = memcpy rp ptr (s.blocks bp).size_used s in
    Follows-if k result_count s.warnings (rp == null) _ _ _ _ (alike (null, s) (omega arith)) (
      Follows-bind k heap_count result_count s.warnings (free (built k link) ptr t)
        (lax_free link ptr t) (λ u. done (rp, u)) (λ u. some (rp, u)) (free-Follows k link ptr t)
        (λ u. alike (rp, u) (omega arith)))

resize-Follows :
    (k : Bool) (link : Link) (ptr size : ℕ) (r : Scan)
    → Follows k result_count
        (scan_count r)
        (resize (built k link) ptr size r)
        (lax_resize link ptr size r)
unfolding resize lax_resize
resize-Follows k link ptr size (missed bp s) = alike (null, warn s) (omega arith)
resize-Follows k link ptr size (found bp s) =
    let b = s.blocks bp in
    let n = s.blocks b.next in
    Follows-if k result_count s.warnings (leb size b.size) _ _ _ _
      (alike (ptr, set_used bp size s) (omega arith))
      (Follows-if k result_count s.warnings
        (not (b.next == null)
          && (n.size_used == 0)
          && leb size (add32 (add32 b.size n.size) header_size))
        _ _ _ _ (absorb_next-Follows k ptr bp b.next size s)
        (Follows-bind k result_count result_count s.warnings (malloc (built k link) size s)
          (lax_malloc link size s) (λ r. move_block (built k link) ptr bp r.0 r.1)
          (λ r. lax_move_block link ptr bp r.0 r.1) (malloc-Follows k link size s)
          (move_block-Follows k link ptr bp)))

realloc_ready-Follows :
    (k : Bool) (link : Link) (ptr size : ℕ) (s : UserHeap)
    → Follows k result_count s.warnings
        (realloc_ready (built k link) ptr size s)
        (lax_realloc_ready link ptr size s)
unfolding realloc_ready lax_realloc_ready
realloc_ready-Follows k link ptr size s =
    Follows-bind k scan_count result_count s.warnings
      (realloc_loop k (fuel_of s) ptr s.heap_start s)
      (lax_realloc_loop (fuel_of s) ptr s.heap_start s) (resize (built k link) ptr size)
      (lax_resize link ptr size) (realloc_loop-Follows k (fuel_of s) ptr s.heap_start s)
      (resize-Follows k link ptr size)

-- Whatever the state of the heap, and with the same value in malloc's variable last before it is
-- assigned, with the break functions of libc.c realloc of etc/new_heap.c ends with the result and
-- heap of realloc of new_heap.c and no fewer complaints than before, or it aborts; it aborts only
-- in the kernel build, and only where that of new_heap.c complains or runs out of fuel. When the
-- walk of one runs out of fuel and nothing has aborted, so does that of the other.
pub realloc-Follows :
    (k : Bool) (link : Link) (ptr size : ℕ) (s : UserHeap)
    → Follows k result_count s.warnings
        (realloc (built k link) ptr size s)
        (lax_realloc link ptr size s)
unfolding realloc lax_realloc
realloc-Follows k link ptr size s =
    let t = init_heap link s in
    let quiet = init_heap-quiet link s in
    let set_up =
      Follows-lower k result_count t.warnings s.warnings (realloc_ready (built k link) ptr size t)
        (lax_realloc_ready link ptr size t) (omega arith)
        (realloc_ready-Follows k link ptr size t) in
    let refused : Follows k result_count s.warnings (done (null, s)) (some (null, s)) =
      alike (null, s) (omega arith) in
    Follows-if k result_count s.warnings (size == 0) _ _ _ _
      (Follows-bind k heap_count result_count s.warnings (free (built k link) ptr s)
        (lax_free link ptr s) (λ u. done (null, u)) (λ u. some (null, u))
        (free-Follows k link ptr s) (λ u. alike (null, u) (omega arith)))
      (Follows-if k result_count s.warnings (ptr == null) _ _ _ _ (malloc-Follows k link size s) (
        Follows-if k result_count s.warnings (not s.not_initialized) _ _ _ _
          (realloc_ready-Follows k link ptr size s)
          (Follows-if k result_count s.warnings link.user_lib _ _ _ _ set_up refused)))
