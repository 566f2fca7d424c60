-- ===== src/StrictHeap/Requests.antt =====
-- `malloc` and `calloc` of etc/new_heap.c next to those of new_heap.c.
use yalnix_os_project.Base.{
  ℕ, zero, suc, ◌*◌, ◌%◌, ◌≤◌, ◌^◌, Bool, Bool-cases, inl, inr, not, ◌&&◌, ◌||◌, Option, some, ltb,
  leb, ◌==◌, if◌then◌else◌, arith,
}
use yalnix_os_project.Machine.{null, word}
use yalnix_os_project.UserHeap.State.{UserHeap, Link, add32, word_round, block_start}
use yalnix_os_project.UserHeap.Brk.{init_heap, grow_heap}
use yalnix_os_project.UserHeap.Block.{
  set_previous, sanity_check as lax_sanity_check, merge_free_pair as lax_merge_free_pair,
  split_free_block as lax_split_free_block,
}
use yalnix_os_project.UserHeap.Alloc.{
  Scan, found, missed, fuel_of, set_used, set_next, malloc_loop as lax_malloc_loop,
  take_block as lax_take_block, use_grown as lax_use_grown, finish_malloc as lax_finish_malloc,
  malloc_ready as lax_malloc_ready, malloc as lax_malloc,
}
use yalnix_os_project.UserHeap.Realloc.{memset, calloc as lax_calloc}
use yalnix_os_project.StrictHeap.Run.{Run, done, built}
use yalnix_os_project.StrictHeap.Block.{sanity_check, merge_free_pair, split_free_block}
use yalnix_os_project.StrictHeap.Alloc.{
  malloc_loop, take_block, use_grown, finish_malloc, malloc_ready, malloc, calloc,
}
use yalnix_os_project.StrictHeap.Follows.{
  Follows, alike, both_spent, Follows-bind, Follows-if, Follows-lower, heap_count, result_count,
  scan_count,
}
use yalnix_os_project.StrictHeap.Growth.{init_heap-quiet, grow_heap-quiet}
use yalnix_os_project.StrictHeap.Checks.{
  sanity_check-Follows, merge_free_pair-Follows, split_free_block-Follows,
}

-- `malloc`: what follows the check of a block.
malloc_checked-Follows :
    (k : Bool) (len bp : ℕ) (s : UserHeap) (later : Run Scan) (lax_later : Option Scan)
    → Follows k scan_count s.warnings later lax_later
    → Follows k scan_count s.warnings
        (if ((s.blocks bp).size_used == 0) && leb len (s.blocks bp).size
          then done (found bp s)
          else later)
        (if ((s.blocks bp).size_used == 0) && leb len (s.blocks bp).size
          then some (found bp s)
          else lax_later)
malloc_checked-Follows k len bp s later lax_later h =
    Follows-if k scan_count s.warnings
      (((s.blocks bp).size_used == 0) && leb len (s.blocks bp).size) _ _ _ _
      (alike (found bp s) (omega arith)) h

malloc_loop-Follows :
    (k : Bool) (fuel len bp last : ℕ) (s : UserHeap)
    → Follows k scan_count s.warnings
        (malloc_loop k fuel len bp last s)
        (lax_malloc_loop fuel len bp last s)
unfolding malloc_loop lax_malloc_loop
malloc_loop-Follows k zero len bp last s = both_spent
malloc_loop-Follows k (suc fuel) len bp last s =
    Follows-if k scan_count s.warnings (bp == null) _ _ _ _ (alike (missed last s) (omega arith)) (
      Follows-bind k heap_count scan_count s.warnings (sanity_check k bp s)
        (some (lax_sanity_check bp s)) _ _ (sanity_check-Follows k bp s)
        (λ t.
          malloc_checked-Follows k len bp t (malloc_loop k fuel len (t.blocks bp).next bp t)
            (lax_malloc_loop fuel len (t.blocks bp).next bp t)
            (malloc_loop-Follows k fuel len (t.blocks bp).next bp t)))

take_block-Follows :
    (k : Bool) (bp len : ℕ) (s : UserHeap)
    → Follows k result_count s.warnings (take_block k bp len s) (some (lax_take_block bp len s))
unfolding take_block lax_take_block
take_block-Follows k bp len s =
    Follows-bind k heap_count result_count s.warnings (split_free_block k bp len s)
      (some (lax_split_free_block bp len s)) (λ t. done (block_start bp, set_used bp len t))
      (λ t. some (block_start bp, set_used bp len t)) (split_free_block-Follows k bp len s)
      (λ t. alike (block_start bp, set_used bp len t) (omega arith))

-- What follows the merge of the grown block.
merged-Follows :
    (k : Bool) (len bp : ℕ) (s : UserHeap)
    → Follows k result_count s.warnings
        (if (bp == null) || not ((s.blocks bp).size_used == 0) || ltb (s.blocks bp).size len
          then done (null, s)
          else take_block k bp len s)
        (some (
          if (bp == null) || not ((s.blocks bp).size_used == 0) || ltb (s.blocks bp).size len
          then (null, s)
          else lax_take_block bp len s))
merged-Follows k len bp s =
    elim (Bool-cases
      ((bp == null) || not ((s.blocks bp).size_used == 0) || ltb (s.blocks bp).size len)) [
        | inl e ↦ rw e (alike (null, s) (omega arith))
        | inr e ↦ rw e (take_block-Follows k bp len s)
      ]

use_grown-Follows :
    (k : Bool) (len last : ℕ) (r : ℕ × UserHeap)
    → Follows k result_count
        (r.1).warnings
        (use_grown k len last r)
        (some (lax_use_grown len last r))
unfolding use_grown lax_use_grown
use_grown-Follows k len last (bp, s) =
    let t = set_previous bp last (set_next last bp s) in
    let rest =
      Follows-bind k result_count result_count s.warnings (merge_free_pair k last t)
        (some (lax_merge_free_pair last t)) _ _ (merge_free_pair-Follows k last t)
        (λ m. merged-Follows k len m.0 m.1) in
    elim (Bool-cases (bp == null)) [
      | inl e ↦ rw e (alike (null, s) (omega arith))
      | inr e ↦ rw e rest
    ]

finish_malloc-Follows :
    (k : Bool) (link : Link) (len : ℕ) (r : Scan)
    → Follows k result_count
        (scan_count r)
        (finish_malloc (built k link) len r)
        (some (lax_finish_malloc link len r))
unfolding finish_malloc lax_finish_malloc
finish_malloc-Follows k link len (found bp s) = take_block-Follows k bp len s
finish_malloc-Follows k link len (missed last s) =
    let g = grow_heap link len s in
    let quiet = grow_heap-quiet link len s in
    let rest =
      Follows-lower k result_count (g.1).warnings s.warnings (use_grown k len last g)
        (some (lax_use_grown len last g)) (omega arith) (use_grown-Follows k len last g) in
    elim (Bool-cases (last == null)) [
      | inl e ↦ rw e (alike (null, s) (omega arith))
      | inr e ↦ rw e rest
    ]

malloc_ready-Follows :
    (k : Bool) (link : Link) (len : ℕ) (s : UserHeap)
    → Follows k result_count s.warnings
        (malloc_ready (built k link) len s)
        (lax_malloc_ready link len s)
unfolding malloc_ready lax_malloc_ready
malloc_ready-Follows k link len s =
    Follows-bind k scan_count result_count s.warnings
      (malloc_loop k (fuel_of s) len s.heap_start link.unset s)
      (lax_malloc_loop (fuel_of s) len s.heap_start link.unset s) (finish_malloc (built k link) len)
      (λ r. some (lax_finish_malloc link len r))
      (malloc_loop-Follows k (fuel_of s) len s.heap_start link.unset s)
      (finish_malloc-Follows k link len)

-- Whatever the state of the heap, and with the same value in malloc's variable last before it is
-- assigned, with the break functions of libc.c malloc of etc/new_heap.c ends with the result and
-- heap of malloc of new_heap.c and no fewer complaints than before, or it aborts; it aborts only
-- in the kernel build, and only where that of new_heap.c complains or runs out of fuel. When the
-- walk of one runs out of fuel and nothing has aborted, so does that of the other.
pub malloc-Follows :
    (k : Bool) (link : Link) (len : ℕ) (s : UserHeap)
    → Follows k result_count s.warnings (malloc (built k link) len s) (lax_malloc link len s)
unfolding malloc lax_malloc
malloc-Follows k link len s =
    let n = word_round (add32 len 4) in
    let t = init_heap link s in
    let quiet = init_heap-quiet link s in
    let set_up =
      Follows-lower k result_count t.warnings s.warnings (malloc_ready (built k link) n t)
        (lax_malloc_ready link n t) (omega arith) (malloc_ready-Follows k link n t) in
    let refused : Follows k result_count s.warnings (done (null, s)) (some (null, s)) =
      alike (null, s) (omega arith) in
    Follows-if k result_count s.warnings (leb (2 ^ 31) len) _ _ _ _ refused (
      Follows-if k result_count s.warnings (not s.not_initialized) _ _ _ _
        (malloc_ready-Follows k link n s)
        (Follows-if k result_count s.warnings link.user_lib _ _ _ _ set_up refused))

memset_quiet :
    (r : ℕ × UserHeap) (n : ℕ)
    → (r.1).warnings ≤ (if r.0 == null then r.1 else memset r.0 0 n r.1).warnings
memset_quiet (rp, s) n = elim (Bool-cases (rp == null)) [
  | inl e ↦ rw e (omega arith)
  | inr e ↦ rw e (omega arith)
]

pub calloc-Follows :
    (k : Bool) (link : Link) (nmemb size : ℕ) (s : UserHeap)
    → Follows k result_count s.warnings
        (calloc (built k link) nmemb size s)
        (lax_calloc link nmemb size s)
unfolding calloc lax_calloc
calloc-Follows k link nmemb size s =
    let n = nmemb * size % word in
    Follows-bind k result_count result_count s.warnings (malloc (built k link) n s)
      (lax_malloc link n s) (λ r. done (r.0, if r.0 == null then r.1 else memset r.0 0 n r.1))
      (λ r. some (r.0, if r.0 == null then r.1 else memset r.0 0 n r.1)) (malloc-Follows k link n s)
      (λ r. alike _ (memset_quiet r n))
