-- ===== src/StrictHeap/Alloc.antt =====
-- etc/new_heap.c: `garbage_collect`, `free`, `malloc` and `calloc`. A walk over the blocks takes
-- fuel.
use yalnix_os_project.Base.{
  ℕ, zero, suc, ◌*◌, ◌^◌, ◌%◌, Bool, not, ◌&&◌, ◌||◌, ltb, leb, ◌==◌, if◌then◌else◌,
}
use yalnix_os_project.Machine.{null, word}
use yalnix_os_project.UserHeap.State.{UserHeap, add32, word_round, block_start, block_end, warn}
use yalnix_os_project.UserHeap.Block.{set_previous}
use yalnix_os_project.UserHeap.Alloc.{Scan, found, missed, fuel_of, set_used, set_next}
use yalnix_os_project.UserHeap.Realloc.{memset}
use yalnix_os_project.StrictHeap.Run.{Run, done, spent, ◌>>=◌, Build}
use yalnix_os_project.StrictHeap.Block.{sanity_check, merge_free_pair, split_free_block}

unfoldable pub gc_loop : Bool → ℕ → ℕ → UserHeap → Run UserHeap
gc_loop k zero bp s = spent
gc_loop k (suc f) bp s =
    let rest = (do (np, s') ← merge_free_pair k bp s; gc_loop k f np s') in
    if bp == null then done s else rest

unfoldable pub garbage_collect : Bool → UserHeap → Run UserHeap
unfolding gc_loop
garbage_collect k s = gc_loop k (fuel_of s) s.heap_start s

unfoldable pub malloc_loop : Bool → ℕ → ℕ → ℕ → ℕ → UserHeap → Run Scan
malloc_loop k zero len bp last s = spent
malloc_loop k (suc f) len bp last s =
    let rest = (do
      s' ← sanity_check k bp s
      let later = malloc_loop k f len (s'.blocks bp).next bp s'
      if ((s'.blocks bp).size_used == 0) && leb len (s'.blocks bp).size
          then done (found bp s')
          else later) in
    if bp == null then done (missed last s) else rest

-- The block is split, marked and handed out.
unfoldable pub take_block : Bool → ℕ → ℕ → UserHeap → Run (ℕ × UserHeap)
take_block k bp len s = do
  s' ← split_free_block k bp len s
  done (block_start bp, set_used bp len s')

-- `malloc` with the last block and the grown block at hand.
unfoldable pub use_grown : Bool → ℕ → ℕ → ℕ × UserHeap → Run (ℕ × UserHeap)
unfolding take_block
use_grown k len last (bp, s) = if bp == null then done (null, s) else do
  (merged, s') ← merge_free_pair k last (set_previous bp last (set_next last bp s))
  let b = s'.blocks merged
  if (merged == null) || not (b.size_used == 0) || ltb b.size len
      then done (null, s')
      else take_block k merged len s'

unfoldable pub finish_malloc : Build → ℕ → Scan → Run (ℕ × UserHeap)
unfolding use_grown
finish_malloc b len (found bp s) = take_block b.in_kernel bp len s
finish_malloc b len (missed last s) =
    if last == null then done (null, s) else use_grown b.in_kernel len last (b.grow_heap len s)

-- `len` is the rounded length.
unfoldable pub malloc_ready : Build → ℕ → UserHeap → Run (ℕ × UserHeap)
unfolding malloc_loop finish_malloc
malloc_ready b len s = do
  r ← malloc_loop b.in_kernel (fuel_of s) len s.heap_start b.unset s
  finish_malloc b len r

unfoldable pub malloc : Build → ℕ → UserHeap → Run (ℕ × UserHeap)
unfolding malloc_ready
malloc b len s =
    if leb (2 ^ 31) len
    then done (null, s)
    else let rounded = word_round (add32 len 4) in
      if not s.not_initialized
      then malloc_ready b rounded s
      else if b.user_lib
      then malloc_ready b rounded (b.init_heap s)
      else done (null, s)

unfoldable pub free_loop : Bool → ℕ → ℕ → ℕ → UserHeap → Run UserHeap
unfolding garbage_collect
free_loop k zero addr bp s = spent
free_loop k (suc f) addr bp s =
    let rest = (do
      s' ← sanity_check k bp s
      let b = s'.blocks bp
      let later = free_loop k f addr b.next s'
      if leb (block_start bp) addr && ltb addr (block_end s' bp)
          then (if b.size_used == 0 then done (warn s') else garbage_collect k (set_used bp 0 s'))
          else later) in
    if bp == null then done (warn s) else rest

unfoldable pub free : Build → ℕ → UserHeap → Run UserHeap
unfolding free_loop
free b addr s =
    if addr == null
    then done s
    else if not s.not_initialized
    then free_loop b.in_kernel (fuel_of s) addr s.heap_start s
    else if b.user_lib
    then (let s' = b.init_heap s in free_loop b.in_kernel (fuel_of s') addr s'.heap_start s')
    else done s

-- The product wraps like the `size_t` of the source.
unfoldable pub calloc : Build → ℕ → ℕ → UserHeap → Run (ℕ × UserHeap)
calloc b nmemb size s = do
  (rp, s') ← malloc b (nmemb * size % word) s
  done (rp, if rp == null then s' else memset rp 0 (nmemb * size % word) s')
