-- ===== src/UserHeap/Alloc.antt =====
-- new_heap.c: `malloc`, `free`, `calloc` and `realloc`. A walk over the blocks takes fuel, and is
-- `none` when that runs out.
use yalnix_os_project.Base.{
  ℕ, zero, suc, ◌+◌, ◌-◌, ◌^◌, not, ◌&&◌, ◌||◌, Option, none, some, ltb, leb, ◌==◌, if◌then◌else◌,
}
use yalnix_os_project.Machine.{null}
use yalnix_os_project.UserHeap.State.{
  UserHeap, Link, add32, word_round, block_start, block_end, write_block, warn,
}
use yalnix_os_project.UserHeap.Brk.{init_heap, grow_heap}
use yalnix_os_project.UserHeap.Block.{sanity_check, merge_free_pair, split_free_block, set_previous}

infixl 5 ◌>>=◌
abbrev pub ◌>>=◌ {ℓ κ} : {A : Type ℓ} {B : Type κ} → Option A → (A → Option B) → Option B
none >>= f = none
some a >>= f = f a

-- Every block takes more than one byte, so the length of the heap is fuel for a walk, with one more
-- for the block that even a heap of length 0 has, and one for the end.
abbrev pub fuel_of : UserHeap → ℕ
fuel_of s = s.heap_end - s.heap_start + 2

abbrev pub set_used : ℕ → ℕ → UserHeap → UserHeap
set_used bp n s = write_block bp (record (s.blocks bp) { size_used = n }) s

abbrev pub set_next : ℕ → ℕ → UserHeap → UserHeap
set_next bp n s = write_block bp (record (s.blocks bp) { next = n }) s

-- `garbage_collect`
unfoldable pub gc_loop : ℕ → ℕ → UserHeap → Option UserHeap
gc_loop zero bp s = none
gc_loop (suc f) bp s =
    let rest = let (np, s') = merge_free_pair bp s in gc_loop f np s' in
    if bp == null then some s else rest

unfoldable pub garbage_collect : UserHeap → Option UserHeap
unfolding gc_loop
garbage_collect s = gc_loop (fuel_of s) s.heap_start s

-- The end of the loop of `malloc`: a block that fits, or the last block.
pub data Scan : Type 0 where
  found : ℕ → UserHeap → Scan
  missed : ℕ → UserHeap → Scan

unfoldable pub malloc_loop : ℕ → ℕ → ℕ → ℕ → UserHeap → Option Scan
malloc_loop zero len bp last s = none
malloc_loop (suc f) len bp last s =
    let s' = sanity_check bp s in
    let b = s'.blocks bp in
    let rest = malloc_loop f len b.next bp s' in
    if bp == null
    then some (missed last s)
    else if (b.size_used == 0) && leb len b.size
    then some (found bp s')
    else rest

-- The block is split, marked and handed out.
unfoldable pub take_block : ℕ → ℕ → UserHeap → ℕ × UserHeap
take_block bp len s = (block_start bp, set_used bp len (split_free_block bp len s))

-- `malloc` with the last block and the grown block at hand.
unfoldable pub use_grown : ℕ → ℕ → ℕ × UserHeap → ℕ × UserHeap
unfolding take_block
use_grown len last (bp, s) =
    if bp == null
    then (null, s)
    else let (merged, s') = merge_free_pair last (set_previous bp last (set_next last bp s)) in
      let b = s'.blocks merged in
      if (merged == null) || not (b.size_used == 0) || ltb b.size len
      then (null, s')
      else take_block merged len s'

unfoldable pub finish_malloc : Link → ℕ → Scan → ℕ × UserHeap
unfolding use_grown
finish_malloc link len (found bp s) = take_block bp len s
finish_malloc link len (missed last s) =
    if last == null then (null, s) else use_grown len last (grow_heap link len s)

-- `len` is the rounded length.
unfoldable pub malloc_ready : Link → ℕ → UserHeap → Option (ℕ × UserHeap)
unfolding malloc_loop finish_malloc
malloc_ready link len s = do
  r ← malloc_loop (fuel_of s) len s.heap_start link.unset s
  some (finish_malloc link len r)

unfoldable pub malloc : Link → ℕ → UserHeap → Option (ℕ × UserHeap)
unfolding malloc_ready
malloc link len s =
    if leb (2 ^ 31) len
    then some (null, s)
    else let rounded = word_round (add32 len 4) in
      if not s.not_initialized
      then malloc_ready link rounded s
      else if link.user_lib
      then malloc_ready link rounded (init_heap link s)
      else some (null, s)

unfoldable pub free_loop : ℕ → ℕ → ℕ → UserHeap → Option UserHeap
free_loop zero addr bp s = none
free_loop (suc f) addr bp s =
    let s' = sanity_check bp s in
    let b = s'.blocks bp in
    let rest = free_loop f addr b.next s' in
    if bp == null
    then some (warn s)
    else if leb (block_start bp) addr && ltb addr (block_end s' bp)
    then (if b.size_used == 0 then some (warn s') else garbage_collect (set_used bp 0 s'))
    else rest

unfoldable pub free : Link → ℕ → UserHeap → Option UserHeap
unfolding free_loop
free link addr s =
    if addr == null
    then some s
    else if not s.not_initialized
    then free_loop (fuel_of s) addr s.heap_start s
    else if link.user_lib
    then (let s' = init_heap link s in free_loop (fuel_of s') addr s'.heap_start s')
    else some s
