-- ===== src/UserHeap/Realloc.antt =====
-- new_heap.c: `calloc` and `realloc`. `memset` and `memcpy` are the C library's.
use yalnix_os_project.Base.{
  ℕ, zero, suc, ◌+◌, ◌-◌, ◌*◌, ◌%◌, not, ◌&&◌, Option, none, some, ltb, leb, ◌==◌, if◌then◌else◌,
}
use yalnix_os_project.Machine.{null, word}
use yalnix_os_project.UserHeap.State.{
  UserHeap, Link, add32, header_size, block_start, write_block, warn,
}
use yalnix_os_project.UserHeap.Brk.{init_heap}
use yalnix_os_project.UserHeap.Block.{sanity_check, set_previous}
use yalnix_os_project.UserHeap.Alloc.{Scan, found, missed, ◌>>=◌, fuel_of, set_used, malloc, free}

abbrev pub memset : ℕ → ℕ → ℕ → UserHeap → UserHeap
memset dst c n s = record s { bytes = λ a. if leb dst a && ltb a (dst + n) then c else s.bytes a }

abbrev pub memcpy : ℕ → ℕ → ℕ → UserHeap → UserHeap
memcpy dst src n s = record s {
  bytes = λ a. if leb dst a && ltb a (dst + n) then s.bytes (src + (a - dst)) else s.bytes a;
}

-- The product wraps like the `size_t` of the source.
unfoldable pub calloc : Link → ℕ → ℕ → UserHeap → Option (ℕ × UserHeap)
calloc link nmemb size s = do
  (rp, s') ← malloc link (nmemb * size % word) s
  some (rp, if rp == null then s' else memset rp 0 (nmemb * size % word) s')

-- The block whose storage begins at `ptr`.
unfoldable pub realloc_loop : ℕ → ℕ → ℕ → UserHeap → Option Scan
realloc_loop zero ptr bp s = none
realloc_loop (suc f) ptr bp s =
    let s' = sanity_check bp s in
    let rest = realloc_loop f ptr (s'.blocks bp).next s' in
    if bp == null
    then some (missed bp s)
    else if block_start bp == ptr
    then some (found bp s')
    else rest

-- The block takes in the free block behind it.
unfoldable pub absorb_next : ℕ → ℕ → ℕ → UserHeap → UserHeap
absorb_next bp np size s =
    let b = s.blocks bp in
    let n = s.blocks np in
    let s1 =
      write_block bp
        (record b {
          next = n.next;
          size = add32 (add32 b.size n.size) header_size;
          size_used = size;
        })
        s in
    if n.next == null then s1 else set_previous n.next bp s1

-- `rp` is the new block.
unfoldable pub move_block : Link → ℕ → ℕ → ℕ → UserHeap → Option (ℕ × UserHeap)
move_block link ptr bp rp s =
    if rp == null
    then some (null, s)
    else do s' ← free link ptr (memcpy rp ptr (s.blocks bp).size_used s); some (rp, s')

unfoldable pub resize : Link → ℕ → ℕ → Scan → Option (ℕ × UserHeap)
resize link ptr size (missed _ s) = some (null, warn s)
resize link ptr size (found bp s) =
    let b = s.blocks bp in
    let n = s.blocks b.next in
    if leb size b.size
    then some (ptr, set_used bp size s)
    else if not (b.next == null)
        && (n.size_used == 0)
        && leb size (add32 (add32 b.size n.size) header_size)
    then some (ptr, absorb_next bp b.next size s)
    else do (rp, s') ← malloc link size s; move_block link ptr bp rp s'

unfoldable pub realloc_ready : Link → ℕ → ℕ → UserHeap → Option (ℕ × UserHeap)
unfolding realloc_loop resize
realloc_ready link ptr size s = do
  r ← realloc_loop (fuel_of s) ptr s.heap_start s
  resize link ptr size r

unfoldable pub realloc : Link → ℕ → ℕ → UserHeap → Option (ℕ × UserHeap)
unfolding realloc_ready
realloc link ptr size s =
    if size == 0
    then (do s' ← free link ptr s; some (null, s'))
    else if ptr == null
    then malloc link size s
    else if not s.not_initialized
    then realloc_ready link ptr size s
    else if link.user_lib
    then realloc_ready link ptr size (init_heap link s)
    else some (null, s)
