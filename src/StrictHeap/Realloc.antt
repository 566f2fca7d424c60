-- ===== src/StrictHeap/Realloc.antt =====
-- etc/new_heap.c: `realloc`.
use yalnix_os_project.Base.{ℕ, zero, suc, Bool, not, ◌&&◌, leb, ◌==◌, if◌then◌else◌}
use yalnix_os_project.Machine.{null}
use yalnix_os_project.UserHeap.State.{UserHeap, add32, header_size, block_start, write_block, warn}
use yalnix_os_project.UserHeap.Block.{set_previous}
use yalnix_os_project.UserHeap.Alloc.{Scan, found, missed, fuel_of, set_used}
use yalnix_os_project.UserHeap.Realloc.{memcpy}
use yalnix_os_project.StrictHeap.Run.{Run, done, spent, ◌>>=◌, Build}
use yalnix_os_project.StrictHeap.Block.{sanity_check}
use yalnix_os_project.StrictHeap.Alloc.{malloc, free}

-- The block whose storage begins at `ptr`.
unfoldable pub realloc_loop : Bool → ℕ → ℕ → ℕ → UserHeap → Run Scan
realloc_loop k zero ptr bp s = spent
realloc_loop k (suc f) ptr bp s =
    let rest = (do
      s' ← sanity_check k bp s
      let later = realloc_loop k f ptr (s'.blocks bp).next s'
      if block_start bp == ptr then done (found bp s') else later) in
    if bp == null then done (missed bp s) else rest

-- The block takes in the free block behind it.
unfoldable pub absorb_next : ℕ → ℕ → ℕ → UserHeap → UserHeap
absorb_next bp np size s =
    let b = s.blocks bp in
    let n = s.blocks np in
    let s1 =
      write_block bp
        (record b {
          next = n.next;
          size = add32 (add32 b.size n.size) header_size;
          size_used = size;
        })
        s in
    if n.next == null then s1 else set_previous n.next bp s1

-- `rp` is the new block.
unfoldable pub move_block : Build → ℕ → ℕ → ℕ → UserHeap → Run (ℕ × UserHeap)
move_block build ptr bp rp s =
    if rp == null
    then done (null, s)
    else do s' ← free build ptr (memcpy rp ptr (s.blocks bp).size_used s); done (rp, s')

unfoldable pub resize : Build → ℕ → ℕ → Scan → Run (ℕ × UserHeap)
resize build ptr size (missed _ s) = done (null, warn s)
resize build ptr size (found bp s) =
    let b = s.blocks bp in
    let n = s.blocks b.next in
    if leb size b.size
    then done (ptr, set_used bp size s)
    else if not (b.next == null)
        && (n.size_used == 0)
        && leb size (add32 (add32 b.size n.size) header_size)
    then done (ptr, absorb_next bp b.next size s)
    else do (rp, s') ← malloc build size s; move_block build ptr bp rp s'

unfoldable pub realloc_ready : Build → ℕ → ℕ → UserHeap → Run (ℕ × UserHeap)
unfolding realloc_loop resize
realloc_ready build ptr size s = do
  r ← realloc_loop build.in_kernel (fuel_of s) ptr s.heap_start s
  resize build ptr size r

unfoldable pub realloc : Build → ℕ → ℕ → UserHeap → Run (ℕ × UserHeap)
unfolding realloc_ready
realloc build ptr size s =
    if size == 0
    then (do s' ← free build ptr s; done (null, s'))
    else if ptr == null
    then malloc build size s
    else if not s.not_initialized
    then realloc_ready build ptr size s
    else if build.user_lib
    then realloc_ready build ptr size (build.init_heap s)
    else done (null, s)
