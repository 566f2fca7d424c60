-- ===== src/UserHeap/Brk.antt =====
-- libc.c: the break of a user program, and the growth of its heap.
pub mod Back
use yalnix_os_project.Base.{ℕ, ◌+◌, ◌-◌, ◌*◌, ◌/◌, ◌%◌, false, ltb, ◌==◌, if◌then◌else◌}
use yalnix_os_project.Machine.{Status, success, error, null, word, page_size, up_to_page}
use yalnix_os_project.UserHeap.State.{
  Block, UserHeap, Link, add32, sub32, magic, header_size, write_block,
}

unfoldable pub brk_unlocked : Link → ℕ → UserHeap → Status × UserHeap
unfolding up_to_page
brk_unlocked link addr s =
    let rounded = (addr + 7) % word / 8 * 8 in
    let page = up_to_page rounded in
    let moved : UserHeap = record s { current_break = rounded } in
    if page == up_to_page s.current_break
    then (success, moved)
    else if link.sys_brk s page == 0
    then (success, moved)
    else (error, s)

-- The emulator's mutex around `brk_unlocked` has no state of its own.
unfoldable pub brk : Link → ℕ → UserHeap → Status × UserHeap
brk link addr s = brk_unlocked link addr s

-- -1 as a pointer.
abbrev pub minus_one : ℕ
minus_one = word - 1

sbrk_result : ℕ → Status × UserHeap → ℕ × UserHeap
sbrk_result old (success, s) = (old, s)
sbrk_result old (error, s) = (minus_one, s)

-- `incr` is an `int` as a word.
unfoldable pub sbrk : Link → ℕ → UserHeap → ℕ × UserHeap
unfolding sbrk_result
sbrk link incr s =
    if incr == 0
    then (s.current_break, s)
    else sbrk_result s.current_break (brk_unlocked link (add32 s.current_break incr) s)

-- `__default_morecore`, through which a C library's `malloc` asks for more.
unfoldable pub default_morecore : Link → ℕ → UserHeap → ℕ × UserHeap
default_morecore link incr s =
    let (result, s') = sbrk link incr s in (if result == minus_one then null else result, s')

brk_result : ℕ → Status × UserHeap → Status × UserHeap
brk_result addr (success, s) = (success, record s { current_break = addr })
brk_result addr (error, s) = (error, s)

-- `Brk`, which asks the kernel for exactly this address.
unfoldable pub brk_syscall : Link → ℕ → UserHeap → Status × UserHeap
unfolding brk_result
brk_syscall link addr s =
    brk_result addr (if link.sys_brk s addr == 0 then (success, s) else (error, s))

abbrev pub pre_startup_heapsize : ℕ
pre_startup_heapsize = 4 * page_size

abbrev pub free_header : ℕ → Block
free_header size = record {
  magic1 = magic;
  size = size;
  size_used = 0;
  next = null;
  previous = null;
  magic2 = magic;
}

-- The status of the break is only traced.
unfoldable pub init_heap : Link → UserHeap → UserHeap
init_heap link s =
    let start = s.current_break in
    let s1 = (brk_unlocked link (add32 start pre_startup_heapsize) s).1 in
    let stop = s1.current_break in
    write_block start (free_header (sub32 (sub32 stop start) header_size))
      (record s1 { heap_start = start; heap_end = stop; not_initialized = false })

-- The block behind the old end of the heap, once the break has moved to `new_end`.
unfoldable pub add_block : UserHeap → ℕ × UserHeap
add_block s =
    let new_end = s.current_break in
    (
      s.heap_end,
      write_block s.heap_end (free_header (sub32 (sub32 new_end s.heap_end) header_size))
          (record s { heap_end = new_end }),
    )

unfoldable pub grow_result : ℕ → Status × UserHeap → ℕ × UserHeap
unfolding add_block
grow_result req (error, s) = (null, s)
grow_result req (success, s) = if ltb s.current_break req then (null, s) else add_block s

unfoldable pub grow_heap : Link → ℕ → UserHeap → ℕ × UserHeap
unfolding grow_result
grow_heap link len s =
    let req = up_to_page (add32 (add32 s.heap_end len) header_size) in
    if s.heap_start == null then (null, s) else grow_result req (brk link req s)
