-- ===== src/UserHeap/Init.antt =====
-- libc.c: `init_heap`, with the first break granted and refused.
use yalnix_os_project.Base.{
  ℕ, suc, ◌+◌, ◌-◌, ◌*◌, ◌/◌, ◌%◌, ◌≤◌, ◌<◌, ◌^◌, ◌≡◌, ◌≢◌, refl, Bool, false, true, ltb, not, [],
  ◌∷◌, Option, some, leb, ◌==◌, if◌then◌else◌, update_same, arith,
}
use yalnix_os_project.Machine.{null, word, up_to_page}
use yalnix_os_project.UserHeap.State.{
  UserHeap, Link, add32, sub32, header_size, min_block, word_round, write_block,
}
use yalnix_os_project.UserHeap.Brk.{brk_unlocked, pre_startup_heapsize, free_header, init_heap}
use yalnix_os_project.UserHeap.Block.{sanity_check, cut, split_free_block}
use yalnix_os_project.UserHeap.Alloc.{
  found, malloc, malloc_ready, malloc_loop, fuel_of, finish_malloc, take_block,
}
use yalnix_os_project.UserHeap.Split.{cell}
use yalnix_os_project.UserHeap.Serve.{Sound, needed, needed-word_round}

-- A program's first break: above address 0 and far enough below the upper half.
pub record FirstBreak (s : UserHeap) : Type 0 where
  pub pos : 0 < s.current_break
  pub low : s.current_break + 50000 < 2 ^ 31

-- The end of the first heap, and the page that the kernel is asked for.
abbrev pub first_end : UserHeap → ℕ
first_end s = (s.current_break + pre_startup_heapsize + 7) / 8 * 8

abbrev pub first_page : UserHeap → ℕ
first_page s = up_to_page (first_end s)

first_rounded :
    (s : UserHeap)
    → FirstBreak s
    → (add32 s.current_break pre_startup_heapsize + 7) % word / 8 * 8 ≡ first_end s
first_rounded s b = let low = b.low in omega arith

first_page_above :
    (s : UserHeap) → FirstBreak s → (first_page s == up_to_page s.current_break) ≡ false
unfolding up_to_page
first_page_above s b = let low = b.low in ground arith

-- When the kernel grants the first break of a program (above address 0 and far enough below the
-- upper half of the address space), init_heap leaves a sound heap of one free block. The heap
-- starts at the old break and ends at the new one, which is four pages on, rounded up to 8 bytes.
pub init_heap-Sound :
    (link : Link) (s : UserHeap)
    → FirstBreak s
    → link.sys_brk s (first_page s) ≡ 0
    → Sound (init_heap link s) (cell (first_end s - s.current_break - header_size) 0 ∷ [])
      × ((init_heap link s).heap_start ≡ s.current_break)
      × ((init_heap link s).heap_end ≡ first_end s)
      × ((init_heap link s).current_break ≡ first_end s)
unfolding init_heap brk_unlocked
init_heap-Sound link s b granted =
    let low = b.low in
    let pos = b.pos in
    let start = s.current_break in
    let stop = first_end s in
    let grant : (link.sys_brk s (first_page s) == 0) ≡ true = rw granted refl in
    let size : sub32 (sub32 stop start) header_size ≡ stop - start - header_size = omega arith in
    rw (first_rounded s b, first_page_above s b, grant, size)
      (
        record {
          ready = refl;
          bounds = record { start_pos = pos; start_lt_end = omega arith; end_low = omega arith };
          chain = (
            update_same s.blocks start (free_header (stop - start - header_size)),
            omega arith,
            omega arith,
          );
        },
        refl,
        refl,
        refl,
      )

-- What a refused break leaves: a heap of length 0 whose block's size wrapped.
abbrev pub hollow : UserHeap → UserHeap
hollow s =
    write_block s.current_break (free_header (word - header_size)) (record s {
      heap_start = s.current_break;
      heap_end = s.current_break;
      not_initialized = false;
    })

pub init_heap_refused :
    (link : Link) (s : UserHeap)
    → FirstBreak s
    → link.sys_brk s (first_page s) ≢ 0
    → init_heap link s ≡ hollow s
unfolding init_heap brk_unlocked
init_heap_refused link s b refused =
    let low = b.low in
    let deny : (link.sys_brk s (first_page s) == 0) ≡ false = ground arith in
    let size : sub32 (sub32 s.current_break s.current_break) header_size ≡ word - header_size =
      omega arith in
    rw (first_rounded s b, first_page_above s b, deny, size) refl

-- A block behind the break, which has not moved.
pub data Promised (s : UserHeap) : Option (ℕ × UserHeap) → Type 0 where
  promised :
      (r : ℕ × UserHeap)
      → r.0 ≡ s.current_break + header_size
      → (r.1).current_break ≡ s.current_break
      → Promised s (some r)

if_break :
    (b : Bool) (x y : UserHeap) (n : ℕ)
    → x.current_break ≡ n
    → y.current_break ≡ n
    → (if b then x else y).current_break ≡ n
if_break true x y n p q = p
if_break false x y n p q = q

cut_break : (bp len : ℕ) (s : UserHeap) → (cut bp len s).current_break ≡ s.current_break
unfolding cut
cut_break bp len s = if_break ((s.blocks bp).next == null) _ _ s.current_break refl refl

split_break :
    (bp len : ℕ) (s : UserHeap)
    → sanity_check bp s ≡ s
    → (split_free_block bp len s).current_break ≡ s.current_break
unfolding split_free_block
split_break bp len s quiet =
    let b = s.blocks bp in
    let n = word_round len in
    rw quiet (
      if_break (not (b.size_used == 0)) _ _ s.current_break refl (
        if_break (ltb b.size n) _ _ s.current_break refl
          (if_break (ltb b.size (add32 n min_block)) _ _ s.current_break refl (cut_break bp n s))))

hollow_quiet :
    (s : UserHeap) → 0 < s.current_break → sanity_check s.current_break (hollow s) ≡ hollow s
unfolding sanity_check
hollow_quiet s pos =
    let here : (s.current_break == null) ≡ false = ground arith in
    let same : (s.current_break == s.current_break) ≡ true = ground arith in rw (here, same) refl

hollow_loop :
    (s : UserHeap) (n f last : ℕ)
    → 0 < s.current_break
    → n + header_size ≤ word
    → malloc_loop (suc f) n s.current_break last (hollow s)
      ≡ some (found s.current_break (hollow s))
unfolding malloc_loop
hollow_loop s n f last pos small =
    let here : (s.current_break == null) ≡ false = ground arith in
    let room : leb n (word - header_size) ≡ true = ground arith in
    let block = update_same s.blocks s.current_break (free_header (word - header_size)) in
    rw (here, hollow_quiet s pos, block, room) refl

hollow_serves :
    (link : Link) (s : UserHeap) (n : ℕ)
    → FirstBreak s
    → n + header_size ≤ word
    → Promised s (malloc_ready link n (hollow s))
unfolding malloc_ready finish_malloc take_block
hollow_serves link s n b small =
    let low = b.low in
    let enough : fuel_of (hollow s) ≡ 2 = omega arith in
    rw (enough, hollow_loop s n 1 link.unset b.pos small)
      (promised (take_block s.current_break n (hollow s)) (omega arith)
        (split_break s.current_break n (hollow s) (hollow_quiet s b.pos)))

if_fresh :
    {A : Type 0} (b user : Bool) (x y z : A)
    → b ≡ true
    → user ≡ true
    → (if not b then x else if user then y else z) ≡ y
if_fresh b user x y z fresh linked = rw (fresh, linked) refl

-- When the kernel refuses the first break of a program (above address 0 and far enough below the
-- upper half of the address space), the first malloc of less than 2^31 bytes still returns an
-- address, the one a header behind the break, and the break has not moved.
pub malloc_after_refused_break :
    (link : Link) (s : UserHeap) (len : ℕ)
    → FirstBreak s
    → link.user_lib ≡ true
    → s.not_initialized ≡ true
    → link.sys_brk s (first_page s) ≢ 0
    → len < 2 ^ 31
    → Promised s (malloc link len s)
unfolding malloc
malloc_after_refused_break link s len b user fresh refused small =
    let guard : leb (2 ^ 31) len ≡ false = ground arith in
    let h = hollow_serves link s (needed len) b (omega arith) in
    rw
      (
        guard,
        needed-word_round len small,
        if_fresh s.not_initialized link.user_lib (malloc_ready link (needed len) s)
            (malloc_ready link (needed len) (init_heap link s)) (some (null, s)) fresh user,
        init_heap_refused link s b refused,
      )
      h
