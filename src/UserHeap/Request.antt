-- ===== src/UserHeap/Request.antt =====
-- Every outcome of `malloc` on a sound heap.
use yalnix_os_project.Base.{
  ℕ, zero, suc, ◌+◌, ◌≤◌, ◌<◌, ◌^◌, ◌≡◌, refl, sym, ap, ◌∙◌, false, List, [], ◌∷◌, ◌++◌, Option,
  some, leb, ◌==◌, if◌then◌else◌, arith,
}
use yalnix_os_project.Machine.{null}
use yalnix_os_project.UserHeap.State.{UserHeap, Link, word_round}
use yalnix_os_project.UserHeap.Brk.{init_heap, grow_heap}
use yalnix_os_project.UserHeap.Alloc.{
  Scan, missed, fuel_of, take_block, use_grown, malloc_loop, finish_malloc, malloc_ready, malloc,
  ◌>>=◌,
}
use yalnix_os_project.UserHeap.Chain.{Cell, end_of, next_of, addr_after, prev_after, le-addr_after}
use yalnix_os_project.UserHeap.FirstFit.{
  has_room, Full, FirstFit, Found, fit, full, malloc_loop-Found,
}
use yalnix_os_project.UserHeap.Serve.{
  Sound, Served, take_block-Served, needed, needed-word_round, needed_even, nonempty, if_not,
}
use yalnix_os_project.UserHeap.Grow.{Grown}
use yalnix_os_project.UserHeap.Enlarge.{grow-Grown}

-- The blocks but the last, and the last.
record Ended (cs : List Cell) : Type 0 where
  init : List Cell
  end : Cell
  eq : cs ≡ init ++ end ∷ []

ended : (c : Cell) (cs : List Cell) → Ended (c ∷ cs)
ended c [] = record { init = []; end = c; eq = refl }
ended c (d ∷ ds) =
    let e = ended d ds in record { init = c ∷ e.init; end = e.end; eq = ap (λ xs. c ∷ xs) e.eq }

prev_after_snoc :
    (p a : ℕ) (xs : List Cell) (c : Cell) → prev_after p a (xs ++ c ∷ []) ≡ addr_after a xs
prev_after_snoc p a [] c = refl
prev_after_snoc p a (x ∷ xs) c = prev_after_snoc a (end_of a x) xs c

-- How a request ends: the first block with room is handed out, or no block has room and the heap
-- grows, or the kernel refuses that.
pub data Malloced (link : Link) (s : UserHeap) (n : ℕ) (cs : List Cell)
    : Option (ℕ × UserHeap) → Type 0 where
  served :
      (f : FirstFit n cs) (r : ℕ × UserHeap)
      → Served s n f.before f.block f.after r
      → Malloced link s n cs (some r)
  grew :
      (before : List Cell) (c : Cell) (r : ℕ × UserHeap)
      → Full n cs
      → cs ≡ before ++ c ∷ []
      → Grown link s n before c r
      → Malloced link s n cs (some r)

module _ (link : Link) (s : UserHeap) (n : ℕ) (cs : List Cell) (even : word_round n ≡ n)
    (o : Sound s cs) (low : s.heap_end + n + 9000 < 2 ^ 31) where
  fit_lem :
      (f : FirstFit n cs)
      → Malloced link s n cs (some (take_block (addr_after s.heap_start f.before) n s))
  fit_lem f =
      let room = f.room in
      served f (take_block (addr_after s.heap_start f.before) n s) (
        take_block-Served s n f.before f.block f.after even (ground arith) (ground arith)
          (rw (sym f.split) o))

  full_lem :
      (e : Ended cs)
      → Full n cs
      → Malloced link s n cs
          (some (finish_malloc link n (missed (prev_after null s.heap_start cs) s)))
  unfolding finish_malloc
  full_lem e no_room =
      let a = addr_after s.heap_start e.init in
      let b = o.bounds in
      let start = b.start_pos in
      let le = le-addr_after s.heap_start e.init in
      let last : prev_after null s.heap_start cs ≡ a =
        ap (prev_after null s.heap_start) e.eq ∙ prev_after_snoc null s.heap_start e.init e.end in
      let here : (a == null) ≡ false = ground arith in
      rw (last, here)
        (grew e.init e.end (use_grown n a (grow_heap link n s)) no_room e.eq
          (grow-Grown link s n e.init e.end even (rw (sym e.eq) o) low))

  Found-Malloced :
      (e : Ended cs) (r : Option Scan)
      → Found s n null s.heap_start cs r
      → Malloced link s n cs (r >>= λ x. some (finish_malloc link n x))
  unfolding finish_malloc
  Found-Malloced e r (fit f) = fit_lem f
  Found-Malloced e r (full no_room) = full_lem e no_room

above_null : (a k : ℕ) → 0 < a → a ≤ k → (k == null) ≡ false
above_null a k pos le = ground arith

-- The walk assigns `last` before it reads it.
malloc_loop_unset :
    (fuel n bp x y : ℕ) (s : UserHeap)
    → (bp == null) ≡ false
    → malloc_loop fuel n bp x s ≡ malloc_loop fuel n bp y s
unfolding malloc_loop
malloc_loop_unset zero n bp x y s some_block = refl
malloc_loop_unset (suc fuel) n bp x y s some_block = rw some_block refl

walk_from :
    (s : UserHeap) (n fuel bp x : ℕ) (cs : List Cell)
    → (bp == null) ≡ false
    → bp ≡ next_of cs s.heap_start
    → Found s n null s.heap_start cs (malloc_loop fuel n (next_of cs s.heap_start) null s)
    → Found s n null s.heap_start cs (malloc_loop fuel n bp x s)
walk_from s n fuel bp x cs some_block e h =
    rw (malloc_loop_unset fuel n bp x null s some_block, e) h

not_empty : (s : UserHeap) (cs : List Cell) → Sound s cs → Ended cs
not_empty s [] o =
    let b = o.bounds in let lt = b.start_lt_end in let h = o.chain in absurd (omega arith)
not_empty s (c ∷ cs) o = ended c cs

malloc_ready-Malloced :
    (link : Link) (s : UserHeap) (n : ℕ) (cs : List Cell)
    → word_round n ≡ n
    → s.heap_end + n + 9000 < 2 ^ 31
    → Sound s cs
    → Malloced link s n cs (malloc_ready link n s)
unfolding malloc_ready
malloc_ready-Malloced link s n cs even low o =
    let b = o.bounds in
    let lt = b.start_lt_end in
    let start = nonempty s.blocks null s.heap_start cs s.heap_end lt o.chain in
    let some_start = above_null s.heap_start s.heap_start b.start_pos (omega arith) in
    Found-Malloced link s n cs even o low (not_empty s cs o)
      (malloc_loop (fuel_of s) n s.heap_start link.unset s)
      (walk_from s n (fuel_of s) s.heap_start link.unset cs some_start (sym start) (
        malloc_loop-Found s n (fuel_of s) null s.heap_start cs b (omega arith) (omega arith)
          o.chain))

Full-misfit :
    (n : ℕ) (before : List Cell) (c : Cell) (after : List Cell)
    → Full n (before ++ c ∷ after)
    → has_room n c ≡ false
Full-misfit n [] c after h = h.0
Full-misfit n (x ∷ before) c after h = Full-misfit n before c after h.1

Found-missed :
    (s : UserHeap) (n prev a : ℕ) (cs : List Cell) (r : Option Scan)
    → Full n cs
    → Found s n prev a cs r
    → r ≡ some (missed (prev_after prev a cs) s)
Found-missed s n prev a cs r no_room (fit f) =
    let tight = Full-misfit n f.before f.block f.after (rw (sym f.split) no_room) in
    let room = f.room in absurd (cc)
Found-missed s n prev a cs r no_room (full other) = refl

-- On a sound heap whose growth would stay in the lower half of the address space, malloc returns
-- and is silent. The first free block with room for the length and 4 bytes, rounded up to a word,
-- is split and handed out; if there is none, a block behind the old end is, merged with the last
-- block if that was free, or, only where the growth comes to another page and the kernel refuses
-- it, malloc returns NULL and nothing changes. The heap is sound afterwards.
pub malloc-Malloced :
    (link : Link) (s : UserHeap) (len : ℕ) (cs : List Cell)
    → s.heap_end + needed len + 9000 < 2 ^ 31
    → Sound s cs
    → Malloced link s (needed len) cs (malloc link len s)
unfolding malloc
malloc-Malloced link s len cs low o =
    let small : len < 2 ^ 31 = omega arith in
    let guard : leb (2 ^ 31) len ≡ false = ground arith in
    let n = needed len in
    let other = if link.user_lib then malloc_ready link n (init_heap link s) else some (null, s) in
    rw
      (
        guard,
        needed-word_round len small,
        if_not s.not_initialized (malloc_ready link n s) other o.ready,
      )
      (malloc_ready-Malloced link s n cs (needed_even len small) low o)

-- Where no block has room, malloc is the growth of the heap and what follows it.
pub malloc_grows :
    (link : Link) (s : UserHeap) (len : ℕ) (before : List Cell) (c : Cell)
    → s.heap_end + needed len + 9000 < 2 ^ 31
    → Sound s (before ++ c ∷ [])
    → Full (needed len) (before ++ c ∷ [])
    → malloc link len s
      ≡ some
          (use_grown (needed len) (addr_after s.heap_start before) (grow_heap link (needed len) s))
unfolding malloc malloc_ready finish_malloc
malloc_grows link s len before c low o no_room =
    let n = needed len in
    let b = o.bounds in
    let pos = b.start_pos in
    let lt = b.start_lt_end in
    let cs = before ++ c ∷ [] in
    let small : len < 2 ^ 31 = omega arith in
    let guard : leb (2 ^ 31) len ≡ false = ground arith in
    let other = if link.user_lib then malloc_ready link n (init_heap link s) else some (null, s) in
    let start = nonempty s.blocks null s.heap_start cs s.heap_end lt o.chain in
    let some_start = above_null s.heap_start s.heap_start pos (omega arith) in
    let walk =
      Found-missed s n null s.heap_start cs (malloc_loop (fuel_of s) n s.heap_start link.unset s)
        no_room
        (walk_from s n (fuel_of s) s.heap_start link.unset cs some_start (sym start) (
          malloc_loop-Found s n (fuel_of s) null s.heap_start cs b (omega arith) (omega arith)
            o.chain)) in
    let here =
      above_null s.heap_start (addr_after s.heap_start before) pos
        (le-addr_after s.heap_start before) in
    rw
      (
        guard,
        needed-word_round len small,
        if_not s.not_initialized (malloc_ready link n s) other o.ready,
        walk,
        prev_after_snoc null s.heap_start before c,
        here,
      )
      refl
