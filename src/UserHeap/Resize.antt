-- ===== src/UserHeap/Resize.antt =====
-- `realloc` on a sound heap, where the block is long enough for the new size.
use yalnix_os_project.Base.{
  ℕ, zero, suc, ◌+◌, ◌≤◌, ◌<◌, ◌≡◌, refl, ap, ◌∙◌, false, true, List, [], ◌∷◌, ◌++◌, Option, some,
  leb, ◌==◌, if◌then◌else◌, arith,
}
use yalnix_os_project.Machine.{null}
use yalnix_os_project.UserHeap.State.{Block, UserHeap, Link, header_size, block_start}
use yalnix_os_project.UserHeap.Brk.{init_heap}
use yalnix_os_project.UserHeap.Alloc.{found, fuel_of, set_used}
use yalnix_os_project.UserHeap.Realloc.{realloc_loop, realloc_ready, realloc, resize}
use yalnix_os_project.UserHeap.Chain.{
  Cell, Chain, end_of, next_of, Chain-le, Chain-drop, addr_after, prev_after, le-addr_after,
}
use yalnix_os_project.UserHeap.Sound.{Bounded, sanity_check-Inside, Chain-Inside}
use yalnix_os_project.UserHeap.Split.{cell, set_used-Rewritten}
use yalnix_os_project.UserHeap.Serve.{Sound, Rewritten-Sound, if_not}
use yalnix_os_project.UserHeap.Release.{next_of_middle}

-- The walk finds the block whose storage starts at `ptr`.
pub realloc_loop_found :
    (s : UserHeap) (fuel ptr prev a : ℕ) (before : List Cell) (c : Cell) (cs : List Cell)
    → Bounded s
    → s.heap_start ≤ a
    → s.heap_end < a + fuel
    → Chain s.blocks prev a (before ++ c ∷ cs) s.heap_end
    → ptr ≡ addr_after a before + header_size
    → realloc_loop fuel ptr a s ≡ some (found (addr_after a before) s)
unfolding realloc_loop
realloc_loop_found s zero ptr prev a before c cs o low enough h at =
    let le = Chain-le s.blocks prev a (before ++ c ∷ cs) s.heap_end h in absurd (omega arith)
realloc_loop_found s (suc fuel) ptr prev a [] c cs o low enough h at =
    let start = o.start_pos in
    let here : (a == null) ≡ false = ground arith in
    let inside = Chain-Inside s prev a c cs low h in
    let quiet = sanity_check-Inside s prev a (next_of cs (end_of a c)) c o inside in
    let top = inside.before_end in
    let max = o.end_low in
    let hit : (block_start a == ptr) ≡ true = ground arith in rw (here, quiet, hit) refl
realloc_loop_found s (suc fuel) ptr prev a (x ∷ before) c cs o low enough h at =
    let start = o.start_pos in
    let here : (a == null) ≡ false = ground arith in
    let later = before ++ c ∷ cs in
    let inside = Chain-Inside s prev a x later low h in
    let quiet = sanity_check-Inside s prev a (next_of later (end_of a x)) x o inside in
    let beyond = le-addr_after (end_of a x) before in
    let top = inside.before_end in
    let max = o.end_low in
    let miss : (block_start a == ptr) ≡ false = ground arith in
    let n : (s.blocks a).next ≡ end_of a x =
      ap (λ (b : Block). b.next) h.0 ∙ next_of_middle before c cs (end_of a x) in
    rw (here, quiet, miss, n)
      (realloc_loop_found s fuel ptr a (end_of a x) before c cs o (omega arith) (omega arith) h.2
        at)

-- The same address, with another heap whose blocks are these.
pub data Kept (s : UserHeap) (ptr : ℕ) (cs : List Cell) : Option (ℕ × UserHeap) → Type 0 where
  kept :
      (s' : UserHeap)
      → s' ≡ record s { blocks = s'.blocks }
      → Sound s' cs
      → Kept s ptr cs (some (ptr, s'))

pub resize-Kept :
    (link : Link) (s : UserHeap) (ptr size : ℕ) (before : List Cell) (c : Cell) (cs : List Cell)
    → Sound s (before ++ c ∷ cs)
    → size ≤ c.size
    → Kept s ptr
        (before ++ cell c.size size ∷ cs)
        (resize link ptr size (found (addr_after s.heap_start before) s))
unfolding resize
resize-Kept link s ptr size before c cs o fits =
    let a = addr_after s.heap_start before in
    let prev = prev_after null s.heap_start before in
    let h = Chain-drop s.blocks null s.heap_start before (c ∷ cs) s.heap_end o.chain in
    let len : (s.blocks a).size ≡ c.size = ap (λ (x : Block). x.size) h.0 in
    let room : leb size (s.blocks a).size ≡ true = ground arith in
    let r =
      set_used-Rewritten s s prev a size c cs fits
        (record { only = refl; frame = λ i lt. refl; chain = h }) in
    let sound = Rewritten-Sound s (set_used a size s) before c (cell c.size size) cs cs o r in
    let result : Kept s ptr (before ++ cell c.size size ∷ cs) (some (ptr, set_used a size s)) =
      kept (set_used a size s) r.only sound in
    rw room result

-- On a sound heap, realloc of a block to a size that is not 0 and not above the block's own
-- returns the same address and only writes the size in use.
pub realloc-Kept :
    (link : Link) (s : UserHeap) (ptr size : ℕ) (before : List Cell) (c : Cell) (cs : List Cell)
    → Sound s (before ++ c ∷ cs)
    → 0 < size
    → size ≤ c.size
    → ptr ≡ addr_after s.heap_start before + header_size
    → Kept s ptr (before ++ cell c.size size ∷ cs) (realloc link ptr size s)
unfolding realloc realloc_ready
realloc-Kept link s ptr size before c cs o pos fits at =
    let b = o.bounds in
    let start = b.start_pos in
    let lt = b.start_lt_end in
    let some_size : (size == 0) ≡ false = ground arith in
    let some_ptr : (ptr == null) ≡ false = ground arith in
    let walk =
      realloc_loop_found s (fuel_of s) ptr null s.heap_start before c cs b (omega arith)
        (omega arith) o.chain at in
    let other =
      if link.user_lib then realloc_ready link ptr size (init_heap link s) else some (null, s) in
    rw
      (
        some_size,
        some_ptr,
        if_not s.not_initialized (realloc_ready link ptr size s) other o.ready,
        walk,
      )
      (resize-Kept link s ptr size before c cs o fits)
