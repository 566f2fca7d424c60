-- ===== src/UserHeap/Release.antt =====
-- `free` on a sound heap, with an address inside a block in use.
use yalnix_os_project.Base.{
  ℕ, zero, suc, ◌+◌, ◌≤◌, ◌<◌, ◌≡◌, ◌≢◌, refl, ap, ◌∙◌, false, true, List, [], ◌∷◌, ◌++◌, ◌&&◌,
  Option, some, ltb, leb, ◌==◌, if◌then◌else◌, arith,
}
use yalnix_os_project.Machine.{null}
use yalnix_os_project.UserHeap.State.{Block, UserHeap, Link, header_size, block_start}
use yalnix_os_project.UserHeap.Brk.{init_heap}
use yalnix_os_project.UserHeap.Alloc.{free_loop, free, fuel_of, set_used, garbage_collect}
use yalnix_os_project.UserHeap.Chain.{
  Cell, Chain, end_of, next_of, Chain-le, Chain-drop, addr_after, prev_after, le-addr_after,
}
use yalnix_os_project.UserHeap.Sound.{Bounded, sanity_check-Inside, Chain-Inside, block_end-end_of}
use yalnix_os_project.UserHeap.Split.{cell, set_used-Rewritten}
use yalnix_os_project.UserHeap.Collect.{coalesce, Collected, collected, garbage_collect-Collected}
use yalnix_os_project.UserHeap.Serve.{Sound, Sound-same, Rewritten-Sound, if_not}

pub next_of_middle :
    (before : List Cell) (c : Cell) (cs : List Cell) (e : ℕ) → next_of (before ++ c ∷ cs) e ≡ e
next_of_middle [] c cs e = refl
next_of_middle (x ∷ before) c cs e = refl

-- The walk finds the block with the address.
free_loop_found :
    (s : UserHeap) (fuel addr prev a : ℕ) (before : List Cell) (c : Cell) (cs : List Cell)
    → Bounded s
    → s.heap_start ≤ a
    → s.heap_end < a + fuel
    → Chain s.blocks prev a (before ++ c ∷ cs) s.heap_end
    → c.used ≢ 0
    → addr_after a before + header_size ≤ addr
    → addr < end_of (addr_after a before) c
    → free_loop fuel addr a s ≡ garbage_collect (set_used (addr_after a before) 0 s)
unfolding free_loop
free_loop_found s zero addr prev a before c cs o low enough h used from to =
    let le = Chain-le s.blocks prev a (before ++ c ∷ cs) s.heap_end h in absurd (omega arith)
free_loop_found s (suc fuel) addr prev a [] c cs o low enough h used from to =
    let start = o.start_pos in
    let here : (a == null) ≡ false = ground arith in
    let inside = Chain-Inside s prev a c cs low h in
    let quiet = sanity_check-Inside s prev a (next_of cs (end_of a c)) c o inside in
    let e = block_end-end_of s prev a (next_of cs (end_of a c)) c o inside in
    let top = inside.before_end in
    let max = o.end_low in
    let hit : (leb (block_start a) addr && ltb addr (end_of a c)) ≡ true = ground arith in
    let n : (s.blocks a).size_used ≡ c.used = ap (λ (x : Block). x.size_used) h.0 in
    let busy : (c.used == 0) ≡ false = ground arith in rw (here, quiet, e, hit, n, busy) refl
free_loop_found s (suc fuel) addr prev a (x ∷ before) c cs o low enough h used from to =
    let start = o.start_pos in
    let here : (a == null) ≡ false = ground arith in
    let later = before ++ c ∷ cs in
    let inside = Chain-Inside s prev a x later low h in
    let quiet = sanity_check-Inside s prev a (next_of later (end_of a x)) x o inside in
    let e = block_end-end_of s prev a (next_of later (end_of a x)) x o inside in
    let beyond = le-addr_after (end_of a x) before in
    let miss : (leb (block_start a) addr && ltb addr (end_of a x)) ≡ false = ground arith in
    let n : (s.blocks a).next ≡ end_of a x =
      ap (λ (b : Block). b.next) h.0 ∙ next_of_middle before c cs (end_of a x) in
    rw (here, quiet, e, miss, n)
      (free_loop_found s fuel addr a (end_of a x) before c cs o (omega arith) (omega arith) h.2 used
        from to)

-- All blocks, with the free runs merged.
unfoldable pub coalesced : List Cell → List Cell
coalesced [] = []
coalesced (c ∷ cs) = coalesce c cs

-- A heap that became sound with these blocks, and is otherwise as it was.
pub data Freed (s : UserHeap) (cs : List Cell) : Option UserHeap → Type 0 where
  freed :
      (s' : UserHeap) → s' ≡ record s { blocks = s'.blocks } → Sound s' cs → Freed s cs (some s')

Collected-Freed :
    (s s1 : UserHeap) (cs ds : List Cell) (r : Option UserHeap)
    → s1 ≡ record s { blocks = s1.blocks }
    → Sound s1 cs
    → Collected s1 null s1.heap_start ds r
    → Freed s ds r
Collected-Freed s s1 cs ds r e o (collected s' q) =
    freed s' (q.only ∙ ap (λ (x : UserHeap). record x { blocks = s'.blocks }) e)
      (Sound-same s1 s' cs ds q.only o q.chain)

garbage_collect-Freed :
    (s s1 : UserHeap) (cs : List Cell)
    → s1 ≡ record s { blocks = s1.blocks }
    → Sound s1 cs
    → Freed s (coalesced cs) (garbage_collect s1)
unfolding coalesced
garbage_collect-Freed s s1 [] e o =
    let b = o.bounds in let lt = b.start_lt_end in let h = o.chain in absurd (omega arith)
garbage_collect-Freed s s1 (c ∷ cs) e o =
    Collected-Freed s s1 (c ∷ cs) (coalesce c cs) (garbage_collect s1) e o
      (garbage_collect-Collected s1 c cs o.bounds o.chain)

-- On a sound heap, freeing any address inside a block in use returns, makes that block free and
-- merges every run of free blocks; nothing else changes and nothing is complained about, and the
-- heap is sound afterwards.
pub free-Freed :
    (link : Link) (s : UserHeap) (addr : ℕ) (before : List Cell) (c : Cell) (cs : List Cell)
    → Sound s (before ++ c ∷ cs)
    → c.used ≢ 0
    → addr_after s.heap_start before + header_size ≤ addr
    → addr < end_of (addr_after s.heap_start before) c
    → Freed s (coalesced (before ++ cell c.size 0 ∷ cs)) (free link addr s)
unfolding free
free-Freed link s addr before c cs o used from to =
    let a = addr_after s.heap_start before in
    let prev = prev_after null s.heap_start before in
    let b = o.bounds in
    let start = b.start_pos in
    let here : (addr == null) ≡ false = ground arith in
    let lt = b.start_lt_end in
    let found =
      free_loop_found s (fuel_of s) addr null s.heap_start before c cs b (omega arith) (omega arith)
        o.chain used from to in
    let s1 = set_used a 0 s in
    let h = Chain-drop s.blocks null s.heap_start before (c ∷ cs) s.heap_end o.chain in
    let r =
      set_used-Rewritten s s prev a 0 c cs (omega arith)
        (record { only = refl; frame = λ i lt. refl; chain = h }) in
    let o1 = Rewritten-Sound s s1 before c (cell c.size 0) cs cs o r in
    rw
      (
        here,
        if_not s.not_initialized (free_loop (fuel_of s) addr s.heap_start s)
            (if link.user_lib
              then (let s' = init_heap link s in free_loop (fuel_of s') addr s'.heap_start s')
              else some s)
            o.ready,
        found,
      )
      (garbage_collect-Freed s s1 (before ++ cell c.size 0 ∷ cs) r.only o1)
