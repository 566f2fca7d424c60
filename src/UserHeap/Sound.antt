-- ===== src/UserHeap/Sound.antt =====
-- A sound heap: nothing that `sanity_check` would complain about.
use yalnix_os_project.Base.{
  ℕ, ◌≤◌, ◌<◌, ◌^◌, ◌≡◌, refl, ap, ◌⊎◌, inl, inr, false, List, [], ◌∷◌, ltb, leb, not, ◌||◌, ◌==◌,
  arith,
}
use yalnix_os_project.Machine.{null}
use yalnix_os_project.UserHeap.State.{Block, UserHeap, magic, block_end}
use yalnix_os_project.UserHeap.Block.{sanity_check, not_adjacent}
use yalnix_os_project.UserHeap.Chain.{Cell, Chain, header, end_of, next_of, Chain-le}

-- The heap's bounds: they do not touch address 0 or the upper half of the address space.
pub record Bounded (s : UserHeap) : Type 0 where
  pub start_pos : 0 < s.heap_start
  pub start_lt_end : s.heap_start < s.heap_end
  pub end_low : s.heap_end < 2 ^ 31

-- A block with its neighbours, inside the heap.
pub record Inside (s : UserHeap) (prev a : ℕ) (c : Cell) (next : ℕ) : Type 0 where
  pub after_start : s.heap_start ≤ a
  pub before_end : end_of a c ≤ s.heap_end
  pub block : s.blocks a ≡ header c prev next
  pub fits : c.used ≤ c.size
  pub link : (next ≡ null) ⊎ (next ≡ end_of a c)

pub block_end-end_of :
    (s : UserHeap) (prev a next : ℕ) (c : Cell)
    → Bounded s
    → Inside s prev a c next
    → block_end s a ≡ end_of a c
block_end-end_of s prev a next c o h =
    let size : (s.blocks a).size ≡ c.size = ap (λ (x : Block). x.size) h.block in
    let top = h.before_end in let low = o.end_low in rw size (omega arith)

not_adjacent-Inside :
    (s : UserHeap) (prev a next : ℕ) (c : Cell)
    → Bounded s
    → Inside s prev a c next
    → not_adjacent s a ≡ false
not_adjacent-Inside s prev a next c o h =
    let e = block_end-end_of s prev a next c o h in
    let n : (s.blocks a).next ≡ next = ap (λ (x : Block). x.next) h.block in ground (arith, h.link)

-- sanity_check does not complain about a block of a heap in order, and changes nothing.
pub sanity_check-Inside :
    (s : UserHeap) (prev a next : ℕ) (c : Cell)
    → Bounded s
    → Inside s prev a c next
    → sanity_check a s ≡ s
unfolding sanity_check
sanity_check-Inside s prev a next c o h =
    let size : (s.blocks a).size ≡ c.size = ap (λ (x : Block). x.size) h.block in
    let used : (s.blocks a).size_used ≡ c.used = ap (λ (x : Block). x.size_used) h.block in
    let m1 : (s.blocks a).magic1 ≡ magic = ap (λ (x : Block). x.magic1) h.block in
    let m2 : (s.blocks a).magic2 ≡ magic = ap (λ (x : Block). x.magic2) h.block in
    let low = h.after_start in
    let top = h.before_end in
    let fits = h.fits in
    let start = o.start_pos in
    let order = o.start_lt_end in
    let c0 : (a == null) ≡ false = ground arith in
    let c1 : (s.heap_start == s.heap_end) ≡ false = ground arith in
    let c2 : (ltb a s.heap_start || leb s.heap_end a) ≡ false = ground arith in
    let c3 : (not ((s.blocks a).magic1 == magic) || not ((s.blocks a).magic2 == magic)) ≡ false =
      ground arith in
    let c4 : ltb (s.blocks a).size (s.blocks a).size_used ≡ false = ground arith in
    rw (c0, c1, c2, c3, c4, not_adjacent-Inside s prev a next c o h)

-- The link of the first block of a chain.
pub link_of :
    (a : ℕ) (c : Cell) (cs : List Cell)
    → (next_of cs (end_of a c) ≡ null) ⊎ (next_of cs (end_of a c) ≡ end_of a c)
link_of a c [] = inl refl
link_of a c (d ∷ ds) = inr refl

pub Chain-Inside :
    (s : UserHeap) (prev a : ℕ) (c : Cell) (cs : List Cell)
    → s.heap_start ≤ a
    → Chain s.blocks prev a (c ∷ cs) s.heap_end
    → Inside s prev a c (next_of cs (end_of a c))
Chain-Inside s prev a c cs low h = record {
  after_start = low;
  before_end = Chain-le s.blocks a (end_of a c) cs s.heap_end h.2;
  block = h.0;
  fits = h.1;
  link = link_of a c cs;
}
