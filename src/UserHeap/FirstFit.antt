-- ===== src/UserHeap/FirstFit.antt =====
-- The loop of `malloc`: the first free block that has room.
use yalnix_os_project.Base.{
  ℕ, zero, suc, ◌+◌, ◌≤◌, ◌<◌, ◌≡◌, refl, ap, inl, inr, Bool, false, true, Bool-cases, List, [],
  ◌∷◌, ◌++◌, ◌&&◌, Option, some, leb, ◌==◌, arith,
}
use yalnix_os_project.Machine.{null}
use yalnix_os_project.UserHeap.State.{Block, UserHeap}
use yalnix_os_project.UserHeap.Alloc.{Scan, found, missed, malloc_loop}
use yalnix_os_project.UserHeap.Chain.{
  Cell, Chain, end_of, next_of, Chain-le, addr_after, prev_after,
}
use yalnix_os_project.UserHeap.Sound.{Bounded, sanity_check-Inside, Chain-Inside}

-- `!bp->size_used && bp->size >= len`
abbrev pub has_room : ℕ → Cell → Bool
has_room len c = (c.used == 0) && leb len c.size

-- No block of the list has room.
abbrev pub Full : ℕ → List Cell → Type 0
Full len [] = Unit
Full len (c ∷ cs) = (has_room len c ≡ false) × Full len cs

-- The first block with room, and the blocks around it.
pub record FirstFit (len : ℕ) (cs : List Cell) : Type 0 where
  pub before : List Cell
  pub block : Cell
  pub after : List Cell
  pub split : cs ≡ before ++ block ∷ after
  pub skipped : Full len before
  pub room : has_room len block ≡ true

-- What the walk ends with, from the block at `a` on.
pub data Found (s : UserHeap) (len prev a : ℕ) (cs : List Cell) : Option Scan → Type 0 where
  fit : (f : FirstFit len cs) → Found s len prev a cs (some (found (addr_after a f.before) s))
  full : Full len cs → Found s len prev a cs (some (missed (prev_after prev a cs) s))

Found-later :
    (s : UserHeap) (len prev a : ℕ) (c : Cell) (cs : List Cell) (r : Option Scan)
    → has_room len c ≡ false
    → Found s len a (end_of a c) cs r
    → Found s len prev a (c ∷ cs) r
Found-later s len prev a c cs r tight (fit f) = fit (record {
  before = c ∷ f.before;
  block = f.block;
  after = f.after;
  split = ap (λ xs. c ∷ xs) f.split;
  skipped = (tight, f.skipped);
  room = f.room;
})
Found-later s len prev a c cs r tight (full n) = full (tight, n)

-- The walk is silent, ends within the fuel, and finds the first free block with room.
pub malloc_loop-Found :
    (s : UserHeap) (len fuel prev a : ℕ) (cs : List Cell)
    → Bounded s
    → s.heap_start ≤ a
    → s.heap_end < a + fuel
    → Chain s.blocks prev a cs s.heap_end
    → Found s len prev a cs (malloc_loop fuel len (next_of cs a) prev s)
unfolding malloc_loop
malloc_loop-Found s len zero prev a cs o low enough h =
    let le = Chain-le s.blocks prev a cs s.heap_end h in absurd (omega arith)
malloc_loop-Found s len (suc fuel) prev a [] o low enough h = full tt
malloc_loop-Found s len (suc fuel) prev a (c ∷ cs) o low enough h =
    let quiet =
      sanity_check-Inside s prev a (next_of cs (end_of a c)) c o
        (Chain-Inside s prev a c cs low h) in
    let start = o.start_pos in
    let here : (a == null) ≡ false = ground arith in
    let used : (s.blocks a).size_used ≡ c.used = ap (λ (x : Block). x.size_used) h.0 in
    let size : (s.blocks a).size ≡ c.size = ap (λ (x : Block). x.size) h.0 in
    let next : (s.blocks a).next ≡ next_of cs (end_of a c) = ap (λ (x : Block). x.next) h.0 in
    let later = malloc_loop-Found s len fuel a (end_of a c) cs o (omega arith) (omega arith) h.2 in
    elim (Bool-cases (has_room len c)) [
      | inl roomy ↦
          rw (here, quiet, used, size, roomy)
            (fit (record {
              before = [];
              block = c;
              after = cs;
              split = refl;
              skipped = tt;
              room = roomy;
            }))
      | inr tight ↦
          rw (here, quiet, used, size, next, tight)
            (Found-later s len prev a c cs (malloc_loop fuel len (next_of cs (end_of a c)) a s)
              tight later)
    ]
