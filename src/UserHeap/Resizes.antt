-- ===== src/UserHeap/Resizes.antt =====
-- `realloc` for its callers.
use mathlib.Core.Path.{subst}
use yalnix_os_project.Base.{
  ℕ, ◌+◌, ◌≤◌, ◌<◌, ◌^◌, ◌≡◌, ◌∙◌, sym, ap, refl, Bool-cases, inl, inr, false, true, List, [], ◌∷◌,
  ◌++◌, ◌==◌, leb, if◌then◌else◌, Option, some, arith,
}
use yalnix_os_project.Machine.{null}
use yalnix_os_project.UserHeap.State.{Block, UserHeap, Link, header_size}
use yalnix_os_project.UserHeap.Brk.{init_heap}
use yalnix_os_project.UserHeap.Alloc.{◌>>=◌, found, fuel_of, malloc}
use yalnix_os_project.UserHeap.Realloc.{
  realloc_loop, absorb_next, move_block, resize, realloc_ready, realloc,
}
use yalnix_os_project.UserHeap.Chain.{
  Cell, Chain, Chain-drop, Chain-le, end_of, addr_after, prev_after, le-addr_after, next_of,
}
use yalnix_os_project.UserHeap.Split.{cell}
use yalnix_os_project.UserHeap.Merge.{is_free}
use yalnix_os_project.UserHeap.Serve.{Sound, Rewritten-Sound, if_not}
use yalnix_os_project.UserHeap.Regions.{Region, live, live_keep, live_skip, live-append}
use yalnix_os_project.UserHeap.Refines.{Holds, malloc-Gives}
use yalnix_os_project.UserHeap.Returns.{Located, locate}
use yalnix_os_project.UserHeap.Resize.{realloc_loop_found, Kept, kept, resize-Kept}
use yalnix_os_project.UserHeap.Moves.{Resizes, resized, moved-Resizes}
use yalnix_os_project.UserHeap.Widen.{wide, wide_end, wide_size, absorb_next-Rewritten}

data Behind (cs : List Cell) : Type 0 where
  is_last : cs ≡ [] → Behind cs
  is_inner : (e : Cell) (es : List Cell) → cs ≡ e ∷ es → Behind cs

Behind-cases : (cs : List Cell) → Behind cs
Behind-cases [] = is_last refl
Behind-cases (e ∷ es) = is_inner e es refl

-- The regions of a heap in which a block in use, and what is behind it, are others.
live_held :
    (a : ℕ) (before : List Cell) (c : Cell) (after : List Cell)
    → is_free c ≡ false
    → live a (before ++ c ∷ after)
      ≡ live a before
        ++ (addr_after a before + header_size, c.used) ∷ live (end_of (addr_after a before) c) after
live_held a before c after f =
    live-append a before (c ∷ after)
    ∙ ap (λ rs. live a before ++ rs) (live_keep (addr_after a before) c after f)

module _ (s : UserHeap) (cs : List Cell) (xs : List Region) (ptr n : ℕ) (ys : List Region)
    (w size : ℕ) (d : Located s.heap_start cs xs ptr n ys) (o : Sound s cs) (warn : s.warnings ≡ w)
    (pos : 0 < size) where
  abbrev here : ℕ
  here = addr_after s.heap_start d.before

  split_Sound : Sound s (d.before ++ d.block ∷ d.after)
  split_Sound = rw (sym d.split) o

  -- The block `c` instead of that of the region.
  in_place-Resizes :
      (s' : UserHeap) (c : Cell) (after : List Cell)
      → s' ≡ record s { blocks = s'.blocks }
      → Sound s' (d.before ++ c ∷ after)
      → c.used ≡ size
      → live (end_of here c) after ≡ ys
      → Resizes s xs ptr n ys w size (some (ptr, s'))
  in_place-Resizes s' c after only sound used right =
      let start : s'.heap_start ≡ s.heap_start = ap (λ (x : UserHeap). x.heap_start) only in
      let busy : is_free c ≡ false = ground arith in
      let bytes : s'.bytes ≡ s.bytes = ap (λ (x : UserHeap). x.bytes) only in
      resized xs ys size (ptr, s') refl (omega arith)
        (record {
          cells = d.before ++ c ∷ after;
          sound = sound;
          regions =
              rw
                (
                  start,
                  live_held s.heap_start d.before c after busy,
                  right,
                  used,
                  sym d.left,
                  sym d.address,
                )
                refl;
          complaints = ap (λ (x : UserHeap). x.warnings) only ∙ warn;
        })
        (λ i lo hi. ap (λ (b : ℕ → ℕ). b (ptr + i)) bytes)

  Kept-Resizes :
      (q : Option (ℕ × UserHeap))
      → Kept s ptr (d.before ++ cell (d.block).size size ∷ d.after) q
      → Resizes s xs ptr n ys w size q
  Kept-Resizes q (kept s' only sound) =
      in_place-Resizes s' (cell (d.block).size size) d.after only sound refl (sym d.right)

  split_behind :
      (e : Cell) (es : List Cell) → d.after ≡ e ∷ es → Sound s (d.before ++ d.block ∷ e ∷ es)
  split_behind e es at = rw (sym at) split_Sound

  block_Chain :
      Chain s.blocks (prev_after null s.heap_start d.before) here (d.block ∷ d.after) s.heap_end
  block_Chain =
      let so = split_Sound in
      Chain-drop s.blocks null s.heap_start d.before (d.block ∷ d.after) s.heap_end so.chain

  absorb_next-Resizes :
      (e : Cell) (es : List Cell)
      → d.after ≡ e ∷ es
      → is_free e ≡ true
      → size ≤ (d.block).size + header_size + e.size
      → Resizes s xs ptr n ys w size (some (ptr, absorb_next here (end_of here d.block) size s))
  absorb_next-Resizes e es at f fits =
      let prev = prev_after null s.heap_start d.before in
      let so = split_behind e es at in
      let chain : Chain s.blocks prev here (d.block ∷ e ∷ es) s.heap_end =
        subst (λ z. Chain s.blocks prev here (d.block ∷ z) s.heap_end) at block_Chain in
      let r =
        absorb_next-Rewritten s prev here size d.block e o.bounds
          (le-addr_after s.heap_start d.before) es fits chain in
      let s' = absorb_next here (end_of here d.block) size s in
      let sound = Rewritten-Sound s s' d.before d.block (wide d.block e size) (e ∷ es) es so r in
      let behind : live (end_of (end_of here d.block) e) es ≡ ys =
        sym (live_skip (end_of here d.block) e es f)
        ∙ ap (live (end_of here d.block)) (sym at)
        ∙ sym d.right in
      in_place-Resizes s' (wide d.block e size) es r.only sound refl (
        ap (λ z. live z es)
          (wide_end s prev here size d.block e o.bounds (le-addr_after s.heap_start d.before))
        ∙ behind)

  -- The region is moved.
  move-Resizes :
      (link : Link)
      → s.heap_end + size + 9100 < 2 ^ 31
      → Holds s (xs ++ (ptr, n) ∷ ys) w
      → Resizes s xs ptr n ys w size (malloc link size s >>= λ r. move_block link ptr here r.0 r.1)
  move-Resizes link low h =
      moved-Resizes link s xs ptr n ys w size here d.address (malloc link size s)
        (malloc-Gives link s size (xs ++ (ptr, n) ∷ ys) w low h)

  last-Resizes :
      (link : Link)
      → s.heap_end + size + 9100 < 2 ^ 31
      → Holds s (xs ++ (ptr, n) ∷ ys) w
      → leb size (d.block).size ≡ false
      → d.after ≡ []
      → Resizes s xs ptr n ys w size (resize link ptr size (found here s))
  unfolding resize
  last-Resizes link low h short at =
      let chain = block_Chain in
      let len : (s.blocks here).size ≡ (d.block).size = ap (λ (b : Block). b.size) chain.0 in
      let end : (s.blocks here).next ≡ null =
        ap (λ (b : Block). b.next) chain.0 ∙ ap (λ z. next_of z (end_of here d.block)) at in
      rw (len, end, short) (move-Resizes link low h)

  inner-Resizes :
      (link : Link) (e : Cell) (es : List Cell)
      → s.heap_end + size + 9100 < 2 ^ 31
      → Holds s (xs ++ (ptr, n) ∷ ys) w
      → leb size (d.block).size ≡ false
      → d.after ≡ e ∷ es
      → Resizes s xs ptr n ys w size (resize link ptr size (found here s))
  unfolding resize
  inner-Resizes link e es low h short at =
      let behind = end_of here d.block in
      let chain : Chain s.blocks (prev_after null s.heap_start d.before) here (d.block ∷ e ∷ es)
          s.heap_end =
        subst
          (λ z.
            Chain s.blocks (prev_after null s.heap_start d.before) here (d.block ∷ z) s.heap_end)
          at block_Chain in
      let len : (s.blocks here).size ≡ (d.block).size = ap (λ (b : Block). b.size) chain.0 in
      let next : (s.blocks here).next ≡ behind = ap (λ (b : Block). b.next) chain.0 in
      let some_next : (behind == null) ≡ false = ground arith in
      let used : (s.blocks behind).size_used ≡ e.used =
        ap (λ (b : Block). b.size_used) (chain.2).0 in
      let len_next : (s.blocks behind).size ≡ e.size = ap (λ (b : Block). b.size) (chain.2).0 in
      let sum =
        wide_size s (prev_after null s.heap_start d.before) here size d.block e o.bounds
          (le-addr_after s.heap_start d.before)
          (Chain-le s.blocks behind (end_of behind e) es s.heap_end (chain.2).2) in
      rw (len, next, some_next, used, len_next, short, sum)
        (elim (Bool-cases (is_free e)) [
          | inr f ↦ rw f (move-Resizes link low h)
          | inl f ↦ elim (Bool-cases (leb size (wide d.block e size).size)) [
            | inr g ↦ rw (f, g) (move-Resizes link low h)
            | inl g ↦ rw (f, g) (absorb_next-Resizes e es at f (ground arith))
          ]
        ])

  short-Resizes :
      (link : Link)
      → s.heap_end + size + 9100 < 2 ^ 31
      → Holds s (xs ++ (ptr, n) ∷ ys) w
      → leb size (d.block).size ≡ false
      → Resizes s xs ptr n ys w size (resize link ptr size (found here s))
  short-Resizes link low h short = elim (Behind-cases d.after) [
    | is_last at ↦ last-Resizes link low h short at
    | is_inner e es at ↦ inner-Resizes link e es low h short at
  ]

  resize-Resizes :
      (link : Link)
      → s.heap_end + size + 9100 < 2 ^ 31
      → Holds s (xs ++ (ptr, n) ∷ ys) w
      → Resizes s xs ptr n ys w size (resize link ptr size (found here s))
  resize-Resizes link low h = elim (Bool-cases (leb size (d.block).size)) [
    | inr short ↦ short-Resizes link low h short
    | inl fits ↦
        Kept-Resizes (resize link ptr size (found here s))
          (resize-Kept link s ptr size d.before d.block d.after split_Sound (ground arith))
  ]

  found_block : realloc_loop (fuel_of s) ptr s.heap_start s ≡ some (found here s)
  found_block =
      let b = o.bounds in
      let start = b.start_pos in
      let lt = b.start_lt_end in
      let so = split_Sound in
      realloc_loop_found s (fuel_of s) ptr null s.heap_start d.before d.block d.after b
        (omega arith) (omega arith) so.chain d.address

-- On a sound heap that is far enough below the upper half of the address space, realloc of a
-- region that is held to a size that is not 0 returns: either NULL with the heap unchanged, or an
-- address such that the new heap is sound, has complained no further and holds the other regions
-- in their order and one at that address, at least as long as was asked for, with the bytes of the
-- old region as far as both lengths reach.
pub realloc-Resizes :
    (link : Link) (s : UserHeap) (xs : List Region) (ptr n : ℕ) (ys : List Region) (w size : ℕ)
    → 0 < size
    → s.heap_end + size + 9100 < 2 ^ 31
    → Holds s (xs ++ (ptr, n) ∷ ys) w
    → Resizes s xs ptr n ys w size (realloc link ptr size s)
unfolding realloc realloc_ready
realloc-Resizes link s xs ptr n ys w size pos low h =
    let d = locate s.heap_start h.cells xs ptr n ys (sym h.regions) in
    let o = h.sound in
    let address = d.address in
    let some_size : (size == 0) ≡ false = ground arith in
    let some_ptr : (ptr == null) ≡ false = ground arith in
    let walk = found_block s h.cells xs ptr n ys w size d o h.complaints pos in
    let other =
      if link.user_lib then realloc_ready link ptr size (init_heap link s) else some (null, s) in
    rw
      (
        some_size,
        some_ptr,
        if_not s.not_initialized (realloc_ready link ptr size s) other o.ready,
        walk,
      )
      (resize-Resizes s h.cells xs ptr n ys w size d o h.complaints pos link low h)
