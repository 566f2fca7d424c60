-- ===== src/UserHeap/Split.antt =====
-- Splitting a free block and handing it out.
use yalnix_os_project.Base.{
  ℕ, ◌+◌, ◌-◌, ◌≤◌, ◌<◌, ◌≡◌, refl, ap, ◌∙◌, false, List, [], ◌∷◌, ltb, ◌==◌, if◌then◌else◌, update,
  update_same, update_other, arith,
}
use yalnix_os_project.Machine.{null}
use yalnix_os_project.UserHeap.State.{Block, UserHeap, add32, sub32, header_size, min_block}
use yalnix_os_project.UserHeap.Block.{cut}
use yalnix_os_project.UserHeap.Alloc.{set_used}
use yalnix_os_project.UserHeap.Chain.{
  Cell, Chain, header, end_of, next_of, Chain-le, Chain-frame, Chain-previous,
}
use yalnix_os_project.UserHeap.Sound.{Bounded}

abbrev pub cell : ℕ → ℕ → Cell
cell size used = record { size = size; used = used }

-- From `a` on the heap is `cs`, and before `a` it is as it was.
pub record Rewritten (s : UserHeap) (prev a : ℕ) (cs : List Cell) (s' : UserHeap) : Type 0 where
  pub only : s' ≡ record s { blocks = s'.blocks }
  pub frame : (i : ℕ) → i < a → s'.blocks i ≡ s.blocks i
  pub chain : Chain s'.blocks prev a cs s.heap_end

-- The first block's `size_used` is written.
pub set_used-Rewritten :
    (s s' : UserHeap) (prev a n : ℕ) (c : Cell) (cs : List Cell)
    → n ≤ c.size
    → Rewritten s prev a (c ∷ cs) s'
    → Rewritten s prev a (cell c.size n ∷ cs) (set_used a n s')
set_used-Rewritten s s' prev a n c cs le r =
    let new : Block = record (s'.blocks a) { size_used = n } in
    record {
      only = ap (λ (x : UserHeap). record x { blocks = update s'.blocks a new }) r.only;
      frame = λ i lt. update_other s'.blocks a i new (λ e. omega arith) ∙ r.frame i lt;
      chain = (
        update_same s'.blocks a new ∙ ap (λ (x : Block). record x { size_used = n }) r.chain.0,
        le,
        Chain-frame s'.blocks (update s'.blocks a new) a (end_of a c) cs s.heap_end
            (λ i lo hi. update_other s'.blocks a i new (λ e. omega arith)) r.chain.2,
      );
    }

module _ (s : UserHeap) (prev a len : ℕ) (c : Cell) (o : Bounded s) (low : s.heap_start ≤ a)
    (room : len + min_block ≤ c.size) where
  second : ℕ
  second = a + header_size + len

  rest_size : ℕ
  rest_size = c.size - len - header_size

  -- The first two writes of the cut.
  cut_blocks : ℕ → ℕ → Block
  unfolding second rest_size
  cut_blocks next =
      update (update s.blocks second (header (cell rest_size 0) a next)) a
        (header (cell len c.used) prev second)

  addr_eq : end_of a c ≤ s.heap_end → add32 (add32 a header_size) len ≡ second
  unfolding second
  addr_eq top = let e = o.end_low in omega arith

  size_eq : end_of a c ≤ s.heap_end → sub32 (sub32 c.size len) header_size ≡ rest_size
  unfolding rest_size
  size_eq top = let e = o.end_low in omega arith

  rest_end : end_of second (cell rest_size 0) ≡ end_of a c
  unfolding second rest_size
  rest_end = omega arith

  cut_blocks-below : (next i : ℕ) → i < a → cut_blocks next i ≡ s.blocks i
  unfolding cut_blocks second
  cut_blocks-below next i lt =
      update_other (update s.blocks second (header (cell rest_size 0) a next)) a i
        (header (cell len c.used) prev second) (λ e. omega arith)
      ∙ update_other s.blocks second i (header (cell rest_size 0) a next) (λ e. omega arith)

  cut_blocks-above : (next i : ℕ) → end_of a c ≤ i → cut_blocks next i ≡ s.blocks i
  unfolding cut_blocks second
  cut_blocks-above next i le =
      update_other (update s.blocks second (header (cell rest_size 0) a next)) a i
        (header (cell len c.used) prev second) (λ e. omega arith)
      ∙ update_other s.blocks second i (header (cell rest_size 0) a next) (λ e. omega arith)

  cut_blocks-second : (next : ℕ) → cut_blocks next second ≡ header (cell rest_size 0) a next
  unfolding cut_blocks second
  cut_blocks-second next =
      update_other (update s.blocks second (header (cell rest_size 0) a next)) a second
        (header (cell len c.used) prev second) (λ e. omega arith)
      ∙ update_same s.blocks second (header (cell rest_size 0) a next)

  -- Blocks that are those of the cut below the end of the old block.
  cut-Chain :
      (b : ℕ → Block) (cs : List Cell)
      → c.used ≡ 0
      → ((i : ℕ) → i < end_of a c → b i ≡ cut_blocks (next_of cs (end_of a c)) i)
      → Chain b second (end_of a c) cs s.heap_end
      → Chain b prev a (cell len 0 ∷ cell rest_size 0 ∷ cs) s.heap_end
  unfolding second cut_blocks
  cut-Chain b cs free same tail =
      let next = next_of cs (end_of a c) in
      (
        same a (omega arith)
            ∙ update_same (update s.blocks second (header (cell rest_size 0) a next)) a
                (header (cell len c.used) prev second)
            ∙ ap (λ n. header (cell len n) prev second) free,
        omega arith,
        (
          rw rest_end (same second (omega arith) ∙ cut_blocks-second next),
          omega arith,
          rw rest_end tail,
        ),
      )

  pub cut-Rewritten :
      (cs : List Cell)
      → c.used ≡ 0
      → Chain s.blocks prev a (c ∷ cs) s.heap_end
      → Rewritten s prev a (cell len 0 ∷ cell (c.size - len - header_size) 0 ∷ cs) (cut a len s)
  unfolding cut second rest_size cut_blocks
  cut-Rewritten [] free h =
      let top = Chain-le s.blocks a (end_of a c) [] s.heap_end h.2 in
      rw (h.0, addr_eq top, size_eq top)
        (record {
          only = refl;
          frame = cut_blocks-below null;
          chain = cut-Chain (cut_blocks null) [] free (λ i lt. refl) h.2;
        })
  cut-Rewritten (d ∷ ds) free h =
      let top = Chain-le s.blocks a (end_of a c) (d ∷ ds) s.heap_end h.2 in
      let e = end_of a c in
      let b = cut_blocks e in
      let new : Block = record (b e) { previous = second } in
      let some_next : (e == null) ≡ false = ground arith in
      rw (h.0, addr_eq top, size_eq top, some_next)
        (record {
          only = refl;
          frame = λ i lt. update_other b e i new (λ q. omega arith) ∙ cut_blocks-below e i lt;
          chain =
              cut-Chain (update b e new) (d ∷ ds) free
                (λ i lt. update_other b e i new (λ q. omega arith))
                (Chain-previous b a second e d ds s.heap_end (
                  Chain-frame s.blocks b a e (d ∷ ds) s.heap_end
                    (λ i lo hi. cut_blocks-above e i lo) h.2));
        })

  pub room_eq :
      (cs : List Cell)
      → Chain s.blocks prev a (c ∷ cs) s.heap_end
      → ltb c.size (add32 len min_block) ≡ false
  room_eq cs h =
      let top = Chain-le s.blocks a (end_of a c) cs s.heap_end h.2 in
      let e = o.end_low in ground arith

-- A free block and what it becomes when `len` bytes are handed out.
unfoldable pub taken : ℕ → Cell → List Cell
taken len c =
    if ltb c.size (len + min_block)
    then cell c.size len ∷ []
    else cell len len ∷ cell (c.size - len - header_size) 0 ∷ []
