-- ===== src/UserHeap/Widen.antt =====
-- `realloc` takes in the free block behind a block in use.
use yalnix_os_project.Base.{
  ℕ, ◌+◌, ◌≤◌, ◌≡◌, refl, ◌∙◌, false, List, [], ◌∷◌, ◌==◌, update, update_same, update_other, arith,
}
use yalnix_os_project.Machine.{null}
use yalnix_os_project.UserHeap.State.{Block, UserHeap, header_size, add32}
use yalnix_os_project.UserHeap.Realloc.{absorb_next}
use yalnix_os_project.UserHeap.Chain.{
  Cell, Chain, header, end_of, next_of, Chain-le, Chain-frame, Chain-previous,
}
use yalnix_os_project.UserHeap.Sound.{Bounded}
use yalnix_os_project.UserHeap.Split.{cell, Rewritten}

-- Two neighbours as one block in use.
abbrev pub wide : Cell → Cell → ℕ → Cell
wide c d size = cell (c.size + header_size + d.size) size

module _ (s : UserHeap) (prev a size : ℕ) (c d : Cell) (o : Bounded s)
    (low : s.heap_start ≤ a) where
  pub wide_end : end_of a (wide c d size) ≡ end_of (end_of a c) d
  wide_end = omega arith

  pub wide_size :
      end_of (end_of a c) d ≤ s.heap_end
      → add32 (add32 c.size d.size) header_size ≡ (wide c d size).size
  wide_size top = let e = o.end_low in omega arith

  -- The first write.
  wide_block : ℕ → Block
  wide_block next = header (wide c d size) prev next

  wide-Chain :
      (b : ℕ → Block) (ds : List Cell)
      → size ≤ c.size + header_size + d.size
      → b a ≡ wide_block (next_of ds (end_of (end_of a c) d))
      → Chain b a (end_of (end_of a c) d) ds s.heap_end
      → Chain b prev a (wide c d size ∷ ds) s.heap_end
  unfolding wide_block
  wide-Chain b ds fits e h = rw wide_end (e, fits, h)

  behind-Chain :
      (ds : List Cell) (new : Block)
      → Chain s.blocks (end_of a c) (end_of (end_of a c) d) ds s.heap_end
      → Chain (update s.blocks a new) (end_of a c) (end_of (end_of a c) d) ds s.heap_end
  behind-Chain ds new h =
      Chain-frame s.blocks (update s.blocks a new) (end_of a c) (end_of (end_of a c) d) ds
        s.heap_end (λ i lo hi. update_other s.blocks a i new (λ e. omega arith)) h

  pub absorb_next-Rewritten :
      (ds : List Cell)
      → size ≤ c.size + header_size + d.size
      → Chain s.blocks prev a (c ∷ d ∷ ds) s.heap_end
      → Rewritten s prev a (wide c d size ∷ ds) (absorb_next a (end_of a c) size s)
  unfolding absorb_next wide_block
  absorb_next-Rewritten [] fits h =
      let top = Chain-le s.blocks (end_of a c) (end_of (end_of a c) d) [] s.heap_end (h.2).2 in
      rw (h.0, (h.2).0, wide_size top)
        (record {
          only = refl;
          frame = λ i lt. update_other s.blocks a i (wide_block null) (λ q. omega arith);
          chain =
              wide-Chain (update s.blocks a (wide_block null)) [] fits
                (update_same s.blocks a (wide_block null)) (h.2).2;
        })
  absorb_next-Rewritten (e ∷ es) fits h =
      let third = end_of (end_of a c) d in
      let rest = (h.2).2 in
      let top = Chain-le s.blocks (end_of a c) third (e ∷ es) s.heap_end rest in
      let b = update s.blocks a (wide_block third) in
      let some_next : (third == null) ≡ false = ground arith in
      let new : Block = record (b third) { previous = a } in
      let tail = behind-Chain (e ∷ es) (wide_block third) rest in
      rw (h.0, (h.2).0, wide_size top, some_next)
        (record {
          only = refl;
          frame = λ i lt.
              update_other b third i new (λ q. omega arith)
              ∙ update_other s.blocks a i (wide_block third) (λ q. omega arith);
          chain =
              wide-Chain (update b third new) (e ∷ es) fits
                (update_other b third a new (λ q. omega arith)
                  ∙ update_same s.blocks a (wide_block third))
                (Chain-previous b (end_of a c) a third e es s.heap_end tail);
        })
