-- ===== src/UserHeap/Join.antt =====
-- The grown block behind the last block of a sound heap, linked and merged by `malloc`.
use yalnix_os_project.Base.{
  ℕ, ◌+◌, ◌<◌, ◌^◌, ◌≡◌, ap, ◌∙◌, List, [], ◌∷◌, ◌++◌, update, update_same, update_other, arith,
}
use yalnix_os_project.Machine.{null}
use yalnix_os_project.UserHeap.State.{Block, UserHeap}
use yalnix_os_project.UserHeap.Brk.{free_header}
use yalnix_os_project.UserHeap.Block.{set_previous}
use yalnix_os_project.UserHeap.Alloc.{set_next}
use yalnix_os_project.UserHeap.Chain.{
  Cell, Chain, header, end_of, Chain-drop, Chain-replace, addr_after, prev_after,
}
use yalnix_os_project.UserHeap.Serve.{Sound}
use yalnix_os_project.UserHeap.Extend.{grown_end, new_cell, grown}

module _ (s : UserHeap) (n : ℕ) (before : List Cell) (c : Cell) where
  -- The last block.
  abbrev pub last : ℕ
  last = addr_after s.heap_start before

  abbrev pub before_last : ℕ
  before_last = prev_after null s.heap_start before

  -- The heap with the new block linked behind the last one.
  abbrev pub linked : UserHeap
  linked = set_previous s.heap_end last (set_next last s.heap_end (grown s n))

  module _ (o : Sound s (before ++ c ∷ [])) (low : s.heap_end + n + 9000 < 2 ^ 31) where
    last-Chain : Chain s.blocks before_last last (c ∷ []) s.heap_end
    last-Chain = Chain-drop s.blocks null s.heap_start before (c ∷ []) s.heap_end o.chain

    added : ℕ → Block
    added = update s.blocks s.heap_end (free_header (new_cell s n).size)

    link_last : ℕ → Block
    unfolding added
    link_last = update added last (record (added last) { next = s.heap_end })

    linked_below : (i : ℕ) → i < last → (linked.blocks) i ≡ s.blocks i
    unfolding added link_last
    linked_below i lt =
        let stop : end_of last c ≡ s.heap_end = last-Chain.2 in
        update_other link_last s.heap_end i (record (link_last s.heap_end) { previous = last })
          (λ q. omega arith)
        ∙ update_other added last i (record (added last) { next = s.heap_end }) (λ q. omega arith)
        ∙ update_other s.blocks s.heap_end i (free_header (new_cell s n).size) (λ q. omega arith)

    linked_last : (linked.blocks) last ≡ header c before_last s.heap_end
    unfolding added link_last
    linked_last =
        let stop : end_of last c ≡ s.heap_end = last-Chain.2 in
        update_other link_last s.heap_end last (record (link_last s.heap_end) { previous = last })
          (λ q. omega arith)
        ∙ update_same added last (record (added last) { next = s.heap_end })
        ∙ ap (λ (x : Block). record x { next = s.heap_end })
            (update_other s.blocks s.heap_end last (free_header (new_cell s n).size)
                (λ q. omega arith)
              ∙ last-Chain.0)

    linked_new : (linked.blocks) s.heap_end ≡ header (new_cell s n) last null
    unfolding added link_last
    linked_new =
        let stop : end_of last c ≡ s.heap_end = last-Chain.2 in
        update_same link_last s.heap_end (record (link_last s.heap_end) { previous = last })
        ∙ ap (λ (x : Block). record x { previous = last })
            (update_other added last s.heap_end (record (added last) { next = s.heap_end })
                (λ q. omega arith)
              ∙ update_same s.blocks s.heap_end (free_header (new_cell s n).size))

    pub linked-Sound : Sound linked (before ++ c ∷ new_cell s n ∷ [])
    linked-Sound =
        let stop : end_of last c ≡ s.heap_end = last-Chain.2 in
        let b = o.bounds in
        let lt = b.start_lt_end in
        let top : end_of s.heap_end (new_cell s n) ≡ grown_end s n = omega arith in
        record {
          ready = o.ready;
          bounds = record {
            start_pos = b.start_pos;
            start_lt_end = omega arith;
            end_low = omega arith;
          };
          chain =
              Chain-replace s.blocks linked.blocks null s.heap_start before c c []
                (new_cell s n ∷ []) s.heap_end (grown_end s n) linked_below o.chain
                (rw stop (linked_last, last-Chain.1, (linked_new, omega arith, top)));
        }
