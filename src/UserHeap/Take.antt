-- ===== src/UserHeap/Take.antt =====
-- Handing out a free block that has room: `split_free_block` and the end of `malloc`.
use yalnix_os_project.Base.{
  ℕ, ◌+◌, ◌-◌, ◌≤◌, ◌≡◌, refl, ap, ◌∙◌, inl, inr, false, Bool-cases, List, ◌∷◌, ◌++◌, ltb, arith,
}
use yalnix_os_project.UserHeap.State.{Block, UserHeap, add32, header_size, min_block, word_round}
use yalnix_os_project.UserHeap.Block.{cut, split_free_block}
use yalnix_os_project.UserHeap.Alloc.{set_used, take_block}
use yalnix_os_project.UserHeap.Chain.{Cell, Chain, end_of, next_of, Chain-le}
use yalnix_os_project.UserHeap.Sound.{Bounded, sanity_check-Inside, Chain-Inside}
use yalnix_os_project.UserHeap.Split.{cell, Rewritten, set_used-Rewritten, cut-Rewritten, taken}

module _ (s : UserHeap) (prev a len : ℕ) (c : Cell) (cs : List Cell) (o : Bounded s)
    (low : s.heap_start ≤ a) (free : c.used ≡ 0) (fits : len ≤ c.size) (even : word_round len ≡ len)
    (h : Chain s.blocks prev a (c ∷ cs) s.heap_end) where
  split_taken : Rewritten s prev a (taken len c ++ cs) (set_used a len (split_free_block a len s))
  unfolding split_free_block taken
  split_taken =
      let top = Chain-le s.blocks a (end_of a c) cs s.heap_end h.2 in
      let size : (s.blocks a).size ≡ c.size = ap (λ (x : Block). x.size) h.0 in
      let used : (s.blocks a).size_used ≡ 0 = ap (λ (x : Block). x.size_used) h.0 ∙ free in
      let quiet =
        sanity_check-Inside s prev a (next_of cs (end_of a c)) c o
          (Chain-Inside s prev a c cs low h) in
      let e = o.end_low in
      let min : add32 len min_block ≡ len + min_block = omega arith in
      let roomy : ltb c.size len ≡ false = ground arith in
      elim (Bool-cases (ltb c.size (len + min_block))) [
        | inl small ↦
            let same : split_free_block a len s ≡ s =
              rw (even, quiet, used, size, roomy, min, small) refl in
            rw (small, same)
              (set_used-Rewritten s s prev a len c cs fits
                (record { only = refl; frame = λ i lt. refl; chain = h }))
        | inr big ↦
            let room : len + min_block ≤ c.size = ground arith in
            let rest = cell (c.size - len - header_size) 0 in
            let same : split_free_block a len s ≡ cut a len s =
              rw (even, quiet, used, size, roomy, min, big) refl in
            rw (big, same)
              (set_used-Rewritten s (cut a len s) prev a len (cell len 0) (rest ∷ cs) (omega arith)
                (cut-Rewritten s prev a len c o low room cs free h))
      ]

  -- A free block with room is handed out: its first `len` bytes, and a free block behind them if
  -- there is room for one.
  pub take_block-Rewritten :
      ((take_block a len s).0 ≡ a + header_size)
      × Rewritten s prev a (taken len c ++ cs) (take_block a len s).1
  unfolding take_block
  take_block-Rewritten =
      let top = Chain-le s.blocks a (end_of a c) cs s.heap_end h.2 in
      let e = o.end_low in (omega arith, split_taken)
