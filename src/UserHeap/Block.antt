-- ===== src/UserHeap/Block.antt =====
-- new_heap.c: the checks on one block, and the merging and splitting of free blocks.
use yalnix_os_project.Base.{ℕ, Bool, false, not, ◌||◌, ltb, leb, ◌==◌, if◌then◌else◌}
use yalnix_os_project.Machine.{null}
use yalnix_os_project.UserHeap.State.{
  Block, UserHeap, add32, sub32, magic, header_size, min_block, word_round, block_end, write_block,
  warn,
}

abbrev pub warn_if : Bool → UserHeap → UserHeap
warn_if bad s = if bad then warn s else s

-- `if (bp->next) if (BLOCK_END(bp) != bp->next)`
abbrev pub not_adjacent : UserHeap → ℕ → Bool
not_adjacent s bp =
    if (s.blocks bp).next == null then false else not (block_end s bp == (s.blocks bp).next)

unfoldable pub sanity_check : ℕ → UserHeap → UserHeap
sanity_check bp s =
    if bp == null
    then warn s
    else if s.heap_start == s.heap_end
    then s
    else let b = s.blocks bp in
      let s1 = warn_if (ltb bp s.heap_start || leb s.heap_end bp) s in
      let s2 = warn_if (not (b.magic1 == magic) || not (b.magic2 == magic)) s1 in
      let s3 = warn_if (ltb b.size b.size_used) s2 in warn_if (not_adjacent s bp) s3

abbrev pub set_previous : ℕ → ℕ → UserHeap → UserHeap
set_previous bp p s = write_block bp (record (s.blocks bp) { previous = p }) s

-- The part of `merge_free_pair` behind the tests.
unfoldable pub absorb : ℕ → ℕ → UserHeap → ℕ × UserHeap
absorb first second s =
    let f = s.blocks first in
    let d = s.blocks second in
    let s1 =
      write_block first (record f { size = add32 (add32 f.size d.size) header_size; next = d.next })
        s in
    (first, if d.next == null then s1 else set_previous d.next first (sanity_check d.next s1))

unfoldable pub merge_free_pair : ℕ → UserHeap → ℕ × UserHeap
merge_free_pair first s =
    if first == null
    then (null, s)
    else let second = (s.blocks first).next in
      if second == null
      then (null, s)
      else let s' = sanity_check second (sanity_check first s) in
        if not ((s'.blocks first).size_used == 0)
        then (second, s')
        else if not ((s'.blocks second).size_used == 0)
        then (second, s')
        else absorb first second s'

-- The part of `split_free_block` behind the tests.
unfoldable pub cut : ℕ → ℕ → UserHeap → UserHeap
cut bp len s =
    let b = s.blocks bp in
    let second = add32 (add32 bp header_size) len in
    let rest : Block = record {
      magic1 = magic;
      size = sub32 (sub32 b.size len) header_size;
      size_used = 0;
      next = b.next;
      previous = bp;
      magic2 = magic;
    } in
    let s1 = write_block bp (record b { size = len; next = second }) (write_block second rest s) in
    if b.next == null then s1 else set_previous b.next second s1

unfoldable pub split_free_block : ℕ → ℕ → UserHeap → UserHeap
split_free_block bp len0 s =
    let len = word_round len0 in
    let s' = sanity_check bp s in
    let b = s'.blocks bp in
    if not (b.size_used == 0)
    then s'
    else if ltb b.size len
    then s'
    else if ltb b.size (add32 len min_block)
    then s'
    else cut bp len s'
