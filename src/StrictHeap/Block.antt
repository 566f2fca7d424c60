-- ===== src/StrictHeap/Block.antt =====
-- etc/new_heap.c: the checks on one block, and the merging and splitting of free blocks.
use yalnix_os_project.Base.{ℕ, Bool, not, ◌||◌, ltb, leb, ◌==◌, if◌then◌else◌}
use yalnix_os_project.Machine.{null}
use yalnix_os_project.UserHeap.State.{
  Block, UserHeap, add32, sub32, magic, header_size, min_block, word_round, write_block, warn,
}
use yalnix_os_project.UserHeap.Block.{warn_if, not_adjacent, set_previous}
use yalnix_os_project.StrictHeap.Run.{Run, done, aborted, ◌>>=◌}

unfoldable pub sanity_fail : Bool → UserHeap → Run UserHeap
sanity_fail in_kernel s = if in_kernel then aborted else done (warn s)

unfoldable pub fail_if : Bool → Bool → UserHeap → Run UserHeap
unfolding sanity_fail
fail_if in_kernel bad s = if bad then sanity_fail in_kernel s else done s

unfoldable pub sanity_check : Bool → ℕ → UserHeap → Run UserHeap
unfolding fail_if
sanity_check k bp s =
    if bp == null
    then done (warn s)
    else if s.heap_start == s.heap_end
    then done s
    else let b = s.blocks bp in
      do
        s1 ← fail_if k (ltb bp s.heap_start || leb s.heap_end bp) s
        s2 ← fail_if k (not (b.magic1 == magic) || not (b.magic2 == magic)) s1
        s3 ← fail_if k (ltb b.size b.size_used) s2
        done (warn_if (not_adjacent s bp) s3)

-- The part of `merge_free_pair` behind the tests.
unfoldable pub absorb : Bool → ℕ → ℕ → UserHeap → Run (ℕ × UserHeap)
absorb k first second s =
    let f = s.blocks first in
    let d = s.blocks second in
    let s1 =
      write_block first (record f { size = add32 (add32 f.size d.size) header_size; next = d.next })
        s in
    if d.next == null
    then done (first, s1)
    else do s2 ← sanity_check k d.next s1; done (first, set_previous d.next first s2)

unfoldable pub merge_free_pair : Bool → ℕ → UserHeap → Run (ℕ × UserHeap)
unfolding absorb
merge_free_pair k first s =
    if first == null
    then done (null, s)
    else let second = (s.blocks first).next in
      if second == null then done (null, s) else do
        s1 ← sanity_check k first s
        s2 ← sanity_check k second s1
        if not ((s2.blocks first).size_used == 0)
            then done (second, s2)
            else if not ((s2.blocks second).size_used == 0)
            then done (second, s2)
            else absorb k first second s2

-- The part of `split_free_block` behind the tests.
unfoldable pub cut : ℕ → ℕ → UserHeap → UserHeap
cut bp len s =
    let b = s.blocks bp in
    let second = add32 (add32 bp header_size) len in
    let rest : Block = record {
      magic1 = magic;
      size = sub32 (sub32 b.size len) header_size;
      size_used = 0;
      next = b.next;
      previous = bp;
      magic2 = magic;
    } in
    let s1 = write_block bp (record b { size = len; next = second }) (write_block second rest s) in
    if b.next == null then s1 else set_previous b.next second s1

unfoldable pub split_free_block : Bool → ℕ → ℕ → UserHeap → Run UserHeap
split_free_block k bp len0 s = do
  s' ← sanity_check k bp s
  let len = word_round len0
  let b = s'.blocks bp
  if not (b.size_used == 0)
      then done s'
      else if ltb b.size len
      then done s'
      else if ltb b.size (add32 len min_block)
      then done s'
      else done (cut bp len s')
