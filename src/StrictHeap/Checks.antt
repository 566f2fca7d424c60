-- ===== src/StrictHeap/Checks.antt =====
-- The checks, merges and splits of etc/new_heap.c next to those of new_heap.c.
use yalnix_os_project.Base.{
  ℕ, ◌≤◌, refl, Bool, Bool-cases, inl, inr, true, false, not, ◌||◌, some, ltb, leb, ◌==◌,
  if◌then◌else◌, arith,
}
use yalnix_os_project.Machine.{null}
use yalnix_os_project.UserHeap.State.{
  UserHeap, magic, warn, write_block, add32, header_size, min_block, word_round,
}
use yalnix_os_project.UserHeap.Block.{
  warn_if, not_adjacent, set_previous, sanity_check as lax_sanity_check, absorb as lax_absorb,
  merge_free_pair as lax_merge_free_pair, cut as lax_cut, split_free_block as lax_split_free_block,
}
use yalnix_os_project.StrictHeap.Run.{done, ◌>>=◌}
use yalnix_os_project.StrictHeap.Block.{
  sanity_fail, fail_if, sanity_check, absorb, merge_free_pair, cut, split_free_block,
}
use yalnix_os_project.StrictHeap.Follows.{
  Follows, alike, stops, Follows-bind, heap_count, result_count,
}

fail_if-Follows :
    (k bad : Bool) (s : UserHeap)
    → Follows k heap_count s.warnings (fail_if k bad s) (some (warn_if bad s))
unfolding fail_if sanity_fail
fail_if-Follows k false s = alike s (omega arith)
fail_if-Follows true true s = stops (warn s) refl (omega arith)
fail_if-Follows false true s = alike (warn s) (omega arith)

warned : (bad : Bool) (s : UserHeap) → s.warnings ≤ (warn_if bad s).warnings
warned true s = omega arith
warned false s = omega arith

pub sanity_check-Follows :
    (k : Bool) (bp : ℕ) (s : UserHeap)
    → Follows k heap_count s.warnings (sanity_check k bp s) (some (lax_sanity_check bp s))
unfolding sanity_check lax_sanity_check
sanity_check-Follows k bp s =
    let b = s.blocks bp in
    let out = ltb bp s.heap_start || leb s.heap_end bp in
    let marks = not (b.magic1 == magic) || not (b.magic2 == magic) in
    let over = ltb b.size b.size_used in
    let apart = not_adjacent s bp in
    let three =
      Follows-bind k heap_count heap_count s.warnings (fail_if k out s) (some (warn_if out s))
        (λ s1. fail_if k marks s1 >>= λ s2. fail_if k over s2 >>= λ s3. done (warn_if apart s3))
        (λ s1. some (warn_if apart (warn_if over (warn_if marks s1)))) (fail_if-Follows k out s)
        (λ s1.
          Follows-bind k heap_count heap_count s1.warnings (fail_if k marks s1)
            (some (warn_if marks s1)) (λ s2. fail_if k over s2 >>= λ s3. done (warn_if apart s3))
            (λ s2. some (warn_if apart (warn_if over s2))) (fail_if-Follows k marks s1)
            (λ s2.
              Follows-bind k heap_count heap_count s2.warnings (fail_if k over s2)
                (some (warn_if over s2)) (λ s3. done (warn_if apart s3))
                (λ s3. some (warn_if apart s3)) (fail_if-Follows k over s2)
                (λ s3. alike (warn_if apart s3) (warned apart s3)))) in
    elim (Bool-cases (bp == null)) [
      | inl e ↦ rw e (alike (warn s) (omega arith))
      | inr e ↦ elim (Bool-cases (s.heap_start == s.heap_end)) [
        | inl f ↦ rw (e, f) (alike s (omega arith))
        | inr f ↦ rw (e, f) three
      ]
    ]

absorb-Follows :
    (k : Bool) (first second : ℕ) (s : UserHeap)
    → Follows k result_count s.warnings (absorb k first second s) (some (lax_absorb first second s))
unfolding absorb lax_absorb
absorb-Follows k first second s =
    let f = s.blocks first in
    let d = s.blocks second in
    let s1 =
      write_block first (record f { size = add32 (add32 f.size d.size) header_size; next = d.next })
        s in
    let checked =
      Follows-bind k heap_count result_count s.warnings (sanity_check k d.next s1)
        (some (lax_sanity_check d.next s1)) (λ s2. done (first, set_previous d.next first s2))
        (λ s2. some (first, set_previous d.next first s2)) (sanity_check-Follows k d.next s1)
        (λ s2. alike (first, set_previous d.next first s2) (omega arith)) in
    elim (Bool-cases (d.next == null)) [
      | inl e ↦ rw e (alike (first, s1) (omega arith))
      | inr e ↦ rw e checked
    ]

-- What follows the checks of a pair.
merge_checked-Follows :
    (k : Bool) (first second : ℕ) (s : UserHeap)
    → Follows k result_count s.warnings
        (if not ((s.blocks first).size_used == 0)
          then done (second, s)
          else if not ((s.blocks second).size_used == 0)
          then done (second, s)
          else absorb k first second s)
        (some (
          if not ((s.blocks first).size_used == 0)
          then (second, s)
          else if not ((s.blocks second).size_used == 0)
          then (second, s)
          else lax_absorb first second s))
merge_checked-Follows k first second s = elim (Bool-cases ((s.blocks first).size_used == 0)) [
  | inr e ↦ rw e (alike (second, s) (omega arith))
  | inl e ↦ elim (Bool-cases ((s.blocks second).size_used == 0)) [
    | inr f ↦ rw (e, f) (alike (second, s) (omega arith))
    | inl f ↦ rw (e, f) (absorb-Follows k first second s)
  ]
]

pub merge_free_pair-Follows :
    (k : Bool) (first : ℕ) (s : UserHeap)
    → Follows k result_count s.warnings
        (merge_free_pair k first s)
        (some (lax_merge_free_pair first s))
unfolding merge_free_pair lax_merge_free_pair
merge_free_pair-Follows k first s =
    let second = (s.blocks first).next in
    let checked =
      Follows-bind k heap_count result_count s.warnings (sanity_check k first s)
        (some (lax_sanity_check first s)) _ _ (sanity_check-Follows k first s)
        (λ s1.
          Follows-bind k heap_count result_count s1.warnings (sanity_check k second s1)
            (some (lax_sanity_check second s1)) _ _ (sanity_check-Follows k second s1)
            (merge_checked-Follows k first second)) in
    elim (Bool-cases (first == null)) [
      | inl e ↦ rw e (alike (null, s) (omega arith))
      | inr e ↦ elim (Bool-cases (second == null)) [
        | inl f ↦ rw (e, f) (alike (null, s) (omega arith))
        | inr f ↦ rw (e, f) checked
      ]
    ]

cut-Follows :
    (k : Bool) (bp n : ℕ) (s : UserHeap)
    → Follows k heap_count s.warnings (done (cut bp n s)) (some (lax_cut bp n s))
unfolding cut lax_cut
cut-Follows k bp n s = elim (Bool-cases ((s.blocks bp).next == null)) [
  | inl e ↦ rw e (alike _ (omega arith))
  | inr e ↦ rw e (alike _ (omega arith))
]

-- What follows the check of a block that is to be split.
split_checked-Follows :
    (k : Bool) (bp n : ℕ) (s : UserHeap)
    → Follows k heap_count s.warnings
        (if not ((s.blocks bp).size_used == 0)
          then done s
          else if ltb (s.blocks bp).size n
          then done s
          else if ltb (s.blocks bp).size (add32 n min_block)
          then done s
          else done (cut bp n s))
        (some (
          if not ((s.blocks bp).size_used == 0)
          then s
          else if ltb (s.blocks bp).size n
          then s
          else if ltb (s.blocks bp).size (add32 n min_block)
          then s
          else lax_cut bp n s))
split_checked-Follows k bp n s =
    let c = s.blocks bp in
    elim (Bool-cases (c.size_used == 0)) [
      | inr e ↦ rw e (alike s (omega arith))
      | inl e ↦ elim (Bool-cases (ltb c.size n)) [
        | inl f ↦ rw (e, f) (alike s (omega arith))
        | inr f ↦ elim (Bool-cases (ltb c.size (add32 n min_block))) [
          | inl g ↦ rw (e, f, g) (alike s (omega arith))
          | inr g ↦ rw (e, f, g) (cut-Follows k bp n s)
        ]
      ]
    ]

pub split_free_block-Follows :
    (k : Bool) (bp len : ℕ) (s : UserHeap)
    → Follows k heap_count s.warnings
        (split_free_block k bp len s)
        (some (lax_split_free_block bp len s))
unfolding split_free_block lax_split_free_block
split_free_block-Follows k bp len s =
    Follows-bind k heap_count heap_count s.warnings (sanity_check k bp s)
      (some (lax_sanity_check bp s)) _ _ (sanity_check-Follows k bp s)
      (split_checked-Follows k bp (word_round len))
