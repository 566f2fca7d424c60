-- ===== src/UserHeap/Extend.antt =====
-- The growth of a sound heap by one free block: `grow_heap` in libc.c, and the end of `malloc`.
use yalnix_os_project.Base.{
  ℕ, ◌+◌, ◌-◌, ◌*◌, ◌/◌, ◌%◌, ◌<◌, ◌^◌, ◌≡◌, ◌≢◌, refl, ◌⊎◌, inl, inr, Bool-cases, false, true,
  ◌||◌, if◌then◌else◌, ◌∙◌, ltb, ◌==◌, arith,
}
use yalnix_os_project.Machine.{null, word, page_size, up_to_page}
use yalnix_os_project.UserHeap.State.{UserHeap, Link, add32, sub32, header_size, write_block}
use yalnix_os_project.UserHeap.Brk.{
  brk, brk_unlocked, grow_heap, grow_result, add_block, free_header,
}
use yalnix_os_project.UserHeap.Chain.{Cell}
use yalnix_os_project.UserHeap.Split.{cell}

-- The end of the heap after a growth for a block of `n` bytes.
abbrev pub grown_end : UserHeap → ℕ → ℕ
grown_end s n = (s.heap_end + n + header_size + (page_size - 1)) / page_size * page_size

-- The new free block.
abbrev pub new_cell : UserHeap → ℕ → Cell
new_cell s n = cell (grown_end s n - s.heap_end - header_size) 0

abbrev pub grown : UserHeap → ℕ → UserHeap
grown s n =
    write_block s.heap_end (free_header (new_cell s n).size)
      (record s { heap_end = grown_end s n; current_break = grown_end s n })

-- The growth comes to another page, and the kernel does not grant it.
abbrev pub Refuses : Link → UserHeap → ℕ → Type 0
Refuses link s n =
    (grown_end s n ≢ up_to_page s.current_break) × (link.sys_brk s (grown_end s n) ≢ 0)

-- The growth, with the kernel asked only where the break comes to another page.
grow_heap_lem :
    (link : Link) (n : ℕ) (s : UserHeap)
    → 0 < s.heap_start
    → s.heap_end + n + 9000 < 2 ^ 31
    → grow_heap link n s ≡ (
        if (grown_end s n == up_to_page s.current_break) || (link.sys_brk s (grown_end s n) == 0)
        then (s.heap_end, grown s n)
        else (null, s))
unfolding grow_heap grow_result add_block brk brk_unlocked up_to_page
grow_heap_lem link n s pos low =
    let stop = grown_end s n in
    let some_heap : (s.heap_start == null) ≡ false = ground arith in
    let req : up_to_page (add32 (add32 s.heap_end n) header_size) ≡ stop = omega arith in
    let rounded : (stop + 7) % word / 8 * 8 ≡ stop = omega arith in
    let page : up_to_page stop ≡ stop = omega arith in
    let size : sub32 (sub32 stop s.heap_end) header_size ≡ (new_cell s n).size = omega arith in
    let reached : ltb stop stop ≡ false = ground arith in
    elim (Bool-cases (stop == up_to_page s.current_break)) [
      | inl same ↦ rw (some_heap, req, rounded, page, same, reached, size) refl
      | inr other ↦ elim (Bool-cases (link.sys_brk s stop == 0)) [
        | inl grant ↦ rw (some_heap, req, rounded, page, other, grant, reached, size) refl
        | inr deny ↦ rw (some_heap, req, rounded, page, other, deny) refl
      ]
    ]

-- The kernel refuses, and nothing changes, or a free block follows the old end.
pub grow_heap_cases :
    (link : Link) (n : ℕ) (s : UserHeap)
    → 0 < s.heap_start
    → s.heap_end + n + 9000 < 2 ^ 31
    → (grow_heap link n s ≡ (null, s) × Refuses link s n)
      ⊎ (grow_heap link n s ≡ (s.heap_end, grown s n))
grow_heap_cases link n s pos low =
    let granted =
      (grown_end s n == up_to_page s.current_break) || (link.sys_brk s (grown_end s n) == 0) in
    let run = grow_heap_lem link n s pos low in
    elim (Bool-cases granted) [
      | inl yes_granted ↦ inr (run ∙ rw yes_granted refl)
      | inr no_grant ↦ inl (run ∙ rw no_grant refl, (λ e. ground arith, λ e. ground arith))
    ]

-- The kernel grants the page that the growth needs.
pub grow_heap_granted :
    (link : Link) (n : ℕ) (s : UserHeap)
    → 0 < s.heap_start
    → s.heap_end + n + 9000 < 2 ^ 31
    → ((t : UserHeap) (addr : ℕ) → link.sys_brk t addr ≡ 0)
    → grow_heap link n s ≡ (s.heap_end, grown s n)
grow_heap_granted link n s pos low granted =
    let stop = grown_end s n in
    let answer = granted s stop in
    let grant : ((stop == up_to_page s.current_break) || (link.sys_brk s stop == 0)) ≡ true =
      ground arith in
    grow_heap_lem link n s pos low ∙ rw grant refl
