-- ===== src/StrictHeap/Growth.antt =====
-- libc.c: setting up and growing the heap complain of nothing.
use yalnix_os_project.Base.{ℕ, ◌+◌, ◌%◌, ◌*◌, ◌/◌, ◌≡◌, ◌∙◌, refl, Bool-cases, inl, inr, ltb, ◌==◌}
use yalnix_os_project.Machine.{Status, success, error, null, word, up_to_page}
use yalnix_os_project.UserHeap.State.{UserHeap, Link, add32, header_size}
use yalnix_os_project.UserHeap.Brk.{
  brk_unlocked, brk, init_heap, pre_startup_heapsize, add_block, grow_result, grow_heap,
}

brk_unlocked-quiet :
    (link : Link) (addr : ℕ) (s : UserHeap) → ((brk_unlocked link addr s).1).warnings ≡ s.warnings
unfolding brk_unlocked
brk_unlocked-quiet link addr s =
    let rounded = (addr + 7) % word / 8 * 8 in
    let page = up_to_page rounded in
    elim (Bool-cases (page == up_to_page s.current_break)) [
      | inl e ↦ rw e refl
      | inr e ↦ elim (Bool-cases (link.sys_brk s page == 0)) [
        | inl f ↦ rw (e, f) refl
        | inr f ↦ rw (e, f) refl
      ]
    ]

pub init_heap-quiet : (link : Link) (s : UserHeap) → (init_heap link s).warnings ≡ s.warnings
unfolding init_heap
init_heap-quiet link s = brk_unlocked-quiet link (add32 s.current_break pre_startup_heapsize) s

grow_result-quiet :
    (req : ℕ) (r : Status × UserHeap) → ((grow_result req r).1).warnings ≡ (r.1).warnings
unfolding grow_result add_block
grow_result-quiet req (error, s) = refl
grow_result-quiet req (success, s) = elim (Bool-cases (ltb s.current_break req)) [
  | inl e ↦ rw e refl
  | inr e ↦ rw e refl
]

pub grow_heap-quiet :
    (link : Link) (n : ℕ) (s : UserHeap) → ((grow_heap link n s).1).warnings ≡ s.warnings
unfolding grow_heap brk
grow_heap-quiet link n s =
    let req = up_to_page (add32 (add32 s.heap_end n) header_size) in
    elim (Bool-cases (s.heap_start == null)) [
      | inl e ↦ rw e refl
      | inr e ↦
          rw e (grow_result-quiet req (brk_unlocked link req s) ∙ brk_unlocked-quiet link req s)
    ]
