-- ===== src/UserHeap/Tests.antt =====
-- The theorems on new_heap.c at a heap of two blocks, and at a program that has just started.
use yalnix_os_project.Base.{
  ◌-◌, ◌≡◌, refl, ℕ, Option, some, List, true, false, [], ◌∷◌, ltb, if◌then◌else◌, arith,
}
use yalnix_os_project.Machine.{null}
use yalnix_os_project.UserHeap.State.{Block, UserHeap, Link}
use yalnix_os_project.UserHeap.Alloc.{◌>>=◌, garbage_collect, free, malloc}
use yalnix_os_project.UserHeap.Brk.{init_heap, sbrk}
use yalnix_os_project.UserHeap.Chain.{Cell, header}
use yalnix_os_project.UserHeap.Split.{cell}
use yalnix_os_project.UserHeap.Serve.{Sound, needed}
use yalnix_os_project.UserHeap.Request.{Malloced, malloc-Malloced}
use yalnix_os_project.UserHeap.Collect.{Collected, coalesce, garbage_collect-Collected}
use yalnix_os_project.UserHeap.Realloc.{realloc, calloc}
use yalnix_os_project.UserHeap.RoundTrip.{malloc-free}
use yalnix_os_project.UserHeap.Release.{Freed, coalesced, free-Freed}
use yalnix_os_project.UserHeap.Init.{FirstBreak, first_end, init_heap-Sound}
use yalnix_os_project.UserHeap.Usage.{helper_check_heap}
use yalnix_os_project.UserHeap.Accounts.{Checked, in_use, helper_check_heap-Checked}
use yalnix_os_project.UserHeap.Regions.{Region, live, Apart}
use yalnix_os_project.UserHeap.Refines.{Holds, Gives, malloc-Gives}
use yalnix_os_project.UserHeap.Overlap.{malloc_takes_sbrk}
use yalnix_os_project.UserHeap.Brk.Back.{there_and_back, with_break, sbrk_there_and_back}
use yalnix_os_project.UserHeap.Returns.{TakesBack, taken_back, free-TakesBack}
use yalnix_os_project.UserHeap.Moves.{Resizes}
use yalnix_os_project.UserHeap.Resizes.{realloc-Resizes}
use yalnix_os_project.UserHeap.Zeroes.{Clears, calloc-Clears}
use yalnix_os_project.UserHeap.Programs.{at_start, returns, Reaches-Apart}

abbrev busy_cell : Cell
busy_cell = cell 100 100

abbrev free_cell : Cell
free_cell = cell 200 0

abbrev blank : Block
blank = record { magic1 = 0; size = 0; size_used = 0; next = 0; previous = 0; magic2 = 0 }

-- The kernel grants every break.
abbrev granting : Link
granting = record { user_lib = true; sys_brk = λ s page. 0; unset = 12345 }

abbrev refusing : Link
refusing = record { user_lib = true; sys_brk = λ s page. 1; unset = 12345 }

-- A block in use at 4096, and a free block at 4220.
abbrev two : UserHeap
two = record {
  heap_start = 4096;
  heap_end = 4444;
  not_initialized = false;
  current_break = 4448;
  blocks = λ i. if ltb i 4200 then header busy_cell null 4220 else header free_cell 4096 null;
  bytes = λ a. 0;
  warnings = 0;
}

two-Sound : Sound two (busy_cell ∷ free_cell ∷ [])
two-Sound = record {
  ready = refl;
  bounds = record { start_pos = omega arith; start_lt_end = omega arith; end_low = omega arith };
  chain = (refl, omega arith, (refl, omega arith, refl));
}

two_whole : coalesced (busy_cell ∷ free_cell ∷ []) ≡ busy_cell ∷ free_cell ∷ []
unfolding coalesced coalesce
two_whole = refl

-- A program before its first request.
abbrev started : UserHeap
started = record two { not_initialized = true }

started-FirstBreak : FirstBreak started
started-FirstBreak = record { pos = omega arith; low = omega arith }

malloc-Malloced_example :
    Malloced granting two (needed 50) (busy_cell ∷ free_cell ∷ []) (malloc granting 50 two)
malloc-Malloced_example =
    malloc-Malloced granting two 50 (busy_cell ∷ free_cell ∷ []) (omega arith) two-Sound

free-Freed_example : Freed two (coalesced (cell 100 0 ∷ free_cell ∷ [])) (free granting 4120 two)
free-Freed_example =
    free-Freed granting two 4120 [] busy_cell (free_cell ∷ []) two-Sound (λ e. omega arith)
      (omega arith) (omega arith)

malloc-free_example :
    Freed two (busy_cell ∷ free_cell ∷ []) (malloc granting 50 two >>= λ r. free granting r.0 r.1)
malloc-free_example =
    malloc-free granting two 50 (busy_cell ∷ free_cell ∷ []) (omega arith) two-Sound two_whole
      (λ h. h.1.0)

garbage_collect-Collected_example :
    Collected two null 4096 (coalesce busy_cell (free_cell ∷ [])) (garbage_collect two)
garbage_collect-Collected_example =
    garbage_collect-Collected two busy_cell (free_cell ∷ []) two-Sound.bounds two-Sound.chain

init_heap-Sound_example :
    Sound (init_heap granting started) (cell (first_end started - 4448 - 24) 0 ∷ [])
    × ((init_heap granting started).heap_start ≡ 4448)
    × ((init_heap granting started).heap_end ≡ 37216)
    × ((init_heap granting started).current_break ≡ 37216)
init_heap-Sound_example = init_heap-Sound granting started started-FirstBreak refl

helper_check_heap-Checked_example : Checked two 4096 2 1 (helper_check_heap granting two)
unfolding in_use
helper_check_heap-Checked_example =
    helper_check_heap-Checked granting two (busy_cell ∷ free_cell ∷ []) two-Sound

-- The block in use is the one region that is handed out.
two-Holds : Holds two ((4120, 100) ∷ []) 0
unfolding live
two-Holds = record {
  cells = busy_cell ∷ free_cell ∷ [];
  sound = two-Sound;
  regions = refl;
  complaints = refl;
}

malloc-Gives_example : Gives two 50 ((4120, 100) ∷ []) 0 (malloc granting 50 two)
malloc-Gives_example = malloc-Gives granting two 50 ((4120, 100) ∷ []) 0 (omega arith) two-Holds

free-TakesBack_example : TakesBack two [] [] 0 (free granting 4120 two)
free-TakesBack_example = free-TakesBack granting two [] 4120 100 [] 0 two-Holds

heap_after :
    (s : UserHeap) (xs ys : List Region) (w : ℕ) (q : Option UserHeap)
    → TakesBack s xs ys w q
    → (t : UserHeap) × q ≡ some t
heap_after s xs ys w q (taken_back t h same) = (t, refl)

-- The heap after the region is given back.
two_freed : (t : UserHeap) × free granting 4120 two ≡ some t
two_freed =
    heap_after two [] [] 0 (free granting 4120 two)
      (free-TakesBack granting two [] 4120 100 [] 0 two-Holds)

Reaches-Apart_example :
    (rs : List Region) × Holds two_freed.0 rs 0
    × Apart (two_freed.0).heap_start rs (two_freed.0).heap_end
Reaches-Apart_example =
    Reaches-Apart granting 0 two two_freed.0 ((4120, 100) ∷ []) two-Holds
      (returns two two_freed.0 [] 4120 100 [] at_start two-Holds two_freed.1)

realloc-Resizes_example : Resizes two [] 4120 100 [] 0 300 (realloc granting 4120 300 two)
realloc-Resizes_example =
    realloc-Resizes granting two [] 4120 100 [] 0 300 (omega arith) (omega arith) two-Holds

calloc-Clears_example : Clears two 40 ((4120, 100) ∷ []) 0 (calloc granting 5 8 two)
calloc-Clears_example = calloc-Clears granting two 5 8 ((4120, 100) ∷ []) 0 (omega arith) two-Holds

-- Three times `sbrk(5)` and `sbrk(-5)`, with the break at 4448.
sbrk_there_and_back_example : there_and_back granting 3 5 two ≡ with_break two 4472
sbrk_there_and_back_example =
    sbrk_there_and_back granting (λ t addr. refl) 3 5 two refl (omega arith) (omega arith)

-- One block in use, up to the break.
abbrev tight : UserHeap
tight = record two {
  heap_end = 4220;
  current_break = 4220;
  blocks = λ i. header busy_cell null null;
}

tight-Sound : Sound tight (busy_cell ∷ [])
tight-Sound = record {
  ready = refl;
  bounds = record { start_pos = omega arith; start_lt_end = omega arith; end_low = omega arith };
  chain = (refl, omega arith, refl);
}

malloc_takes_sbrk_example :
    ((sbrk granting 65536 tight).0 ≡ 4220)
    × (r : ℕ × UserHeap) × (malloc granting 40 (sbrk granting 65536 tight).1 ≡ some r)
    × (malloc granting 40 tight ≡ some r)
    × (r.0 ≡ 4244)
    × ((r.1).current_break ≡ 8192)
malloc_takes_sbrk_example =
    malloc_takes_sbrk granting (λ t addr. refl) 40 [] busy_cell tight 65536 (omega arith) refl
      (omega arith) tight-Sound (refl, tt) refl
