-- ===== src/StrictHeap/Tests.antt =====
-- The theorems on etc/new_heap.c at a heap of two blocks.
use yalnix_os_project.Base.{refl, true, false, [], ◌∷◌, ltb, if◌then◌else◌, arith}
use yalnix_os_project.Machine.{null}
use yalnix_os_project.UserHeap.State.{UserHeap, Link}
use yalnix_os_project.UserHeap.Alloc.{malloc as lax_malloc}
use yalnix_os_project.UserHeap.Realloc.{realloc as lax_realloc}
use yalnix_os_project.UserHeap.Chain.{Cell, header}
use yalnix_os_project.UserHeap.Split.{cell}
use yalnix_os_project.UserHeap.Regions.{live}
use yalnix_os_project.UserHeap.Refines.{Holds}
use yalnix_os_project.UserHeap.Returns.{TakesBack}
use yalnix_os_project.StrictHeap.Run.{built}
use yalnix_os_project.StrictHeap.Alloc.{malloc, free}
use yalnix_os_project.StrictHeap.Realloc.{realloc}
use yalnix_os_project.StrictHeap.Follows.{Follows, result_count}
use yalnix_os_project.StrictHeap.Requests.{malloc-Follows}
use yalnix_os_project.StrictHeap.Moves.{realloc-Follows}
use yalnix_os_project.StrictHeap.Undisturbed.{Undisturbed, free-Undisturbed}

abbrev busy_cell : Cell
busy_cell = cell 60 52

abbrev free_cell : Cell
free_cell = cell 400 0

abbrev granting : Link
granting = record { user_lib = false; sys_brk = λ s page. 0; unset = 12345 }

-- A block in use at 8192, and a free block at 8276.
abbrev two : UserHeap
two = record {
  heap_start = 8192;
  heap_end = 8700;
  not_initialized = false;
  current_break = 8704;
  blocks = λ i. if ltb i 8200 then header busy_cell null 8276 else header free_cell 8192 null;
  bytes = λ a. 0;
  warnings = 0;
}

-- The magic word of the first block is lost.
abbrev damaged : UserHeap
damaged = record two { blocks = λ i. record (two.blocks i) { magic1 = 0 } }

two-Holds : Holds two ((8216, 52) ∷ []) 0
unfolding live
two-Holds = record {
  cells = busy_cell ∷ free_cell ∷ [];
  sound = record {
    ready = refl;
    bounds = record { start_pos = omega arith; start_lt_end = omega arith; end_low = omega arith };
    chain = (refl, omega arith, (refl, omega arith, refl));
  };
  regions = refl;
  complaints = refl;
}

malloc-Follows_example :
    Follows true result_count 0
      (malloc (built true granting) 20 damaged)
      (lax_malloc granting 20 damaged)
malloc-Follows_example = malloc-Follows true granting 20 damaged

realloc-Follows_example :
    Follows true result_count 0
      (realloc (built true granting) 8216 200 damaged)
      (lax_realloc granting 8216 200 damaged)
realloc-Follows_example = realloc-Follows true granting 8216 200 damaged

free-Undisturbed_example : Undisturbed (TakesBack two [] [] 0) (free (built true granting) 8216 two)
free-Undisturbed_example = free-Undisturbed true granting two [] 8216 52 [] 0 two-Holds
