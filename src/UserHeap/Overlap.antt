-- ===== src/UserHeap/Overlap.antt =====
-- The heap of a program that moves its break itself, between two calls of `malloc`.
use yalnix_os_project.Base.{
  ℕ, ◌+◌, ◌*◌, ◌/◌, ◌%◌, ◌<◌, ◌^◌, ◌≡◌, ◌∙◌, ap, false, List, [], ◌∷◌, ◌++◌, some, arith,
}
use yalnix_os_project.Machine.{word}
use yalnix_os_project.UserHeap.State.{UserHeap, Link, add32, header_size}
use yalnix_os_project.UserHeap.Brk.{sbrk}
use yalnix_os_project.UserHeap.Brk.Back.{Grants, with_break, sbrk_lem}
use yalnix_os_project.UserHeap.Alloc.{malloc, use_grown}
use yalnix_os_project.UserHeap.Chain.{Cell, addr_after}
use yalnix_os_project.UserHeap.Merge.{is_free}
use yalnix_os_project.UserHeap.FirstFit.{Full}
use yalnix_os_project.UserHeap.Serve.{Sound, needed, needed_even}
use yalnix_os_project.UserHeap.Extend.{grown_end, grown, grow_heap_granted}
use yalnix_os_project.UserHeap.Enlarge.{use_grown-Extended}
use yalnix_os_project.UserHeap.Request.{malloc_grows}

Sound-with_break : (s : UserHeap) (cs : List Cell) (e : ℕ) → Sound s cs → Sound (with_break s e) cs
Sound-with_break s cs e o =
    let b = o.bounds in
    record {
      ready = o.ready;
      bounds = record {
        start_pos = b.start_pos;
        start_lt_end = b.start_lt_end;
        end_low = b.end_low;
      };
      chain = o.chain;
    }

module _ (link : Link) (granted : Grants link) (len : ℕ) (before : List Cell) (c : Cell) where
  malloc_granted :
      (s : UserHeap)
      → s.heap_end + needed len + 9000 < 2 ^ 31
      → Sound s (before ++ c ∷ [])
      → Full (needed len) (before ++ c ∷ [])
      → malloc link len s
        ≡ some (
            use_grown
              (needed len)
              (addr_after s.heap_start before)
              (s.heap_end, grown s (needed len)))
  malloc_granted s low o no_room =
      let b = o.bounds in
      malloc_grows link s len before c low o no_room
      ∙ ap (λ x. some (use_grown (needed len) (addr_after s.heap_start before) x))
          (grow_heap_granted link (needed len) s b.start_pos low granted)

  -- On a sound heap whose last block is in use and that ends at the break, with a kernel that
  -- grants every break: where malloc has to grow the heap, it does the same after the program has
  -- called sbrk as without that. sbrk returns the end of the heap, malloc hands out the block
  -- whose header is at that address, and the break is at the end of the new block, however far
  -- sbrk moved it.
  pub malloc_takes_sbrk :
      (s : UserHeap) (incr : ℕ)
      → 0 < incr
      → s.current_break ≡ s.heap_end
      → s.heap_end + needed len + 9000 < 2 ^ 31
      → Sound s (before ++ c ∷ [])
      → Full (needed len) (before ++ c ∷ [])
      → is_free c ≡ false
      → ((sbrk link incr s).0 ≡ s.heap_end)
        × (r : ℕ × UserHeap) × (malloc link len (sbrk link incr s).1 ≡ some r)
        × (malloc link len s ≡ some r)
        × (r.0 ≡ s.heap_end + header_size)
        × ((r.1).current_break ≡ grown_end s (needed len))
  malloc_takes_sbrk s incr more at_end low o no_room busy =
      let n = needed len in
      let small : len < 2 ^ 31 = omega arith in
      let e = (add32 s.current_break incr + 7) % word / 8 * 8 in
      let moved = sbrk_lem link granted s incr more in
      let last = addr_after s.heap_start before in
      let r = use_grown n last (s.heap_end, grown s n) in
      let x = use_grown-Extended link s n before c (needed_even len small) o low busy in
      (
        ap (λ (y : ℕ × UserHeap). y.0) moved ∙ at_end,
        r,
        ap (λ (y : ℕ × UserHeap). malloc link len y.1) moved
            ∙ malloc_granted (with_break s e) low (Sound-with_break s (before ++ c ∷ []) e o)
                no_room,
        malloc_granted s low o no_room,
        x.address,
        ap (λ (y : UserHeap). y.current_break) x.only,
      )
