-- ===== src/UserHeap/Zeroes.antt =====
-- `calloc` for its callers.
use yalnix_os_project.Base.{
  ℕ, ◌+◌, ◌*◌, ◌%◌, ◌≤◌, ◌<◌, ◌^◌, ◌≡◌, ◌∙◌, ap, refl, false, true, ◌⊎◌, List, ◌∷◌, ◌++◌, ◌&&◌,
  ◌==◌, ltb, leb, if◌then◌else◌, Option, some, arith,
}
use yalnix_os_project.Machine.{null, word}
use yalnix_os_project.UserHeap.State.{UserHeap, Link}
use yalnix_os_project.UserHeap.Alloc.{◌>>=◌, malloc}
use yalnix_os_project.UserHeap.Realloc.{memset, calloc}
use yalnix_os_project.UserHeap.Regions.{Region}
use yalnix_os_project.UserHeap.Refines.{Holds, Gives, nothing, region, malloc-Gives}
use yalnix_os_project.UserHeap.Moves.{Holds-bytes, region_some}

-- What `calloc` promises: NULL and no change, or one more region whose first `len` bytes are 0, and
-- no other byte written.
pub data Clears (s : UserHeap) (len : ℕ) (rs : List Region) (w : ℕ)
    : Option (ℕ × UserHeap) → Type 0 where
  no_region : Clears s len rs w (some (null, s))
  cleared :
      (xs ys : List Region) (m : ℕ) (r : ℕ × UserHeap)
      → rs ≡ xs ++ ys
      → len ≤ m
      → Holds r.1 (xs ++ (r.0, m) ∷ ys) w
      → ((i : ℕ) → i < len → (r.1).bytes (r.0 + i) ≡ 0)
      → ((a : ℕ) → (a < r.0) ⊎ (r.0 + len ≤ a) → (r.1).bytes a ≡ s.bytes a)
      → Clears s len rs w (some r)

memset_inside :
    (s : UserHeap) (dst c len i : ℕ) → i < len → (memset dst c len s).bytes (dst + i) ≡ c
memset_inside s dst c len i lt =
    let inside : (leb dst (dst + i) && ltb (dst + i) (dst + len)) ≡ true = ground arith in
    rw inside refl

memset_outside :
    (s : UserHeap) (dst c len a : ℕ)
    → (a < dst) ⊎ (dst + len ≤ a)
    → (memset dst c len s).bytes a ≡ s.bytes a
memset_outside s dst c len a off =
    let outside : (leb dst a && ltb a (dst + len)) ≡ false = ground arith in rw outside refl

Gives-Clears :
    (s : UserHeap) (len : ℕ) (rs : List Region) (w : ℕ) (q : Option (ℕ × UserHeap))
    → Gives s len rs w q
    → Clears s len rs w (q >>= λ r. some (r.0, if r.0 == null then r.1 else memset r.0 0 len r.1))
Gives-Clears s len rs w q nothing = no_region
Gives-Clears s len rs w q (region xs ys m r at enough h bytes) =
    let some_region = region_some r.1 xs r.0 m ys w h in
    let t = memset r.0 0 len r.1 in
    let result : Clears s len rs w (some (r.0, t)) =
      cleared xs ys m (r.0, t) at enough (Holds-bytes r.1 (xs ++ (r.0, m) ∷ ys) w t.bytes h)
        (memset_inside r.1 r.0 0 len)
        (λ a off. memset_outside r.1 r.0 0 len a off ∙ ap (λ (b : ℕ → ℕ). b a) bytes) in
    rw some_region result

-- On a sound heap that is far enough below the upper half of the address space, calloc returns:
-- either NULL with the heap unchanged, or an address such that the new heap is sound, has
-- complained no further and holds the same regions and one more at that address, at least as long
-- as the product modulo 2^32; its bytes up to that product are 0, and no byte outside of them has
-- changed.
pub calloc-Clears :
    (link : Link) (s : UserHeap) (nmemb size : ℕ) (rs : List Region) (w : ℕ)
    → s.heap_end + nmemb * size % word + 9100 < 2 ^ 31
    → Holds s rs w
    → Clears s (nmemb * size % word) rs w (calloc link nmemb size s)
unfolding calloc
calloc-Clears link s nmemb size rs w low h =
    let len = nmemb * size % word in
    Gives-Clears s len rs w (malloc link len s) (malloc-Gives link s len rs w low h)
