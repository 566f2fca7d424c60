-- ===== src/StrictHeap/Undisturbed.antt =====
-- etc/new_heap.c on a heap in order: the kernel build does not abort.
use yalnix_os_project.Base.{ℕ, ◌+◌, ◌<◌, ◌^◌, ◌≡◌, refl, Bool, List, ◌∷◌, ◌++◌, Option, some, arith}
use yalnix_os_project.UserHeap.State.{UserHeap, Link}
use yalnix_os_project.UserHeap.Alloc.{malloc as lax_malloc, free as lax_free}
use yalnix_os_project.UserHeap.Realloc.{realloc as lax_realloc}
use yalnix_os_project.UserHeap.Regions.{Region}
use yalnix_os_project.UserHeap.Refines.{Holds, Gives, nothing, region, malloc-Gives}
use yalnix_os_project.UserHeap.Returns.{TakesBack, taken_back, free-TakesBack}
use yalnix_os_project.UserHeap.Moves.{Resizes, unchanged, resized}
use yalnix_os_project.UserHeap.Resizes.{realloc-Resizes}
use yalnix_os_project.StrictHeap.Run.{Run, done, built}
use yalnix_os_project.StrictHeap.Alloc.{malloc, free}
use yalnix_os_project.StrictHeap.Realloc.{realloc}
use yalnix_os_project.StrictHeap.Follows.{
  Follows, alike, stops, lost, both_spent, heap_count, result_count,
}
use yalnix_os_project.StrictHeap.Frees.{free-Follows}
use yalnix_os_project.StrictHeap.Requests.{malloc-Follows}
use yalnix_os_project.StrictHeap.Moves.{realloc-Follows}

-- A run that goes like new_heap.c, with a result of this kind.
pub data Undisturbed {A : Type 0} (P : Option A → Type 0) : Run A → Type 0 where
  ran : (a : A) → P (some a) → Undisturbed P (done a)

module _ {A : Type 0} (k : Bool) (count : A → ℕ) (w : ℕ) (P : Option A → Type 0) where
  Undisturbed-ran :
      (r : Run A) (a : A)
      → count a ≡ w
      → P (some a)
      → (q : Option A) → q ≡ some a
      → Follows k count w r q
      → Undisturbed P r
  Undisturbed-ran r a quiet p q e (alike b at) = let same : b ≡ a = cc in ran b (rw same p)
  Undisturbed-ran r a quiet p q e (stops b kernel more) =
      let same : count b ≡ count a = cc in absurd (omega arith)
  Undisturbed-ran r a quiet p q e (lost kernel) = absurd (cc)
  Undisturbed-ran r a quiet p q e both_spent = absurd (cc)

Gives-Undisturbed :
    (k : Bool) (s : UserHeap) (len : ℕ) (rs : List Region) (w : ℕ) (r : Run (ℕ × UserHeap))
    (q : Option (ℕ × UserHeap))
    → Holds s rs w
    → Gives s len rs w q
    → Follows k result_count s.warnings r q
    → Undisturbed (Gives s len rs w) r
Gives-Undisturbed k s len rs w r q h nothing f =
    Undisturbed-ran k result_count s.warnings (Gives s len rs w) r (0, s) refl nothing q refl f
Gives-Undisturbed k s len rs w r q h (region xs ys n x at enough g bytes) f =
    let now = g.complaints in
    let before = h.complaints in
    Undisturbed-ran k result_count s.warnings (Gives s len rs w) r x (omega arith)
      (region xs ys n x at enough g bytes) q refl f

TakesBack-Undisturbed :
    (k : Bool) (s : UserHeap) (xs ys : List Region) (w : ℕ) (r : Run UserHeap) (q : Option UserHeap)
    → s.warnings ≡ w
    → TakesBack s xs ys w q
    → Follows k heap_count s.warnings r q
    → Undisturbed (TakesBack s xs ys w) r
TakesBack-Undisturbed k s xs ys w r q before (taken_back t g bytes) f =
    let now = g.complaints in
    Undisturbed-ran k heap_count s.warnings (TakesBack s xs ys w) r t (omega arith)
      (taken_back t g bytes) q refl f

Resizes-Undisturbed :
    (k : Bool) (s : UserHeap) (xs : List Region) (ptr n : ℕ) (ys : List Region) (w size : ℕ)
    (r : Run (ℕ × UserHeap)) (q : Option (ℕ × UserHeap))
    → s.warnings ≡ w
    → Resizes s xs ptr n ys w size q
    → Follows k result_count s.warnings r q
    → Undisturbed (Resizes s xs ptr n ys w size) r
Resizes-Undisturbed k s xs ptr n ys w size r q before unchanged f =
    Undisturbed-ran k result_count s.warnings (Resizes s xs ptr n ys w size) r (0, s) refl unchanged
      q refl f
Resizes-Undisturbed k s xs ptr n ys w size r q before (resized ps qs m x at enough g bytes) f =
    let now = g.complaints in
    Undisturbed-ran k result_count s.warnings (Resizes s xs ptr n ys w size) r x (omega arith)
      (resized ps qs m x at enough g bytes) q refl f

pub malloc-Undisturbed :
    (k : Bool) (link : Link) (s : UserHeap) (len : ℕ) (rs : List Region) (w : ℕ)
    → s.heap_end + len + 9100 < 2 ^ 31
    → Holds s rs w
    → Undisturbed (Gives s len rs w) (malloc (built k link) len s)
malloc-Undisturbed k link s len rs w low h =
    Gives-Undisturbed k s len rs w (malloc (built k link) len s) (lax_malloc link len s) h
      (malloc-Gives link s len rs w low h) (malloc-Follows k link len s)

-- On a sound heap, free of etc/new_heap.c of the address of a region that is held, in any build
-- with the break functions of libc.c, does not abort, and the new heap is sound, has complained no
-- further and holds exactly the other regions with no byte changed.
pub free-Undisturbed :
    (k : Bool) (link : Link) (s : UserHeap) (xs : List Region) (addr n : ℕ) (ys : List Region)
    (w : ℕ)
    → Holds s (xs ++ (addr, n) ∷ ys) w
    → Undisturbed (TakesBack s xs ys w) (free (built k link) addr s)
free-Undisturbed k link s xs addr n ys w h =
    TakesBack-Undisturbed k s xs ys w (free (built k link) addr s) (lax_free link addr s)
      h.complaints (free-TakesBack link s xs addr n ys w h) (free-Follows k link addr s)

pub realloc-Undisturbed :
    (k : Bool) (link : Link) (s : UserHeap) (xs : List Region) (ptr n : ℕ) (ys : List Region)
    (w size : ℕ)
    → 0 < size
    → s.heap_end + size + 9100 < 2 ^ 31
    → Holds s (xs ++ (ptr, n) ∷ ys) w
    → Undisturbed (Resizes s xs ptr n ys w size) (realloc (built k link) ptr size s)
realloc-Undisturbed k link s xs ptr n ys w size pos low h =
    Resizes-Undisturbed k s xs ptr n ys w size (realloc (built k link) ptr size s)
      (lax_realloc link ptr size s) h.complaints
      (realloc-Resizes link s xs ptr n ys w size pos low h) (realloc-Follows k link ptr size s)
