-- ===== src/UserHeap/Programs.antt =====
-- A program's life on the heap: requests and returns in any order.
use mathlib.Core.Path.{subst}
use yalnix_os_project.Base.{◌*◌, ◌%◌, ℕ, ◌+◌, ◌<◌, ◌^◌, ◌≡◌, Option, some, List, ◌∷◌, ◌++◌}
use yalnix_os_project.Machine.{null, word}
use yalnix_os_project.UserHeap.State.{UserHeap, Link}
use yalnix_os_project.UserHeap.Alloc.{malloc, free}
use yalnix_os_project.UserHeap.Realloc.{calloc, realloc}
use yalnix_os_project.UserHeap.Moves.{Resizes, unchanged, resized}
use yalnix_os_project.UserHeap.Resizes.{realloc-Resizes}
use yalnix_os_project.UserHeap.Zeroes.{Clears, no_region, cleared, calloc-Clears}
use yalnix_os_project.UserHeap.Regions.{Region, Apart}
use yalnix_os_project.UserHeap.Refines.{Holds, Holds-Apart, Gives, nothing, region, malloc-Gives}
use yalnix_os_project.UserHeap.Returns.{TakesBack, taken_back, free-TakesBack}

-- The heaps that calls of malloc and calloc lead to, and calls of free and realloc on a region that
-- is held.
pub data Reaches (link : Link) (w : ℕ) (s : UserHeap) : UserHeap → Type 0 where
  at_start : Reaches link w s s
  asks :
      (t : UserHeap) (len : ℕ) (r : ℕ × UserHeap)
      → Reaches link w s t
      → t.heap_end + len + 9100 < 2 ^ 31
      → malloc link len t ≡ some r
      → Reaches link w s r.1
  returns :
      (t t' : UserHeap) (xs : List Region) (addr n : ℕ) (ys : List Region)
      → Reaches link w s t
      → Holds t (xs ++ (addr, n) ∷ ys) w
      → free link addr t ≡ some t'
      → Reaches link w s t'
  asks_zeroed :
      (t : UserHeap) (nmemb size : ℕ) (r : ℕ × UserHeap)
      → Reaches link w s t
      → t.heap_end + nmemb * size % word + 9100 < 2 ^ 31
      → calloc link nmemb size t ≡ some r
      → Reaches link w s r.1
  resizes :
      (t : UserHeap) (xs : List Region) (addr n : ℕ) (ys : List Region) (size : ℕ)
      (r : ℕ × UserHeap)
      → Reaches link w s t
      → 0 < size
      → t.heap_end + size + 9100 < 2 ^ 31
      → Holds t (xs ++ (addr, n) ∷ ys) w
      → realloc link addr size t ≡ some r
      → Reaches link w s r.1

some_inj {ℓ} : {A : Type ℓ} (a b : A) → some a ≡ some b → a ≡ b
some_inj a b e = cc

Gives-Holds :
    (s : UserHeap) (len : ℕ) (rs : List Region) (w : ℕ) (q : Option (ℕ × UserHeap))
    (r : ℕ × UserHeap)
    → Holds s rs w
    → q ≡ some r
    → Gives s len rs w q
    → (rs' : List Region) × Holds r.1 rs' w
Gives-Holds s len rs w q r h e nothing =
    (rs, subst (λ (z : ℕ × UserHeap). Holds z.1 rs w) (some_inj (null, s) r e) h)
Gives-Holds s len rs w q r h e (region xs ys n x at enough g same) = (
  xs ++ (x.0, n) ∷ ys,
  subst (λ (z : ℕ × UserHeap). Holds z.1 (xs ++ (x.0, n) ∷ ys) w) (some_inj x r e) g,
)

TakesBack-Holds :
    (u : UserHeap) (xs ys : List Region) (w : ℕ) (q : Option UserHeap) (s : UserHeap)
    → q ≡ some s
    → TakesBack u xs ys w q
    → (rs' : List Region) × Holds s rs' w
TakesBack-Holds u xs ys w q s e (taken_back s' h' same) =
    (xs ++ ys, subst (λ (z : UserHeap). Holds z (xs ++ ys) w) (some_inj s' s e) h')

Clears-Holds :
    (s : UserHeap) (len : ℕ) (rs : List Region) (w : ℕ) (q : Option (ℕ × UserHeap))
    (r : ℕ × UserHeap)
    → Holds s rs w
    → q ≡ some r
    → Clears s len rs w q
    → (rs' : List Region) × Holds r.1 rs' w
Clears-Holds s len rs w q r h e no_region =
    (rs, subst (λ (z : ℕ × UserHeap). Holds z.1 rs w) (some_inj (null, s) r e) h)
Clears-Holds s len rs w q r h e (cleared xs ys m x at enough g zeros others) = (
  xs ++ (x.0, m) ∷ ys,
  subst (λ (z : ℕ × UserHeap). Holds z.1 (xs ++ (x.0, m) ∷ ys) w) (some_inj x r e) g,
)

Resizes-Holds :
    (s : UserHeap) (xs : List Region) (ptr n : ℕ) (ys : List Region) (w size : ℕ)
    (q : Option (ℕ × UserHeap)) (r : ℕ × UserHeap)
    → Holds s (xs ++ (ptr, n) ∷ ys) w
    → q ≡ some r
    → Resizes s xs ptr n ys w size q
    → (rs' : List Region) × Holds r.1 rs' w
Resizes-Holds s xs ptr n ys w size q r h e unchanged = (
  xs ++ (ptr, n) ∷ ys,
  subst (λ (z : ℕ × UserHeap). Holds z.1 (xs ++ (ptr, n) ∷ ys) w) (some_inj (null, s) r e) h,
)
Resizes-Holds s xs ptr n ys w size q r h e (resized ps qs m x others enough g bytes) = (
  ps ++ (x.0, m) ∷ qs,
  subst (λ (z : ℕ × UserHeap). Holds z.1 (ps ++ (x.0, m) ∷ qs) w) (some_inj x r e) g,
)

Reaches-Holds :
    (link : Link) (w : ℕ) (s t : UserHeap) (rs : List Region)
    → Holds s rs w
    → Reaches link w s t
    → (rs' : List Region) × Holds t rs' w
Reaches-Holds link w s t rs h at_start = (rs, h)
Reaches-Holds link w s t rs h (asks u len r before low run) =
    let (rs1, h1) = Reaches-Holds link w s u rs h before in
    Gives-Holds u len rs1 w (malloc link len u) r h1 run (malloc-Gives link u len rs1 w low h1)
Reaches-Holds link w s t rs h (returns u t' xs addr n ys before held run) =
    TakesBack-Holds u xs ys w (free link addr u) t run (free-TakesBack link u xs addr n ys w held)
Reaches-Holds link w s t rs h (asks_zeroed u nmemb size r before low run) =
    let (rs1, h1) = Reaches-Holds link w s u rs h before in
    Clears-Holds u (nmemb * size % word) rs1 w (calloc link nmemb size u) r h1 run
      (calloc-Clears link u nmemb size rs1 w low h1)
Reaches-Holds link w s t rs h (resizes u xs addr n ys size r before pos low held run) =
    Resizes-Holds u xs addr n ys w size (realloc link addr size u) r held run
      (realloc-Resizes link u xs addr n ys w size pos low held)

-- From a heap that holds some regions, every sequence of malloc, calloc and realloc calls (each
-- with the heap far enough below the upper half of the address space) and free calls, realloc to a
-- size that is not 0, and free and realloc on regions held at the time, leads to a heap that is
-- sound, has complained no further and holds regions that lie within it without overlapping.
pub Reaches-Apart :
    (link : Link) (w : ℕ) (s t : UserHeap) (rs : List Region)
    → Holds s rs w
    → Reaches link w s t
    → (rs' : List Region) × Holds t rs' w × Apart t.heap_start rs' t.heap_end
Reaches-Apart link w s t rs h steps =
    let (rs', h') = Reaches-Holds link w s t rs h steps in (rs', h', Holds-Apart t rs' w h')
