-- ===== src/UserHeap/Moves.antt =====
-- `realloc` that moves a region: malloc, memcpy, free.
use yalnix_os_project.Base.{
  ℕ, ◌+◌, ◌-◌, ◌≤◌, ◌<◌, ◌≡◌, ◌∙◌, sym, ap, refl, false, true, List, ◌∷◌, ◌++◌, ◌&&◌, ◌==◌, ltb,
  leb, Option, some, arith,
}
use yalnix_os_project.Machine.{null}
use yalnix_os_project.UserHeap.State.{Block, UserHeap, Link, header_size}
use yalnix_os_project.UserHeap.Alloc.{◌>>=◌, free}
use yalnix_os_project.UserHeap.Realloc.{memcpy, move_block}
use yalnix_os_project.UserHeap.Chain.{Chain-drop, addr_after}
use yalnix_os_project.UserHeap.Serve.{Sound}
use yalnix_os_project.UserHeap.Regions.{Region}
use yalnix_os_project.UserHeap.Refines.{Holds, Gives, nothing, region}
use yalnix_os_project.UserHeap.Returns.{locate, TakesBack, taken_back, free-TakesBack}
use yalnix_os_project.UserHeap.Swap.{swap}

-- What `realloc` promises for a region (ptr, n): NULL and no change, or a region of the length
-- asked for in its place, with the bytes of the old one as far as both reach.
pub data Resizes (s : UserHeap) (xs : List Region) (ptr n : ℕ) (ys : List Region) (w size : ℕ)
    : Option (ℕ × UserHeap) → Type 0 where
  unchanged : Resizes s xs ptr n ys w size (some (null, s))
  resized :
      (ps qs : List Region) (m : ℕ) (r : ℕ × UserHeap)
      → ps ++ qs ≡ xs ++ ys
      → size ≤ m
      → Holds r.1 (ps ++ (r.0, m) ∷ qs) w
      → ((i : ℕ) → i < n → i < size → (r.1).bytes (r.0 + i) ≡ s.bytes (ptr + i))
      → Resizes s xs ptr n ys w size (some r)

-- Programs may write what they like in their memory.
pub Holds-bytes :
    (s : UserHeap) (rs : List Region) (w : ℕ) (b : ℕ → ℕ)
    → Holds s rs w
    → Holds (record s { bytes = b }) rs w
Holds-bytes s rs w b h =
    let o = h.sound in
    let m = o.bounds in
    record {
      cells = h.cells;
      sound = record {
        ready = o.ready;
        bounds = record {
          start_pos = m.start_pos;
          start_lt_end = m.start_lt_end;
          end_low = m.end_low;
        };
        chain = o.chain;
      };
      regions = h.regions;
      complaints = h.complaints;
    }

memcpy_copies :
    (s : UserHeap) (dst src len i : ℕ)
    → i < len
    → (memcpy dst src len s).bytes (dst + i) ≡ s.bytes (src + i)
memcpy_copies s dst src len i lt =
    let inside : (leb dst (dst + i) && ltb (dst + i) (dst + len)) ≡ true = ground arith in
    let offset : dst + i - dst ≡ i = omega arith in rw (inside, offset) refl

-- The block of a region says how long it is, and where it is.
region_size :
    (s : UserHeap) (xs : List Region) (ptr n : ℕ) (ys : List Region) (w here : ℕ)
    → Holds s (xs ++ (ptr, n) ∷ ys) w
    → ptr ≡ here + header_size
    → (s.blocks here).size_used ≡ n
region_size s xs ptr n ys w here h at =
    let d = locate s.heap_start h.cells xs ptr n ys (sym h.regions) in
    let o : Sound s (d.before ++ d.block ∷ d.after) = rw (sym d.split) h.sound in
    let chain =
      Chain-drop s.blocks null s.heap_start d.before (d.block ∷ d.after) s.heap_end o.chain in
    let address = d.address in
    let same : here ≡ addr_after s.heap_start d.before = omega arith in
    ap (λ i. (s.blocks i).size_used) same ∙ ap (λ (b : Block). b.size_used) chain.0 ∙ sym d.len

pub region_some :
    (s : UserHeap) (xs : List Region) (ptr n : ℕ) (ys : List Region) (w : ℕ)
    → Holds s (xs ++ (ptr, n) ∷ ys) w
    → (ptr == null) ≡ false
region_some s xs ptr n ys w h =
    let d = locate s.heap_start h.cells xs ptr n ys (sym h.regions) in
    let address = d.address in ground arith

module _ (link : Link) (s : UserHeap) (xs : List Region) (ptr n : ℕ) (ys : List Region)
    (w size here : ℕ) (at : ptr ≡ here + header_size) where
  freed-Resizes :
      (ps qs before after : List Region) (m : ℕ) (r : ℕ × UserHeap) (q : Option UserHeap)
      → ps ++ qs ≡ before ++ (r.0, m) ∷ after
      → before ++ after ≡ xs ++ ys
      → size ≤ m
      → (r.1).bytes ≡ s.bytes
      → TakesBack (memcpy r.0 ptr n r.1) ps qs w q
      → Resizes s xs ptr n ys w size (q >>= λ t. some (r.0, t))
  freed-Resizes ps qs before after m r q whole others enough bytes (taken_back t h same) =
      resized before after m (r.0, t) others enough (rw (sym whole) h)
        (λ i lo hi.
          ap (λ (b : ℕ → ℕ). b (r.0 + i)) same
          ∙ memcpy_copies r.1 r.0 ptr n i lo
          ∙ ap (λ (b : ℕ → ℕ). b (ptr + i)) bytes)

  pub moved-Resizes :
      (q : Option (ℕ × UserHeap))
      → Gives s size (xs ++ (ptr, n) ∷ ys) w q
      → Resizes s xs ptr n ys w size (q >>= λ r. move_block link ptr here r.0 r.1)
  unfolding move_block
  moved-Resizes q nothing = unchanged
  moved-Resizes q (region xs' ys' m r same enough h bytes) =
      let sw = swap xs' (r.0, m) ys' xs (ptr, n) ys (sym same) in
      let h2 : Holds r.1 (sw.left ++ (ptr, n) ∷ sw.right) w = rw (sym sw.whole) h in
      let used = region_size r.1 sw.left ptr n sw.right w here h2 at in
      let some_block = region_some r.1 xs' r.0 m ys' w h in
      let t = memcpy r.0 ptr n r.1 in
      let back =
        free-TakesBack link t sw.left ptr n sw.right w
          (Holds-bytes r.1 (sw.left ++ (ptr, n) ∷ sw.right) w t.bytes h2) in
      rw (some_block, used)
        (freed-Resizes sw.left sw.right sw.before sw.after m r (free link ptr t) sw.rest sw.others
          enough bytes back)
