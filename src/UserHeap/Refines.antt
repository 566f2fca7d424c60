-- ===== src/UserHeap/Refines.antt =====
-- The allocator as its callers see it: a set of regions that do not overlap.
use mathlib.Core.List.{append-nil}
use yalnix_os_project.Base.{
  ℕ, ◌+◌, ◌≤◌, ◌<◌, ◌^◌, ◌≡◌, ◌∙◌, sym, ap, List, [], ◌∷◌, ◌++◌, Option, some, arith,
}
use yalnix_os_project.Machine.{null}
use yalnix_os_project.UserHeap.State.{UserHeap, Link, header_size}
use yalnix_os_project.UserHeap.Alloc.{malloc, free}
use yalnix_os_project.UserHeap.Chain.{Cell, Chain-drop, end_of, addr_after}
use yalnix_os_project.UserHeap.Split.{taken}
use yalnix_os_project.UserHeap.Merge.{joined}
use yalnix_os_project.UserHeap.Serve.{Sound, Served, needed}
use yalnix_os_project.UserHeap.Extend.{new_cell}
use yalnix_os_project.UserHeap.Grow.{
  Grown, refused, appended, widened, snoc_append, append_nil, addr_after_snoc,
}
use yalnix_os_project.UserHeap.Request.{Malloced, served, grew, malloc-Malloced}
use yalnix_os_project.UserHeap.Regions.{
  Region, live, live-append, live-free, live-taken, Apart, Chain-Apart,
}

-- A sound heap that has complained `w` times, with these regions handed out.
pub record Holds (s : UserHeap) (rs : List Region) (w : ℕ) : Type 0 where
  pub cells : List Cell
  pub sound : Sound s cells
  pub regions : rs ≡ live s.heap_start cells
  pub complaints : s.warnings ≡ w

pub Holds-Apart :
    (s : UserHeap) (rs : List Region) (w : ℕ) → Holds s rs w → Apart s.heap_start rs s.heap_end
Holds-Apart s rs w h =
    let o = h.sound in
    rw h.regions (Chain-Apart s.blocks null s.heap_start h.cells s.heap_end o.chain)

-- What `malloc` promises: NULL and no change, or one more region of the length asked for and the
-- same bytes.
pub data Gives (s : UserHeap) (len : ℕ) (rs : List Region) (w : ℕ)
    : Option (ℕ × UserHeap) → Type 0 where
  nothing : Gives s len rs w (some (null, s))
  region :
      (xs ys : List Region) (n : ℕ) (r : ℕ × UserHeap)
      → rs ≡ xs ++ ys
      → len ≤ n
      → Holds r.1 (xs ++ (r.0, n) ∷ ys) w
      → (r.1).bytes ≡ s.bytes
      → Gives s len rs w (some r)

-- The regions before and after a block of the heap is replaced.
pub live_middle :
    (a : ℕ) (before : List Cell) (c : Cell) (after : List Cell)
    → c.used ≡ 0
    → live a (before ++ c ∷ after) ≡ live a before ++ live (end_of (addr_after a before) c) after
live_middle a before c after free =
    live-append a before (c ∷ after)
    ∙ ap (λ rs. live a before ++ rs) (live-free (addr_after a before) c after free)

live_handed :
    (a n : ℕ) (before : List Cell) (c : Cell) (after : List Cell)
    → 0 < n
    → n ≤ c.size
    → live a (before ++ (taken n c ++ after))
      ≡ live a before
        ++ (addr_after a before + header_size, n) ∷ live (end_of (addr_after a before) c) after
live_handed a n before c after pos fits =
    live-append a before (taken n c ++ after)
    ∙ ap (λ rs. live a before ++ rs) (live-taken (addr_after a before) n c after pos fits)

Served-Gives :
    (s : UserHeap) (len n : ℕ) (before : List Cell) (c : Cell) (after : List Cell)
    (rs : List Region) (w : ℕ) (r : ℕ × UserHeap)
    → 0 < n
    → len ≤ n
    → c.used ≡ 0
    → n ≤ c.size
    → rs ≡ live s.heap_start (before ++ c ∷ after)
    → s.warnings ≡ w
    → Served s n before c after r
    → Gives s len rs w (some r)
Served-Gives s len n before c after rs w r pos enough free fits at warn v =
    let start : (r.1).heap_start ≡ s.heap_start = ap (λ (x : UserHeap). x.heap_start) v.only in
    let a = s.heap_start in
    region (live a before) (live (end_of (addr_after a before) c) after) n r
      (at ∙ live_middle a before c after free) enough
      (record {
        cells = before ++ (taken n c ++ after);
        sound = v.sound;
        regions = rw (start, v.address) (sym (live_handed a n before c after pos fits));
        complaints = ap (λ (x : UserHeap). x.warnings) v.only ∙ warn;
      })
      (ap (λ (x : UserHeap). x.bytes) v.only)

module _ (s : UserHeap) (len n : ℕ) (before : List Cell) (c : Cell) (rs : List Region) (w : ℕ)
    (pos : 0 < n) (enough : len ≤ n) (low : s.heap_end + n + 9000 < 2 ^ 31)
    (o : Sound s (before ++ c ∷ [])) (at : rs ≡ live s.heap_start (before ++ c ∷ []))
    (warn : s.warnings ≡ w) where
  end_at : addr_after s.heap_start (before ++ c ∷ []) ≡ s.heap_end
  end_at =
      addr_after_snoc s.heap_start before c
      ∙ (Chain-drop s.blocks null s.heap_start before (c ∷ []) s.heap_end o.chain).2

  new_region :
      live s.heap_start (before ++ c ∷ taken n (new_cell s n))
      ≡ live s.heap_start (before ++ c ∷ []) ++ (s.heap_end + header_size, n) ∷ []
  unfolding live
  new_region =
      let d = new_cell s n in
      let more = live-taken (addr_after s.heap_start (before ++ c ∷ [])) n d [] pos (omega arith) in
      ap (live s.heap_start) (sym (snoc_append before c (taken n d)))
      ∙ live-append s.heap_start (before ++ c ∷ []) (taken n d)
      ∙ ap (λ x. live s.heap_start (before ++ c ∷ []) ++ x)
          (ap (live (addr_after s.heap_start (before ++ c ∷ []))) (sym (append_nil (taken n d)))
            ∙ more
            ∙ ap (λ x. (x + header_size, n) ∷ []) end_at)

  wide_region :
      c.used ≡ 0
      → live s.heap_start (before ++ taken n (joined c (new_cell s n)))
        ≡ live s.heap_start before ++ (addr_after s.heap_start before + header_size, n) ∷ []
  unfolding live
  wide_region free =
      let d = joined c (new_cell s n) in
      ap (λ x. live s.heap_start (before ++ x)) (sym (append_nil (taken n d)))
      ∙ live_handed s.heap_start n before d [] pos (omega arith)

  Grown-Gives :
      {link : Link} → (r : ℕ × UserHeap) → Grown link s n before c r → Gives s len rs w (some r)
  unfolding live
  Grown-Gives r (refused no_grant) = nothing
  Grown-Gives r (appended x busy e) =
      let start : (r.1).heap_start ≡ s.heap_start = ap (λ (x : UserHeap). x.heap_start) e.only in
      region (live s.heap_start (before ++ c ∷ [])) [] n r
        (at ∙ sym (append-nil (live s.heap_start (before ++ c ∷ [])))) enough
        (record {
          cells = before ++ c ∷ taken n (new_cell s n);
          sound = e.sound;
          regions = rw (start, e.address) (sym new_region);
          complaints = ap (λ (x : UserHeap). x.warnings) e.only ∙ warn;
        })
        (ap (λ (x : UserHeap). x.bytes) e.only)
  Grown-Gives r (widened x gap e) =
      let start : (r.1).heap_start ≡ s.heap_start = ap (λ (x : UserHeap). x.heap_start) e.only in
      let none_used : c.used ≡ 0 = ground arith in
      region (live s.heap_start before) [] n r (at ∙ live_middle s.heap_start before c [] none_used)
        enough
        (record {
          cells = before ++ taken n (joined c (new_cell s n));
          sound = e.sound;
          regions = rw (start, e.address) (sym (wide_region none_used));
          complaints = ap (λ (x : UserHeap). x.warnings) e.only ∙ warn;
        })
        (ap (λ (x : UserHeap). x.bytes) e.only)

Malloced-Gives :
    {link : Link}
    → (s : UserHeap) (len n : ℕ) (cs : List Cell) (rs : List Region) (w : ℕ)
      (r : Option (ℕ × UserHeap))
    → 0 < n
    → len ≤ n
    → s.heap_end + n + 9000 < 2 ^ 31
    → Sound s cs
    → rs ≡ live s.heap_start cs
    → s.warnings ≡ w
    → Malloced link s n cs r
    → Gives s len rs w r
Malloced-Gives s len n cs rs w r pos enough low o at warn (served f x v) =
    let room = f.room in
    Served-Gives s len n f.before f.block f.after rs w x pos enough (ground arith) (ground arith)
      (at ∙ ap (live s.heap_start) f.split) warn v
Malloced-Gives s len n cs rs w r pos enough low o at warn (grew before c x no_room e g) =
    Grown-Gives s len n before c rs w pos enough low (rw (sym e) o) (at ∙ ap (live s.heap_start) e)
      warn x g

-- On a sound heap that holds a list of regions and is far enough below the upper half of the
-- address space, malloc returns: either NULL with the heap unchanged, or an address such that the
-- new heap is sound, has complained no further and holds the same regions and one more at that
-- address, at least as long as was asked for, with no byte changed.
pub malloc-Gives :
    (link : Link) (s : UserHeap) (len : ℕ) (rs : List Region) (w : ℕ)
    → s.heap_end + len + 9100 < 2 ^ 31
    → Holds s rs w
    → Gives s len rs w (malloc link len s)
malloc-Gives link s len rs w low h =
    Malloced-Gives s len (needed len) h.cells rs w (malloc link len s) (omega arith) (omega arith)
      (omega arith) h.sound h.regions h.complaints
      (malloc-Malloced link s len h.cells (omega arith) h.sound)
