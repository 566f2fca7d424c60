-- ===== src/UserHeap/Returns.antt =====
-- `free` of a region, for its callers.
use yalnix_os_project.Base.{
  ℕ, ◌+◌, ◌≡◌, ◌≢◌, ◌∙◌, sym, ap, refl, Bool-cases, inl, inr, false, true, List, [], ◌∷◌, ◌++◌,
  Option, some, arith,
}
use yalnix_os_project.Machine.{null}
use yalnix_os_project.UserHeap.State.{UserHeap, Link, header_size}
use yalnix_os_project.UserHeap.Alloc.{free}
use yalnix_os_project.UserHeap.Chain.{Cell, Chain-drop, end_of, addr_after}
use yalnix_os_project.UserHeap.Split.{cell}
use yalnix_os_project.UserHeap.Merge.{is_free}
use yalnix_os_project.UserHeap.Serve.{Sound}
use yalnix_os_project.UserHeap.Release.{Freed, freed, coalesced, free-Freed}
use yalnix_os_project.UserHeap.Regions.{Region, live, live_skip, live_keep, live-coalesced}
use yalnix_os_project.UserHeap.Refines.{Holds, live_middle}

-- The block of a region.
pub record Located (a : ℕ) (cs : List Cell) (xs : List Region) (addr n : ℕ) (ys : List Region)
    : Type 0 where
  pub before : List Cell
  pub block : Cell
  pub after : List Cell
  pub split : cs ≡ before ++ block ∷ after
  pub busy : is_free block ≡ false
  pub address : addr ≡ addr_after a before + header_size
  pub len : n ≡ block.used
  pub left : xs ≡ live a before
  pub right : ys ≡ live (end_of (addr_after a before) block) after

no_region : (xs : List Region) (r : Region) (ys : List Region) → [] ≢ xs ++ r ∷ ys
no_region [] r ys e = cc
no_region (x ∷ xs) r ys e = cc

pub head_eq : (r q : Region) (rs qs : List Region) → r ∷ rs ≡ q ∷ qs → r ≡ q
head_eq r q rs qs e = cc

pub tail_eq : (r q : Region) (rs qs : List Region) → r ∷ rs ≡ q ∷ qs → rs ≡ qs
tail_eq r q rs qs e = cc

-- A block in front, free or in use.
Located-skip :
    (a : ℕ) (c : Cell) (cs : List Cell) (xs : List Region) (addr n : ℕ) (ys : List Region)
    → is_free c ≡ true
    → Located (end_of a c) cs xs addr n ys
    → Located a (c ∷ cs) xs addr n ys
Located-skip a c cs xs addr n ys f h = record {
  before = c ∷ h.before;
  block = h.block;
  after = h.after;
  split = ap (λ x. c ∷ x) h.split;
  busy = h.busy;
  address = h.address;
  len = h.len;
  left = h.left ∙ sym (live_skip a c h.before f);
  right = h.right;
}

Located-keep :
    (a : ℕ) (c : Cell) (cs : List Cell) (x : Region) (xs : List Region) (addr n : ℕ)
    (ys : List Region)
    → is_free c ≡ false
    → (a + header_size, c.used) ≡ x
    → Located (end_of a c) cs xs addr n ys
    → Located a (c ∷ cs) (x ∷ xs) addr n ys
Located-keep a c cs x xs addr n ys f e h = record {
  before = c ∷ h.before;
  block = h.block;
  after = h.after;
  split = ap (λ z. c ∷ z) h.split;
  busy = h.busy;
  address = h.address;
  len = h.len;
  left =
      ap (λ z. x ∷ z) h.left
      ∙ ap (λ z. z ∷ live (end_of a c) h.before) (sym e)
      ∙ sym (live_keep a c h.before f);
  right = h.right;
}

Located-busy :
    (a : ℕ) (c : Cell) (cs : List Cell) (xs : List Region) (addr n : ℕ) (ys : List Region)
    → is_free c ≡ false
    → ((zs : List Region)
        → live (end_of a c) cs ≡ zs ++ (addr, n) ∷ ys
        → Located (end_of a c) cs zs addr n ys)
    → (a + header_size, c.used) ∷ live (end_of a c) cs ≡ xs ++ (addr, n) ∷ ys
    → Located a (c ∷ cs) xs addr n ys
unfolding live
Located-busy a c cs [] addr n ys f later e =
    let same = head_eq (a + header_size, c.used) (addr, n) (live (end_of a c) cs) ys e in
    record {
      before = [];
      block = c;
      after = cs;
      split = refl;
      busy = f;
      address = sym (ap (λ (x : Region). x.0) same);
      len = sym (ap (λ (x : Region). x.1) same);
      left = refl;
      right = sym (tail_eq (a + header_size, c.used) (addr, n) (live (end_of a c) cs) ys e);
    }
Located-busy a c cs (x ∷ xs) addr n ys f later e =
    Located-keep a c cs x xs addr n ys f
      (head_eq (a + header_size, c.used) x (live (end_of a c) cs) (xs ++ (addr, n) ∷ ys) e)
      (later xs
        (tail_eq (a + header_size, c.used) x (live (end_of a c) cs) (xs ++ (addr, n) ∷ ys) e))

pub locate :
    (a : ℕ) (cs : List Cell) (xs : List Region) (addr n : ℕ) (ys : List Region)
    → live a cs ≡ xs ++ (addr, n) ∷ ys
    → Located a cs xs addr n ys
unfolding live
locate a [] xs addr n ys e = absurd (no_region xs (addr, n) ys e)
locate a (c ∷ cs) xs addr n ys e = elim (Bool-cases (is_free c)) [
  | inl f ↦
      Located-skip a c cs xs addr n ys f
        (locate (end_of a c) cs xs addr n ys (sym (live_skip a c cs f) ∙ e))
  | inr f ↦
      Located-busy a c cs xs addr n ys f (λ zs. locate (end_of a c) cs zs addr n ys)
        (sym (live_keep a c cs f) ∙ e)
]

-- The heap without the region, with the same bytes.
pub data TakesBack (s : UserHeap) (xs ys : List Region) (w : ℕ) : Option UserHeap → Type 0 where
  taken_back :
      (s' : UserHeap) → Holds s' (xs ++ ys) w → s'.bytes ≡ s.bytes → TakesBack s xs ys w (some s')

Freed-TakesBack :
    (s : UserHeap) (cs : List Cell) (xs ys : List Region) (w : ℕ) (r : Option UserHeap)
    → s.warnings ≡ w
    → xs ++ ys ≡ live s.heap_start cs
    → Freed s (coalesced cs) r
    → TakesBack s xs ys w r
Freed-TakesBack s cs xs ys w r warn at (freed s' only o) =
    let start : s'.heap_start ≡ s.heap_start = ap (λ (x : UserHeap). x.heap_start) only in
    taken_back s'
      (record {
        cells = coalesced cs;
        sound = o;
        regions = rw start (at ∙ sym (live-coalesced s.heap_start cs));
        complaints = ap (λ (x : UserHeap). x.warnings) only ∙ warn;
      })
      (ap (λ (x : UserHeap). x.bytes) only)

-- On a sound heap, free of the address of a region that is held returns, and the new heap is
-- sound, has complained no further and holds exactly the other regions with no byte changed.
pub free-TakesBack :
    (link : Link) (s : UserHeap) (xs : List Region) (addr n : ℕ) (ys : List Region) (w : ℕ)
    → Holds s (xs ++ (addr, n) ∷ ys) w
    → TakesBack s xs ys w (free link addr s)
free-TakesBack link s xs addr n ys w h =
    let d = locate s.heap_start h.cells xs addr n ys (sym h.regions) in
    let o : Sound s (d.before ++ d.block ∷ d.after) = rw (sym d.split) h.sound in
    let b = d.busy in
    let used : d.block.used ≢ 0 = ground arith in
    let c' = cell d.block.size 0 in
    let chain =
      Chain-drop s.blocks null s.heap_start d.before (d.block ∷ d.after) s.heap_end o.chain in
    let fits = chain.1 in
    let address = d.address in
    Freed-TakesBack s (d.before ++ c' ∷ d.after) xs ys w (free link addr s) h.complaints
      (ap (λ z. z ++ ys) d.left
        ∙ ap (λ z. live s.heap_start d.before ++ z) d.right
        ∙ sym (live_middle s.heap_start d.before c' d.after refl))
      (free-Freed link s addr d.before d.block d.after o used (omega arith) (omega arith))
