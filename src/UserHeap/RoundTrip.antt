-- ===== src/UserHeap/RoundTrip.antt =====
-- `malloc` followed by `free` on a sound heap.
use yalnix_os_project.Base.{
  ℕ, ◌+◌, ◌-◌, ◌≤◌, ◌<◌, ◌^◌, ◌≡◌, refl, sym, ap, ◌∙◌, inl, inr, Bool-cases, false, true, List, [],
  ◌∷◌, ◌++◌, ◌&&◌, Option, ltb, arith,
}
use yalnix_os_project.UserHeap.State.{UserHeap, Link, header_size, min_block}
use yalnix_os_project.UserHeap.Alloc.{malloc, free, ◌>>=◌}
use yalnix_os_project.UserHeap.Chain.{Cell, addr_after}
use yalnix_os_project.UserHeap.Split.{cell}
use yalnix_os_project.UserHeap.Merge.{is_free, joined}
use yalnix_os_project.UserHeap.FirstFit.{Full}
use yalnix_os_project.UserHeap.Serve.{Sound, Served, needed, taken_first, taken_rest, taken-append}
use yalnix_os_project.UserHeap.Request.{Malloced, served, grew, malloc-Malloced}
use yalnix_os_project.UserHeap.Collect.{coalesce}
use yalnix_os_project.UserHeap.Release.{Freed, freed, coalesced, free-Freed}

joined_assoc : (p x y : Cell) → joined (joined p x) y ≡ joined p (joined x y)
joined_assoc p x y =
    let e : (joined (joined p x) y).size ≡ (joined p (joined x y)).size = omega arith in
    ap (λ n. cell n 0) e

-- Two free neighbours are merged anyway.
coalesce-joined :
    (p : Cell) (before : List Cell) (x y : Cell) (after : List Cell)
    → x.used ≡ 0
    → y.used ≡ 0
    → coalesce p (before ++ x ∷ y ∷ after) ≡ coalesce p (before ++ joined x y ∷ after)
unfolding coalesce
coalesce-joined p [] x y after fx fy =
    let gx : is_free x ≡ true = ground arith in
    let gy : is_free y ≡ true = ground arith in
    elim (Bool-cases (is_free p)) [
      | inl f ↦ rw (f, gx, gy) (ap (λ c. coalesce c after) (joined_assoc p x y))
      | inr f ↦ rw (f, gx, gy) refl
    ]
coalesce-joined p (c ∷ before) x y after fx fy =
    let one = coalesce-joined (joined p c) before x y after fx fy in
    let two = coalesce-joined c before x y after fx fy in
    elim (Bool-cases (is_free p && is_free c)) [
      | inl f ↦ rw f one
      | inr f ↦ rw f (ap (λ xs. p ∷ xs) two)
    ]

coalesced-joined :
    (before : List Cell) (x y : Cell) (after : List Cell)
    → x.used ≡ 0
    → y.used ≡ 0
    → coalesced (before ++ x ∷ y ∷ after) ≡ coalesced (before ++ joined x y ∷ after)
unfolding coalesced coalesce
coalesced-joined [] x y after fx fy =
    let gx : is_free x ≡ true = ground arith in
    let gy : is_free y ≡ true = ground arith in rw (gx, gy) refl
coalesced-joined (c ∷ before) x y after fx fy = coalesce-joined c before x y after fx fy

-- The pieces of a free block, all free again, are the block.
coalesced_pieces :
    (n : ℕ) (before : List Cell) (c : Cell) (after : List Cell)
    → c.used ≡ 0
    → n ≤ c.size
    → coalesced (before ++ cell (taken_first n c).size 0 ∷ (taken_rest n c ++ after))
      ≡ coalesced (before ++ c ∷ after)
unfolding taken_first taken_rest
coalesced_pieces n before c after free fits = elim (Bool-cases (ltb c.size (n + min_block))) [
  | inl small ↦ rw small (ap (λ k. coalesced (before ++ cell c.size k ∷ after)) (sym free))
  | inr big ↦
      let rest = cell (c.size - n - header_size) 0 in
      let size : (joined (cell n 0) rest).size ≡ c.size =
        let g : n + min_block ≤ c.size = ground arith in omega arith in
      rw big (
        coalesced-joined before (cell n 0) rest after refl refl
        ∙ ap (λ k. coalesced (before ++ cell k 0 ∷ after)) size
        ∙ ap (λ k. coalesced (before ++ cell c.size k ∷ after)) (sym free))
]

taken_first_used : (n : ℕ) (c : Cell) → (taken_first n c).used ≡ n
unfolding taken_first
taken_first_used n c = elim (Bool-cases (ltb c.size (n + min_block))) [
  | inl small ↦ rw small refl
  | inr big ↦ rw big refl
]

taken_first_size : (n : ℕ) (c : Cell) → n ≤ c.size → n ≤ (taken_first n c).size
unfolding taken_first
taken_first_size n c fits = elim (Bool-cases (ltb c.size (n + min_block))) [
  | inl small ↦ rw small fits
  | inr big ↦ rw big (omega arith)
]

Freed-from :
    (s s1 : UserHeap) (cs : List Cell) (r : Option UserHeap)
    → s1 ≡ record s { blocks = s1.blocks }
    → Freed s1 cs r
    → Freed s cs r
Freed-from s s1 cs r e (freed s' only o) =
    freed s' (only ∙ ap (λ (x : UserHeap). record x { blocks = s'.blocks }) e) o

module _ (link : Link) (s : UserHeap) (n : ℕ) (before : List Cell) (c : Cell) (after : List Cell)
    (pos : 0 < n) (free_block : c.used ≡ 0) (fits : n ≤ c.size) where
  free-Served :
      (r : ℕ × UserHeap)
      → Served s n before c after r
      → Freed s (coalesced (before ++ c ∷ after)) (free link r.0 r.1)
  free-Served r v =
      let first = taken_first n c in
      let rest = taken_rest n c ++ after in
      let start : (r.1).heap_start ≡ s.heap_start = ap (λ (x : UserHeap). x.heap_start) v.only in
      let at : addr_after (r.1).heap_start before + header_size ≡ r.0 =
        ap (λ x. addr_after x before + header_size) start ∙ sym v.address in
      let o : Sound r.1 (before ++ first ∷ rest) = rw (sym (taken-append n c after)) v.sound in
      let used = taken_first_used n c in
      let size = taken_first_size n c fits in
      let f =
        free-Freed link r.1 r.0 before first rest o (λ e. omega arith) (omega arith)
          (omega arith) in
      Freed-from s r.1 (coalesced (before ++ c ∷ after)) (free link r.0 r.1) v.only
        (rw (sym (coalesced_pieces n before c after free_block fits)) f)

round_trip :
    (link : Link) (s : UserHeap) (n : ℕ) (cs : List Cell) (r : Option (ℕ × UserHeap))
    → 0 < n
    → coalesced cs ≡ cs
    → (Full n cs → true ≡ false)
    → Malloced link s n cs r
    → Freed s cs (r >>= λ x. free link x.0 x.1)
round_trip link s n cs r pos whole room (served f x v) =
    let e : coalesced (f.before ++ f.block ∷ f.after) ≡ cs = ap coalesced (sym f.split) ∙ whole in
    let fits = f.room in
    rw (sym e) (free-Served link s n f.before f.block f.after pos (ground arith) (ground arith) x v)
round_trip link s n cs r pos whole room (grew before c x no_room e g) =
    let clash = room no_room in absurd (cc)

-- On a sound heap without free neighbours, with a block that has room and far enough below the
-- upper half of the address space, malloc and then free of what it gave both return, and the heap
-- is sound with the blocks that it had before.
pub malloc-free :
    (link : Link) (s : UserHeap) (len : ℕ) (cs : List Cell)
    → s.heap_end + needed len + 9000 < 2 ^ 31
    → Sound s cs
    → coalesced cs ≡ cs
    → (Full (needed len) cs → true ≡ false)
    → Freed s cs (malloc link len s >>= λ r. free link r.0 r.1)
malloc-free link s len cs low o whole room =
    round_trip link s (needed len) cs (malloc link len s) (omega arith) whole room
      (malloc-Malloced link s len cs low o)
