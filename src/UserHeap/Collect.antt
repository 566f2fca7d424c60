-- ===== src/UserHeap/Collect.antt =====
-- `garbage_collect` and `free` on a sound heap.
use yalnix_os_project.Base.{
  ℕ, zero, suc, ◌+◌, ◌*◌, ◌≤◌, ◌<◌, ◌≡◌, refl, sym, ap, ◌∙◌, Bool-cases, inl, inr, false, List, [],
  ◌∷◌, ◌&&◌, Option, some, ◌==◌, if◌then◌else◌, arith,
}
use yalnix_os_project.Machine.{null}
use yalnix_os_project.UserHeap.State.{Block, UserHeap}
use yalnix_os_project.UserHeap.Block.{merge_free_pair}
use yalnix_os_project.UserHeap.Alloc.{gc_loop, garbage_collect, fuel_of}
use yalnix_os_project.UserHeap.Chain.{Cell, Chain, header, end_of, next_of}
use yalnix_os_project.UserHeap.Sound.{Bounded}
use yalnix_os_project.UserHeap.Split.{Rewritten}
use yalnix_os_project.UserHeap.Merge.{
  is_free, joined, Merged, kept, merged, Bounded-only, merge_free_pair-Merged,
}

-- The blocks with every run of free neighbours as one.
unfoldable pub coalesce : Cell → List Cell → List Cell
coalesce c [] = c ∷ []
coalesce c (d ∷ ds) =
    let one = coalesce (joined c d) ds in
    let two = coalesce d ds in if is_free c && is_free d then one else c ∷ two

count : List Cell → ℕ
count [] = 0
count (c ∷ cs) = count cs + 1

-- The walk is at its end with these blocks.
pub data Collected (s : UserHeap) (prev a : ℕ) (cs : List Cell) : Option UserHeap → Type 0 where
  collected : (s' : UserHeap) → Rewritten s prev a cs s' → Collected s prev a cs (some s')

Rewritten-trans :
    (s s1 s' : UserHeap) (prev a : ℕ) (cs ds : List Cell)
    → Rewritten s prev a cs s1
    → Rewritten s1 prev a ds s'
    → Rewritten s prev a ds s'
Rewritten-trans s s1 s' prev a cs ds r q =
    let stop : s1.heap_end ≡ s.heap_end = ap (λ (x : UserHeap). x.heap_end) r.only in
    record {
      only = q.only ∙ ap (λ (x : UserHeap). record x { blocks = s'.blocks }) r.only;
      frame = λ i lt. q.frame i lt ∙ r.frame i lt;
      chain = rw (sym stop) q.chain;
    }

coalesce_next : (c : Cell) (cs : List Cell) (e : ℕ) → next_of (coalesce c cs) e ≡ e
unfolding coalesce
coalesce_next c [] e = refl
coalesce_next c (d ∷ ds) e =
    let one = coalesce_next (joined c d) ds e in
    elim (Bool-cases (is_free c && is_free d)) [ inl f ↦ rw f one | inr f ↦ rw f refl ]

-- The block in front of a rewritten part stays.
Rewritten-cons :
    (s s' : UserHeap) (prev a : ℕ) (c : Cell) (cs ds : List Cell)
    → next_of cs (end_of a c) ≡ next_of ds (end_of a c)
    → Chain s.blocks prev a (c ∷ cs) s.heap_end
    → Rewritten s a (end_of a c) ds s'
    → Rewritten s prev a (c ∷ ds) s'
Rewritten-cons s s' prev a c cs ds e h r = record {
  only = r.only;
  frame = λ i lt. r.frame i (omega arith);
  chain = (r.frame a (omega arith) ∙ h.0 ∙ ap (header c prev) e, h.1, r.chain);
}

-- The walk with this fuel ends in silence, with the free runs merged.
abbrev Collects : ℕ → Type 0
Collects fuel =
    (s : UserHeap) (prev a : ℕ) (c : Cell) (cs : List Cell)
    → Bounded s
    → s.heap_start ≤ a
    → count cs + 1 < fuel
    → Chain s.blocks prev a (c ∷ cs) s.heap_end
    → Collected s prev a (coalesce c cs) (gc_loop fuel a s)

Collected-next :
    (s s1 : UserHeap) (prev a : ℕ) (cs ds : List Cell) (r : Option UserHeap)
    → Rewritten s prev a cs s1
    → Collected s1 prev a ds r
    → Collected s prev a ds r
Collected-next s s1 prev a cs ds r q (collected s' t) =
    collected s' (Rewritten-trans s s1 s' prev a cs ds q t)

Collected-cons :
    (s : UserHeap) (prev a : ℕ) (c : Cell) (cs ds : List Cell) (r : Option UserHeap)
    → next_of cs (end_of a c) ≡ next_of ds (end_of a c)
    → Chain s.blocks prev a (c ∷ cs) s.heap_end
    → Collected s a (end_of a c) ds r
    → Collected s prev a (c ∷ ds) r
Collected-cons s prev a c cs ds r e h (collected s' t) =
    collected s' (Rewritten-cons s s' prev a c cs ds e h t)

gc_loop-step :
    (fuel : ℕ) (s : UserHeap) (prev a : ℕ) (c d : Cell) (ds : List Cell) (r : ℕ × UserHeap)
    → Collects fuel
    → Bounded s
    → s.heap_start ≤ a
    → count ds + 1 < fuel
    → Chain s.blocks prev a (c ∷ d ∷ ds) s.heap_end
    → Merged s prev a c d ds r
    → Collected s prev a (coalesce c (d ∷ ds)) (gc_loop fuel r.0 r.1)
unfolding coalesce
gc_loop-step fuel s prev a c d ds r later o low enough h (kept f) = rw f (
    Collected-cons s prev a c (d ∷ ds) (coalesce d ds) (gc_loop fuel (end_of a c) s)
      (sym (coalesce_next d ds (end_of a c))) h
      (later s a (end_of a c) d ds o (omega arith) enough h.2))
gc_loop-step fuel s prev a c d ds r later o low enough h (merged s1 f q) =
    let start : s1.heap_start ≡ s.heap_start = ap (λ (x : UserHeap). x.heap_start) q.only in
    let stop : s1.heap_end ≡ s.heap_end = ap (λ (x : UserHeap). x.heap_end) q.only in
    rw f (
      Collected-next s s1 prev a (joined c d ∷ ds) (coalesce (joined c d) ds) (gc_loop fuel a s1) q
        (later s1 prev a (joined c d) ds (Bounded-only s s1 q.only o) (omega arith) enough
          (rw stop q.chain)))

merge_last :
    (s : UserHeap) (prev a : ℕ) (c : Cell)
    → Bounded s
    → s.heap_start ≤ a
    → Chain s.blocks prev a (c ∷ []) s.heap_end
    → merge_free_pair a s ≡ (null, s)
unfolding merge_free_pair
merge_last s prev a c o low h =
    let start = o.start_pos in
    let here : (a == null) ≡ false = ground arith in
    let next : (s.blocks a).next ≡ null = ap (λ (x : Block). x.next) h.0 in rw (here, next) refl

gc_loop-Collects : (fuel : ℕ) → Collects fuel
unfolding gc_loop count coalesce
gc_loop-Collects zero s prev a c cs o low enough h = absurd (omega arith)
gc_loop-Collects (suc zero) s prev a c cs o low enough h = absurd (omega arith)
gc_loop-Collects (suc (suc fuel)) s prev a c [] o low enough h =
    let start = o.start_pos in
    let here : (a == null) ≡ false = ground arith in
    rw (here, merge_last s prev a c o low h)
      (collected s (record { only = refl; frame = λ i lt. refl; chain = h }))
gc_loop-Collects (suc (suc fuel)) s prev a c (d ∷ ds) o low enough h =
    let start = o.start_pos in
    let here : (a == null) ≡ false = ground arith in
    rw here (
      gc_loop-step (suc fuel) s prev a c d ds (merge_free_pair a s) (gc_loop-Collects (suc fuel)) o
        low (omega arith) h (merge_free_pair-Merged s prev a c d ds o low h))

count_bound :
    (b : ℕ → Block) (prev a : ℕ) (cs : List Cell) (stop : ℕ)
    → Chain b prev a cs stop
    → a + 24 * count cs ≤ stop
unfolding count
count_bound b prev a [] stop h = omega arith
count_bound b prev a (c ∷ cs) stop h =
    let rest = count_bound b a (end_of a c) cs stop h.2 in omega arith

-- On a sound heap garbage_collect returns, and the blocks are those from before with every run of
-- free neighbours merged into one.
pub garbage_collect-Collected :
    (s : UserHeap) (c : Cell) (cs : List Cell)
    → Bounded s
    → Chain s.blocks null s.heap_start (c ∷ cs) s.heap_end
    → Collected s null s.heap_start (coalesce c cs) (garbage_collect s)
unfolding garbage_collect
garbage_collect-Collected s c cs o h =
    let bound = count_bound s.blocks s.heap_start (end_of s.heap_start c) cs s.heap_end h.2 in
    gc_loop-Collects (fuel_of s) s null s.heap_start c cs o (omega arith) (omega arith) h
