-- ===== src/UserHeap/Merge.antt =====
-- `merge_free_pair` on a sound heap.
use yalnix_os_project.Base.{
  ℕ, ◌+◌, ◌≤◌, ◌≡◌, refl, ap, ◌∙◌, Bool, Bool-cases, inl, inr, false, true, List, [], ◌∷◌, ◌&&◌,
  ◌==◌, update, update_same, update_other, arith,
}
use yalnix_os_project.Machine.{null}
use yalnix_os_project.UserHeap.State.{Block, UserHeap, header_size, add32}
use yalnix_os_project.UserHeap.Block.{absorb, merge_free_pair}
use yalnix_os_project.UserHeap.Chain.{
  Cell, Chain, header, end_of, next_of, Chain-le, Chain-frame, Chain-previous,
}
use yalnix_os_project.UserHeap.Sound.{Bounded, sanity_check-Inside, Chain-Inside}
use yalnix_os_project.UserHeap.Split.{cell, Rewritten}

-- Two free neighbours as one.
abbrev pub joined : Cell → Cell → Cell
joined c d = cell (c.size + header_size + d.size) 0

pub Bounded-only : (s s' : UserHeap) → s' ≡ record s { blocks = s'.blocks } → Bounded s → Bounded s'
Bounded-only s s' e o =
    rw e (record { start_pos = o.start_pos; start_lt_end = o.start_lt_end; end_low = o.end_low })

module _ (s : UserHeap) (prev a : ℕ) (c d : Cell) (o : Bounded s) (low : s.heap_start ≤ a) where
  joined_end : end_of a (joined c d) ≡ end_of (end_of a c) d
  joined_end = omega arith

  -- The first write.
  joined_block : ℕ → Block
  joined_block next = header (joined c d) prev next

  size_eq :
      end_of (end_of a c) d ≤ s.heap_end
      → add32 (add32 c.size d.size) header_size ≡ (joined c d).size
  size_eq top = let e = o.end_low in omega arith

  joined-Chain :
      (b : ℕ → Block) (ds : List Cell)
      → b a ≡ joined_block (next_of ds (end_of (end_of a c) d))
      → Chain b a (end_of (end_of a c) d) ds s.heap_end
      → Chain b prev a (joined c d ∷ ds) s.heap_end
  unfolding joined_block
  joined-Chain b ds e h = rw joined_end (e, omega arith, h)

  tail-Chain :
      (b : ℕ → Block) (p : ℕ) (ds : List Cell) (new : Block)
      → Chain b p (end_of (end_of a c) d) ds s.heap_end
      → Chain (update b a new) p (end_of (end_of a c) d) ds s.heap_end
  tail-Chain b p ds new h =
      Chain-frame b (update b a new) p (end_of (end_of a c) d) ds s.heap_end
        (λ i lo hi. update_other b a i new (λ e. omega arith)) h

  pub absorb-Rewritten :
      (ds : List Cell)
      → c.used ≡ 0
      → Chain s.blocks prev a (c ∷ d ∷ ds) s.heap_end
      → ((absorb a (end_of a c) s).0 ≡ a)
        × Rewritten s prev a (joined c d ∷ ds) (absorb a (end_of a c) s).1
  unfolding absorb joined_block
  absorb-Rewritten [] free h =
      let top = Chain-le s.blocks (end_of a c) (end_of (end_of a c) d) [] s.heap_end ((h.2).2) in
      rw (h.0, (h.2).0, size_eq top, free)
        (
          refl,
          record {
            only = refl;
            frame = λ i lt. update_other s.blocks a i (joined_block null) (λ q. omega arith);
            chain =
                joined-Chain (update s.blocks a (joined_block null)) []
                  (update_same s.blocks a (joined_block null)) ((h.2).2);
          },
        )
  absorb-Rewritten (e ∷ es) free h =
      let second = end_of a c in
      let third = end_of second d in
      let rest = (h.2).2 in
      let top = Chain-le s.blocks second third (e ∷ es) s.heap_end rest in
      let b = update s.blocks a (joined_block third) in
      let s1 : UserHeap = record s { blocks = b } in
      let tail = tail-Chain s.blocks second (e ∷ es) (joined_block third) rest in
      let quiet =
        sanity_check-Inside s1 second third (next_of es (end_of third e)) e
          (Bounded-only s s1 refl o) (Chain-Inside s1 second third e es (omega arith) tail) in
      let some_next : (third == null) ≡ false = ground arith in
      let new : Block = record (b third) { previous = a } in
      rw (h.0, (h.2).0, size_eq top, free, some_next, quiet)
        (
          refl,
          record {
            only = refl;
            frame = λ i lt.
                update_other b third i new (λ q. omega arith)
                ∙ update_other s.blocks a i (joined_block third) (λ q. omega arith);
            chain =
                joined-Chain (update b third new) (e ∷ es)
                  (update_other b third a new (λ q. omega arith)
                    ∙ update_same s.blocks a (joined_block third))
                  (Chain-previous b second a third e es s.heap_end tail);
          },
        )

abbrev pub is_free : Cell → Bool
is_free c = c.used == 0

-- The two blocks of a pair are merged if both are free; otherwise the second is next.
pub data Merged (s : UserHeap) (prev a : ℕ) (c d : Cell) (ds : List Cell)
    : ℕ × UserHeap → Type 0 where
  kept : (is_free c && is_free d) ≡ false → Merged s prev a c d ds (end_of a c, s)
  merged :
      (s' : UserHeap)
      → (is_free c && is_free d) ≡ true
      → Rewritten s prev a (joined c d ∷ ds) s'
      → Merged s prev a c d ds (a, s')

module _ (s : UserHeap) (prev a : ℕ) (c d : Cell) (ds : List Cell) (o : Bounded s)
    (low : s.heap_start ≤ a) (h : Chain s.blocks prev a (c ∷ d ∷ ds) s.heap_end) where
  Merged-pair :
      c.used ≡ 0
      → (is_free c && is_free d) ≡ true
      → Merged s prev a c d ds (absorb a (end_of a c) s)
  Merged-pair free both =
      let r = absorb-Rewritten s prev a c d o low ds free h in
      rw (r.0) (merged (absorb a (end_of a c) s).1 both r.1)

  -- On a sound heap merge_free_pair makes one block of a block and the next if both are free, and
  -- otherwise changes nothing and answers with the next.
  pub merge_free_pair-Merged : Merged s prev a c d ds (merge_free_pair a s)
  unfolding merge_free_pair
  merge_free_pair-Merged =
      let start = o.start_pos in
      let second = end_of a c in
      let quiet =
        sanity_check-Inside s prev a second c o (Chain-Inside s prev a c (d ∷ ds) low h) in
      let quiet_next =
        sanity_check-Inside s a second (next_of ds (end_of second d)) d o
          (Chain-Inside s a second d ds (omega arith) h.2) in
      let next : (s.blocks a).next ≡ second = ap (λ (x : Block). x.next) h.0 in
      let used : (s.blocks a).size_used ≡ c.used = ap (λ (x : Block). x.size_used) h.0 in
      let used_next : (s.blocks second).size_used ≡ d.used =
        ap (λ (x : Block). x.size_used) (h.2).0 in
      let here : (a == null) ≡ false = ground arith in
      let there : (second == null) ≡ false = ground arith in
      rw (here, next, there, quiet, quiet_next, used, used_next)
        (elim (Bool-cases (is_free c)) [
          | inr f ↦ rw f (kept (rw f refl))
          | inl f ↦ elim (Bool-cases (is_free d)) [
            | inr g ↦ rw (f, g) (kept (rw (f, g) refl))
            | inl g ↦ rw (f, g) (Merged-pair (ground arith) (rw (f, g) refl))
          ]
        ])
