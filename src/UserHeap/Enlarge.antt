-- ===== src/UserHeap/Enlarge.antt =====
-- The growth of a sound heap inside `malloc`, up to the block that is handed out.
use yalnix_os_project.Base.{
  ℕ, ◌+◌, ◌≤◌, ◌<◌, ◌^◌, ◌≡◌, refl, sym, ◌∙◌, inl, inr, false, true, List, [], ◌∷◌, ◌++◌, ◌==◌,
  arith,
}
use yalnix_os_project.Machine.{null}
use yalnix_os_project.UserHeap.State.{UserHeap, Link, word_round}
use yalnix_os_project.UserHeap.Brk.{grow_heap}
use yalnix_os_project.UserHeap.Block.{merge_free_pair}
use yalnix_os_project.UserHeap.Alloc.{use_grown}
use yalnix_os_project.UserHeap.Chain.{Cell, end_of, Chain-drop, le-addr_after}
use yalnix_os_project.UserHeap.Split.{Rewritten, taken}
use yalnix_os_project.UserHeap.Merge.{is_free, joined, Merged, kept, merged, merge_free_pair-Merged}
use yalnix_os_project.UserHeap.Serve.{Sound, Rewritten-Sound}
use yalnix_os_project.UserHeap.Extend.{grown_end, new_cell, grown, grow_heap_cases}
use yalnix_os_project.UserHeap.Join.{last, before_last, linked, linked-Sound}
use yalnix_os_project.UserHeap.Grow.{
  Extended, Grown, refused, appended, widened, snoc_append, addr_after_snoc, hand_out,
  hand_out-Extended,
}

module _ (link : Link) (s : UserHeap) (n : ℕ) (before : List Cell) (c : Cell)
    (even : word_round n ≡ n) (o : Sound s (before ++ c ∷ []))
    (low : s.heap_end + n + 9000 < 2 ^ 31) where
  new_fits : n ≤ (new_cell s n).size
  new_fits = omega arith

  last_end : end_of (last s n before c) c ≡ s.heap_end
  last_end = (Chain-drop s.blocks null s.heap_start before (c ∷ []) s.heap_end o.chain).2

  kept_lem :
      Extended s n s.heap_end
        (before ++ c ∷ taken n (new_cell s n))
        (hand_out n (s.heap_end, linked s n before c))
  kept_lem =
      let t = linked s n before c in
      let d = new_cell s n in
      let o' : Sound t ((before ++ c ∷ []) ++ d ∷ []) =
        rw (snoc_append before c (d ∷ [])) (linked-Sound s n before c o low) in
      let x =
        hand_out-Extended s t n (before ++ c ∷ []) d s.heap_end refl
          (addr_after_snoc s.heap_start before c ∙ last_end) even refl new_fits o' in
      rw (sym (snoc_append before c (taken n d))) x

  appended_lem :
      is_free c ≡ false → Grown link s n before c (hand_out n (s.heap_end, linked s n before c))
  appended_lem busy = appended (hand_out n (s.heap_end, linked s n before c)) busy kept_lem

  widened_lem :
      (t : UserHeap)
      → is_free c ≡ true
      → Rewritten
          (linked s n before c)
          (before_last s n before c)
          (last s n before c)
          (joined c (new_cell s n) ∷ [])
          t
      → Grown link s n before c (hand_out n (last s n before c, t))
  widened_lem t free q =
      let d = new_cell s n in
      let o' =
        Rewritten-Sound (linked s n before c) t before c (joined c d) (d ∷ []) []
          (linked-Sound s n before c o low) q in
      widened (hand_out n (last s n before c, t)) free (
        hand_out-Extended s t n before (joined c d) (last s n before c) q.only refl even refl
          (let f = new_fits in omega arith) o')

  Merged-Grown :
      (r : ℕ × UserHeap)
      → Merged
          (linked s n before c)
          (before_last s n before c)
          (last s n before c)
          c
          (new_cell s n)
          []
          r
      → Grown link s n before c (hand_out n r)
  Merged-Grown r (kept f) = rw last_end (appended_lem (ground arith))
  Merged-Grown r (merged t f q) = widened_lem t (ground arith) q

  Merged-Extended :
      is_free c ≡ false
      → (r : ℕ × UserHeap)
      → Merged
          (linked s n before c)
          (before_last s n before c)
          (last s n before c)
          c
          (new_cell s n)
          []
          r
      → Extended s n s.heap_end (before ++ c ∷ taken n (new_cell s n)) (hand_out n r)
  Merged-Extended busy r (kept f) = rw last_end kept_lem
  Merged-Extended busy r (merged t f q) = absurd (ground arith)

  merge_last :
      Merged
        (linked s n before c)
        (before_last s n before c)
        (last s n before c)
        c
        (new_cell s n)
        []
        (merge_free_pair (last s n before c) (linked s n before c))
  merge_last =
      let l = linked-Sound s n before c o low in
      let h =
        Chain-drop (linked s n before c).blocks null s.heap_start before (c ∷ new_cell s n ∷ [])
          (grown_end s n) l.chain in
      merge_free_pair-Merged (linked s n before c) (before_last s n before c) (last s n before c) c
        (new_cell s n) [] l.bounds (le-addr_after s.heap_start before) h

  some_end : (s.heap_end == null) ≡ false
  some_end = let b = o.bounds in let lt = b.start_lt_end in ground arith

  use_grown-Grown :
      Grown link s n before c (use_grown n (last s n before c) (s.heap_end, grown s n))
  unfolding use_grown
  use_grown-Grown =
      rw some_end
        (Merged-Grown (merge_free_pair (last s n before c) (linked s n before c)) merge_last)

  -- Behind a block in use the new block is the one that is handed out.
  pub use_grown-Extended :
      is_free c ≡ false
      → Extended s n s.heap_end
          (before ++ c ∷ taken n (new_cell s n))
          (use_grown n (last s n before c) (s.heap_end, grown s n))
  unfolding use_grown
  use_grown-Extended busy =
      rw some_end (
        Merged-Extended busy (merge_free_pair (last s n before c) (linked s n before c)) merge_last)

  pub grow-Grown : Grown link s n before c (use_grown n (last s n before c) (grow_heap link n s))
  unfolding use_grown
  grow-Grown =
      let b = o.bounds in
      elim (grow_heap_cases link n s b.start_pos low) [
        | inl (e, no_grant) ↦ rw e (refused no_grant)
        | inr e ↦ rw e use_grown-Grown
      ]
