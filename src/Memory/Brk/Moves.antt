-- ===== src/Memory/Brk/Moves.antt =====
-- The outcomes of moving the break, and what they do to the memory manager's invariant.
use yalnix_os_project.Base.{
  ℕ, ◌+◌, ◌-◌, ◌≤◌, ◌<◌, ◌≡◌, refl, ap, ◌∙◌, ◌≢◌, ◌⊎◌, inl, inr, true, false, dec_lt, lt→ltb,
  le→ltb, ltb, ◌∷◌, ◌==◌, arith,
}
use yalnix_os_project.Machine.{Status, success, error, null, tlb_flush, tlb_flush_0}
use yalnix_os_project.Memory.State.{Memory, Layout}
use yalnix_os_project.Memory.Frames.{kstack_first_page}
use yalnix_os_project.Memory.Frames.Count.{free_frames}
use yalnix_os_project.Memory.Paging.{empty_pte}
use yalnix_os_project.Memory.Brk.{read_write, and_then, grow, shrink, commit, move_brk}
use yalnix_os_project.Memory.Brk.Owned.{entry, Mapped, Owned}
use yalnix_os_project.Memory.Brk.Grow.{GrowsTo, reached, short, grow_loop-GrowsTo}
use yalnix_os_project.Memory.Brk.Shrink.{Shrunk, shrink_loop-Shrunk}

-- The memory manager after boot: the break lies between the original break and the kernel stack,
-- and every heap page is mapped.
pub record Running (l : Layout) (m : Memory) : Type 0 where
  pub on : m.vm_enabled ≡ true
  pub root : m.region0_page_table ≢ null
  pub low : l.orig_kernel_brk_page ≤ m.kernel_brk_page
  pub high : m.kernel_brk_page ≤ kstack_first_page
  pub heap : (v : ℕ) → l.orig_kernel_brk_page ≤ v → v < m.kernel_brk_page → Mapped m v
  pub owned : Owned m

-- What a successful move of the break to `page` means to the heap above it.
pub record Moved (m : Memory) (page : ℕ) (m' : Memory) : Type 0 where
  pub brk : m'.kernel_brk_page ≡ page
  pub requested : m'.requested_kernel_brk_page ≡ page
  pub flushed : m'.writes ≡ (tlb_flush, tlb_flush_0) ∷ m.writes
  pub root : m'.region0_page_table ≡ m.region0_page_table
  pub on : m'.vm_enabled ≡ m.vm_enabled
  pub others : (a : ℕ) → a ≢ m.region0_page_table → m'.tables a ≡ m.tables a
  pub below : (v : ℕ) → v < m.kernel_brk_page → v < page → entry m' v ≡ entry m v
  pub above : (v : ℕ) → m.kernel_brk_page ≤ v → page ≤ v → entry m' v ≡ entry m v
  pub grown :
      (v : ℕ)
      → m.kernel_brk_page ≤ v
      → v < page
      → ((entry m' v).valid ≡ 1) × ((entry m' v).prot ≡ read_write)
  pub unmapped : (v : ℕ) → page ≤ v → v < m.kernel_brk_page → entry m' v ≡ empty_pte
  pub frames : free_frames m'.frames + page ≡ free_frames m.frames + m.kernel_brk_page
  pub owned : Owned m'

-- What is left when the frames run out: the break stays, and no frame is free any more.
pub record Stuck (m : Memory) (page : ℕ) (m' : Memory) : Type 0 where
  pub rest : m' ≡ record m { frames = m'.frames; tables = m'.tables }
  pub wanted : free_frames m.frames + m.kernel_brk_page < page
  pub exhausted : free_frames m'.frames ≡ 0
  pub kept : (v : ℕ) → (v < m.kernel_brk_page) ⊎ (page ≤ v) → entry m' v ≡ entry m v
  pub others : (a : ℕ) → a ≢ m.region0_page_table → m'.tables a ≡ m.tables a
  pub owned : Owned m'

pub data MovesBrk (m : Memory) (page : ℕ) : Status × Memory → Type 0 where
  moved : {m' : Memory} → Moved m page m' → MovesBrk m page (success, m')
  stuck : {m' : Memory} → Stuck m page m' → MovesBrk m page (error, m')

commit-Owned : (page : ℕ) (m : Memory) → Owned m → Owned (commit page m)
commit-Owned page m o = record { bounded = o.bounded; in_use = o.in_use; distinct = o.distinct }

shrink_none : (page : ℕ) (m : Memory) → m.kernel_brk_page ≤ page → shrink page m ≡ m
unfolding shrink
shrink_none page m h = rw (le→ltb page m.kernel_brk_page h)

grow_none : (page : ℕ) (m : Memory) → page ≤ m.kernel_brk_page → grow page m ≡ (success, m)
unfolding grow
grow_none page m h = rw (le→ltb m.kernel_brk_page page h)

module _ {l : Layout} (m : Memory) (page : ℕ) (r : Running l m) (lo : l.orig_kernel_brk_page ≤ page)
    (hi : page < kstack_first_page) where
  grow_lem : m.kernel_brk_page < page → GrowsTo m m.kernel_brk_page page (grow page m)
  unfolding grow
  grow_lem up = rw (lt→ltb m.kernel_brk_page page up) (
      grow_loop-GrowsTo (page - m.kernel_brk_page) m.kernel_brk_page page m (omega arith)
        (omega arith) r.root r.owned)

  shrink_lem : page < m.kernel_brk_page → Shrunk m page m.kernel_brk_page (shrink page m)
  unfolding shrink
  shrink_lem down =
      let top = r.high in
      rw (lt→ltb page m.kernel_brk_page down) (
        shrink_loop-Shrunk (m.kernel_brk_page - page) page m.kernel_brk_page m (omega arith)
          (omega arith) (λ v a b. r.heap v (omega arith) b) r.owned)

  root_set : (m.region0_page_table == null) ≡ false
  root_set = let ne = r.root in ground arith

  grow-MovesBrk :
      (g : Status × Memory)
      → m.kernel_brk_page < page
      → GrowsTo m m.kernel_brk_page page g
      → MovesBrk m page (and_then g (λ m'. (success, commit page (shrink page m'))))
  unfolding shrink
  grow-MovesBrk g up (short {m'} s none_left few) = stuck (record {
    rest = s.rest;
    wanted = omega arith;
    exhausted = none_left;
    kept = s.kept;
    others = s.others;
    owned = s.owned;
  })
  grow-MovesBrk g up (reached {m'} s pages count) =
      let brk : m'.kernel_brk_page ≡ m.kernel_brk_page =
        ap (λ (t : Memory). t.kernel_brk_page) s.rest in
      let flat : ltb page m'.kernel_brk_page ≡ false = ground arith in
      rw flat (
        moved (record {
          brk = refl;
          requested = refl;
          flushed = ap (λ (t : Memory). (tlb_flush, tlb_flush_0) ∷ t.writes) s.rest;
          root = ap (λ (t : Memory). t.region0_page_table) s.rest;
          on = ap (λ (t : Memory). t.vm_enabled) s.rest;
          others = s.others;
          below = λ v a b. s.kept v (inl a);
          above = λ v a b. s.kept v (inr b);
          grown = pages;
          unmapped = λ v a b. absurd (omega arith);
          frames = omega arith;
          owned = commit-Owned page m' s.owned;
        }))

  shrink-MovesBrk :
      (m' : Memory)
      → page < m.kernel_brk_page
      → Shrunk m page m.kernel_brk_page m'
      → MovesBrk m page (success, commit page m')
  shrink-MovesBrk m' down s = moved (record {
    brk = refl;
    requested = refl;
    flushed = ap (λ (t : Memory). (tlb_flush, tlb_flush_0) ∷ t.writes) s.rest;
    root = ap (λ (t : Memory). t.region0_page_table) s.rest;
    on = ap (λ (t : Memory). t.vm_enabled) s.rest;
    others = s.others;
    below = λ v a b. s.kept v (inl b);
    above = λ v a b. s.kept v (inr a);
    grown = λ v a b. absurd (omega arith);
    unmapped = s.cleared;
    frames = omega (arith, s.count);
    owned = commit-Owned page m' s.owned;
  })

  stay-MovesBrk : page ≡ m.kernel_brk_page → MovesBrk m page (success, commit page m)
  stay-MovesBrk e = moved (record {
    brk = refl;
    requested = refl;
    flushed = refl;
    root = refl;
    on = refl;
    others = λ a ne. refl;
    below = λ v a b. refl;
    above = λ v a b. refl;
    grown = λ v a b. absurd (omega arith);
    unmapped = λ v a b. absurd (omega arith);
    frames = omega arith;
    owned = commit-Owned page m r.owned;
  })

  pub move_brk-MovesBrk : MovesBrk m page (move_brk page m)
  unfolding move_brk
  move_brk-MovesBrk = rw (root_set) (elim (dec_lt m.kernel_brk_page page) [
    | yes up ↦ grow-MovesBrk (grow page m) up (grow_lem up)
    | no stay ↦ rw (grow_none page m (omega arith)) (elim (dec_lt page m.kernel_brk_page) [
      | yes down ↦ shrink-MovesBrk (shrink page m) down (shrink_lem down)
      | no same ↦ rw (shrink_none page m (omega arith)) (stay-MovesBrk (omega arith))
    ])
  ])

  Moved-Running : (m' : Memory) → Moved m page m' → Running l m'
  Moved-Running m' d = record {
    on = ground (arith, d.on, r.on);
    root = rw d.root r.root;
    low = rw d.brk lo;
    high = let e = d.brk in omega arith;
    heap = λ v a b. ground (arith, d.brk, d.below v, d.grown v, r.heap v);
    owned = d.owned;
  }

  Stuck-Running : (m' : Memory) → Stuck m page m' → Running l m'
  Stuck-Running m' s =
      let brk : m'.kernel_brk_page ≡ m.kernel_brk_page =
        ap (λ (t : Memory). t.kernel_brk_page) s.rest in
      let a = r.low in
      let b = r.high in
      record {
        on = ap (λ (t : Memory). t.vm_enabled) s.rest ∙ r.on;
        root = rw (ap (λ (t : Memory). t.region0_page_table) s.rest) r.root;
        low = omega arith;
        high = omega arith;
        heap = λ v a b. ground (arith, brk, s.kept v, r.heap v);
        owned = s.owned;
      }

  pub MovesBrk-Running : (o : Status × Memory) → MovesBrk m page o → Running l o.1
  MovesBrk-Running o (moved d) = Moved-Running _ d
  MovesBrk-Running o (stuck s) = Stuck-Running _ s
