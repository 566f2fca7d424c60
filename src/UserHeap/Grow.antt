-- ===== src/UserHeap/Grow.antt =====
-- The end of `malloc` when no block has room: the heap grows and the new block is handed out.
use yalnix_os_project.Base.{
  ℕ, ◌+◌, ◌≤◌, ◌≡◌, refl, sym, ap, ◌∙◌, false, true, not, List, [], ◌∷◌, ◌++◌, ◌||◌, ltb, ◌==◌,
  if◌then◌else◌, arith,
}
use yalnix_os_project.Machine.{null}
use yalnix_os_project.UserHeap.State.{UserHeap, Link, Block, header_size, word_round}
use yalnix_os_project.UserHeap.Alloc.{take_block}
use yalnix_os_project.UserHeap.Chain.{Cell, end_of, Chain-drop, addr_after, le-addr_after}
use yalnix_os_project.UserHeap.Split.{taken}
use yalnix_os_project.UserHeap.Merge.{is_free, joined}
use yalnix_os_project.UserHeap.Serve.{Sound, Served, take_block-Served}
use yalnix_os_project.UserHeap.Extend.{Refuses, grown_end, new_cell}

-- The heap after a growth.
pub record Extended (s : UserHeap) (n a : ℕ) (cs : List Cell) (r : ℕ × UserHeap) : Type 0 where
  pub address : r.0 ≡ a + header_size
  pub only :
      r.1
      ≡ record s { blocks = (r.1).blocks; heap_end = grown_end s n; current_break = grown_end s n }
  pub sound : Sound r.1 cs

-- What a request ends with that no block of `before ++ c ∷ []` had room for: the kernel refuses
-- and nothing changes, or the new block is handed out, merged with the last one if that was free.
pub data Grown (link : Link) (s : UserHeap) (n : ℕ) (before : List Cell) (c : Cell)
    : ℕ × UserHeap → Type 0 where
  refused : Refuses link s n → Grown link s n before c (null, s)
  appended :
      (r : ℕ × UserHeap)
      → is_free c ≡ false
      → Extended s n s.heap_end (before ++ c ∷ taken n (new_cell s n)) r
      → Grown link s n before c r
  widened :
      (r : ℕ × UserHeap)
      → is_free c ≡ true
      → Extended s n
          (addr_after s.heap_start before)
          (before ++ taken n (joined c (new_cell s n)))
          r
      → Grown link s n before c r

pub snoc_append : (xs : List Cell) (c : Cell) (ys : List Cell) → (xs ++ c ∷ []) ++ ys ≡ xs ++ c ∷ ys
snoc_append [] c ys = refl
snoc_append (x ∷ xs) c ys = ap (λ zs. x ∷ zs) (snoc_append xs c ys)

pub append_nil : (xs : List Cell) → xs ++ [] ≡ xs
append_nil [] = refl
append_nil (x ∷ xs) = ap (λ zs. x ∷ zs) (append_nil xs)

pub addr_after_snoc :
    (a : ℕ) (xs : List Cell) (c : Cell) → addr_after a (xs ++ c ∷ []) ≡ end_of (addr_after a xs) c
addr_after_snoc a [] c = refl
addr_after_snoc a (x ∷ xs) c = addr_after_snoc (end_of a x) xs c

-- The end of `use_grown`, with what `merge_free_pair` gave.
abbrev pub hand_out : ℕ → ℕ × UserHeap → ℕ × UserHeap
hand_out n r =
    if (r.0 == null) || not (((r.1).blocks r.0).size_used == 0) || ltb ((r.1).blocks r.0).size n
    then (null, r.1)
    else take_block r.0 n r.1

hand_out_block :
    (s : UserHeap) (n : ℕ) (before : List Cell) (d : Cell)
    → d.used ≡ 0
    → n ≤ d.size
    → Sound s (before ++ d ∷ [])
    → hand_out n (addr_after s.heap_start before, s)
      ≡ take_block (addr_after s.heap_start before) n s
hand_out_block s n before d free fits o =
    let a = addr_after s.heap_start before in
    let b = o.bounds in
    let start = b.start_pos in
    let le = le-addr_after s.heap_start before in
    let h = Chain-drop s.blocks null s.heap_start before (d ∷ []) s.heap_end o.chain in
    let used : (s.blocks a).size_used ≡ d.used = ap (λ (x : Block). x.size_used) h.0 in
    let size : (s.blocks a).size ≡ d.size = ap (λ (x : Block). x.size) h.0 in
    let here : (a == null) ≡ false = ground arith in
    let room : ltb d.size n ≡ false = ground arith in rw (here, used, size, free, room) refl

Served-Extended :
    (s t : UserHeap) (n : ℕ) (before : List Cell) (d : Cell) (a : ℕ) (r : ℕ × UserHeap)
    → t ≡ record s { blocks = t.blocks; heap_end = grown_end s n; current_break = grown_end s n }
    → addr_after s.heap_start before ≡ a
    → Served t n before d [] r
    → Extended s n a (before ++ taken n d) r
Served-Extended s t n before d a r e at v =
    let start : t.heap_start ≡ s.heap_start = ap (λ (x : UserHeap). x.heap_start) e in
    record {
      address =
          v.address
          ∙ ap (λ x. addr_after x before + header_size) start
          ∙ ap (λ x. x + header_size) at;
      only = v.only ∙ ap (λ (x : UserHeap). record x { blocks = (r.1).blocks }) e;
      sound = rw (sym (append_nil (taken n d))) v.sound;
    }

pub hand_out-Extended :
    (s t : UserHeap) (n : ℕ) (before : List Cell) (d : Cell) (a : ℕ)
    → t ≡ record s { blocks = t.blocks; heap_end = grown_end s n; current_break = grown_end s n }
    → addr_after s.heap_start before ≡ a
    → word_round n ≡ n
    → d.used ≡ 0
    → n ≤ d.size
    → Sound t (before ++ d ∷ [])
    → Extended s n a (before ++ taken n d) (hand_out n (a, t))
hand_out-Extended s t n before d a e at even free fits o =
    let start : t.heap_start ≡ s.heap_start = ap (λ (x : UserHeap). x.heap_start) e in
    let here : addr_after t.heap_start before ≡ a = ap (λ x. addr_after x before) start ∙ at in
    rw (sym here, hand_out_block t n before d free fits o)
      (Served-Extended s t n before d (addr_after t.heap_start before)
        (take_block (addr_after t.heap_start before) n t) e (at ∙ sym here)
        (take_block-Served t n before d [] even free fits o))
