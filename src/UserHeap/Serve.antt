-- ===== src/UserHeap/Serve.antt =====
-- `malloc` on a sound heap that has room.
use yalnix_os_project.Base.{
  ℕ, ◌+◌, ◌-◌, ◌*◌, ◌/◌, ◌≤◌, ◌<◌, ◌^◌, ◌≡◌, refl, sym, Bool, Bool-cases, inl, inr, false, true,
  not, List, [], ◌∷◌, ◌++◌, ltb, if◌then◌else◌, arith,
}
use yalnix_os_project.Machine.{null}
use yalnix_os_project.UserHeap.State.{Block, UserHeap, header_size, min_block, add32, word_round}
use yalnix_os_project.UserHeap.Alloc.{take_block}
use yalnix_os_project.UserHeap.Chain.{
  Cell, Chain, next_of, Chain-drop, Chain-replace, addr_after, prev_after, le-addr_after,
}
use yalnix_os_project.UserHeap.Sound.{Bounded}
use yalnix_os_project.UserHeap.Split.{cell, Rewritten, taken}
use yalnix_os_project.UserHeap.Take.{take_block-Rewritten}

-- A heap that is set up and consists of exactly these blocks.
pub record Sound (s : UserHeap) (cs : List Cell) : Type 0 where
  pub ready : s.not_initialized ≡ false
  pub bounds : Bounded s
  pub chain : Chain s.blocks null s.heap_start cs s.heap_end

-- The block size that a request of `len` bytes looks for.
abbrev pub needed : ℕ → ℕ
needed len = (len + 7) / 4 * 4

unfoldable pub taken_first : ℕ → Cell → Cell
taken_first n c = if ltb c.size (n + min_block) then cell c.size n else cell n n

unfoldable pub taken_rest : ℕ → Cell → List Cell
taken_rest n c = if ltb c.size (n + min_block) then [] else cell (c.size - n - header_size) 0 ∷ []

-- The block `c` behind `before` was handed out for `n` bytes.
pub record Served (s : UserHeap) (n : ℕ) (before : List Cell) (c : Cell) (after : List Cell)
    (r : ℕ × UserHeap) : Type 0 where
  pub address : r.0 ≡ addr_after s.heap_start before + header_size
  pub only : r.1 ≡ record s { blocks = (r.1).blocks }
  pub sound : Sound r.1 (before ++ (taken n c ++ after))

pub needed-word_round : (len : ℕ) → len < 2 ^ 31 → word_round (add32 len 4) ≡ needed len
unfolding word_round
needed-word_round len small = omega arith

pub needed_even : (len : ℕ) → len < 2 ^ 31 → word_round (needed len) ≡ needed len
unfolding word_round
needed_even len small = omega arith

pub Sound-same :
    (s s' : UserHeap) (cs cs' : List Cell)
    → s' ≡ record s { blocks = s'.blocks }
    → Sound s cs
    → Chain s'.blocks null s.heap_start cs' s.heap_end
    → Sound s' cs'
Sound-same s s' cs cs' only o h =
    let b = o.bounds in
    rw only (record {
      ready = o.ready;
      bounds = record {
        start_pos = b.start_pos;
        start_lt_end = b.start_lt_end;
        end_low = b.end_low;
      };
      chain = h;
    })

pub Rewritten-Sound :
    (s s' : UserHeap) (before : List Cell) (c d : Cell) (cs ds : List Cell)
    → Sound s (before ++ c ∷ cs)
    → Rewritten s (prev_after null s.heap_start before) (addr_after s.heap_start before) (d ∷ ds) s'
    → Sound s' (before ++ d ∷ ds)
Rewritten-Sound s s' before c d cs ds o r =
    Sound-same s s' (before ++ c ∷ cs) (before ++ d ∷ ds) r.only o (
      Chain-replace s.blocks s'.blocks null s.heap_start before c d cs ds s.heap_end s.heap_end
        r.frame o.chain r.chain)

pub taken-append :
    (len : ℕ) (c : Cell) (cs : List Cell)
    → taken len c ++ cs ≡ taken_first len c ∷ (taken_rest len c ++ cs)
unfolding taken taken_first taken_rest
taken-append len c cs = elim (Bool-cases (ltb c.size (len + min_block))) [
  | inl small ↦ rw small refl
  | inr big ↦ rw big refl
]

-- A free block with room is handed out, without a complaint.
pub take_block-Served :
    (s : UserHeap) (n : ℕ) (before : List Cell) (c : Cell) (after : List Cell)
    → word_round n ≡ n
    → c.used ≡ 0
    → n ≤ c.size
    → Sound s (before ++ c ∷ after)
    → Served s n before c after (take_block (addr_after s.heap_start before) n s)
take_block-Served s n before c after even free fits o =
    let a = addr_after s.heap_start before in
    let prev = prev_after null s.heap_start before in
    let h = Chain-drop s.blocks null s.heap_start before (c ∷ after) s.heap_end o.chain in
    let low = le-addr_after s.heap_start before in
    let t = take_block-Rewritten s prev a n c after o.bounds low free fits even h in
    let s' = (take_block a n s).1 in
    let e = taken-append n c after in
    record {
      address = t.0;
      only = (t.1).only;
      sound = rw e (
          Rewritten-Sound s s' before c (taken_first n c) after (taken_rest n c ++ after) o
            (rw (sym e) t.1));
    }

pub nonempty :
    (b : ℕ → Block) (prev a : ℕ) (cs : List Cell) (stop : ℕ)
    → a < stop
    → Chain b prev a cs stop
    → next_of cs a ≡ a
nonempty b prev a [] stop lt h = absurd (omega arith)
nonempty b prev a (c ∷ cs) stop lt h = refl

pub if_not : {A : Type 0} (b : Bool) (x y : A) → b ≡ false → (if not b then x else y) ≡ x
if_not true x y e = cc
if_not false x y e = refl
