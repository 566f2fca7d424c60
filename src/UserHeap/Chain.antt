-- ===== src/UserHeap/Chain.antt =====
-- The block list of a sound heap, and its view as a list of sizes.
use yalnix_os_project.Base.{
  ℕ, ◌+◌, ◌≤◌, ◌<◌, ◌≡◌, refl, ap, ◌∙◌, List, [], ◌∷◌, ◌++◌, update, update_same, update_other,
  arith,
}
use yalnix_os_project.Machine.{null}
use yalnix_os_project.UserHeap.State.{Block, magic, header_size}

-- A block as its owner sees it; `used` is 0 for a free block.
pub record Cell : Type 0 where
  pub size : ℕ
  pub used : ℕ

abbrev pub header : Cell → ℕ → ℕ → Block
header c prev next = record {
  magic1 = magic;
  size = c.size;
  size_used = c.used;
  next = next;
  previous = prev;
  magic2 = magic;
}

-- Where the next block starts.
abbrev pub end_of : ℕ → Cell → ℕ
end_of a c = a + header_size + c.size

-- The `next` pointer of a block that ends at `e`.
abbrev pub next_of : List Cell → ℕ → ℕ
next_of [] e = null
next_of (d ∷ ds) e = e

-- From `a` to `stop` the blocks follow one another without a gap, linked both ways.
abbrev pub Chain : (ℕ → Block) → ℕ → ℕ → List Cell → ℕ → Type 0
Chain b prev a [] stop = a ≡ stop
Chain b prev a (c ∷ cs) stop =
    (b a ≡ header c prev (next_of cs (end_of a c)))
    × (c.used ≤ c.size)
    × Chain b a (end_of a c) cs stop

pub Chain-le :
    (b : ℕ → Block) (prev a : ℕ) (cs : List Cell) (stop : ℕ) → Chain b prev a cs stop → a ≤ stop
Chain-le b prev a [] stop h = omega arith
Chain-le b prev a (c ∷ cs) stop h = omega (arith, Chain-le b a (end_of a c) cs stop h.2)

-- A chain survives any change that spares its own addresses.
pub Chain-frame :
    (b b' : ℕ → Block) (prev a : ℕ) (cs : List Cell) (stop : ℕ)
    → ((i : ℕ) → a ≤ i → i < stop → b' i ≡ b i)
    → Chain b prev a cs stop
    → Chain b' prev a cs stop
Chain-frame b b' prev a [] stop same h = h
Chain-frame b b' prev a (c ∷ cs) stop same h =
    let le = Chain-le b a (end_of a c) cs stop h.2 in
    (
      same a (omega arith) (omega arith) ∙ h.0,
      h.1,
      Chain-frame b b' a (end_of a c) cs stop (λ i lo hi. same i (omega arith) hi) h.2,
    )

-- Where the chain is after some blocks, and the address of the last of them.
abbrev pub addr_after : ℕ → List Cell → ℕ
addr_after a [] = a
addr_after a (c ∷ cs) = addr_after (end_of a c) cs

abbrev pub prev_after : ℕ → ℕ → List Cell → ℕ
prev_after prev a [] = prev
prev_after prev a (c ∷ cs) = prev_after a (end_of a c) cs

pub Chain-drop :
    (b : ℕ → Block) (prev a : ℕ) (before cs : List Cell) (stop : ℕ)
    → Chain b prev a (before ++ cs) stop
    → Chain b (prev_after prev a before) (addr_after a before) cs stop
Chain-drop b prev a [] cs stop h = h
Chain-drop b prev a (c ∷ before) cs stop h = Chain-drop b a (end_of a c) before cs stop h.2

pub le-addr_after : (a : ℕ) (cs : List Cell) → a ≤ addr_after a cs
le-addr_after a [] = omega arith
le-addr_after a (c ∷ cs) = omega (arith, le-addr_after (end_of a c) cs)

next_of-append :
    (before : List Cell) (c d : Cell) (cs ds : List Cell) (e : ℕ)
    → next_of (before ++ c ∷ cs) e ≡ next_of (before ++ d ∷ ds) e
next_of-append [] c d cs ds e = refl
next_of-append (x ∷ before) c d cs ds e = refl

-- The blocks behind `before` may be replaced by any others that are not none.
pub Chain-replace :
    (b b' : ℕ → Block) (prev a : ℕ) (before : List Cell) (c d : Cell) (cs ds : List Cell)
    (stop stop' : ℕ)
    → ((i : ℕ) → i < addr_after a before → b' i ≡ b i)
    → Chain b prev a (before ++ c ∷ cs) stop
    → Chain b' (prev_after prev a before) (addr_after a before) (d ∷ ds) stop'
    → Chain b' prev a (before ++ d ∷ ds) stop'
Chain-replace b b' prev a [] c d cs ds stop stop' same h new = new
Chain-replace b b' prev a (x ∷ before) c d cs ds stop stop' same h new =
    let le = le-addr_after (end_of a x) before in
    (
      same a (omega arith)
          ∙ h.0
          ∙ ap (header x prev) (next_of-append before c d cs ds (end_of a x)),
      h.1,
      Chain-replace b b' a (end_of a x) before c d cs ds stop stop' same h.2 new,
    )

-- The first block of a chain gets another predecessor.
pub Chain-previous :
    (b : ℕ → Block) (prev p a : ℕ) (d : Cell) (ds : List Cell) (stop : ℕ)
    → Chain b prev a (d ∷ ds) stop
    → Chain (update b a (record (b a) { previous = p })) p a (d ∷ ds) stop
Chain-previous b prev p a d ds stop h =
    let new : Block = record (b a) { previous = p } in
    (
      update_same b a new ∙ ap (λ (x : Block). record x { previous = p }) h.0,
      h.1,
      Chain-frame b (update b a new) a (end_of a d) ds stop
          (λ i lo hi. update_other b a i new (λ e. omega arith)) h.2,
    )
