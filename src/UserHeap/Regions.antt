-- ===== src/UserHeap/Regions.antt =====
-- The abstract view of the heap: the regions that programs hold, without the free blocks.
use yalnix_os_project.Base.{
  ℕ, ◌+◌, ◌-◌, ◌≤◌, ◌<◌, ◌≡◌, ◌≢◌, ◌∙◌, sym, ap, refl, Bool-cases, inl, inr, false, true, List, [],
  ◌∷◌, ◌++◌, ltb, ◌==◌, if◌then◌else◌, arith,
}
use yalnix_os_project.UserHeap.State.{Block, header_size, min_block}
use yalnix_os_project.UserHeap.Chain.{Cell, Chain, end_of, addr_after}
use yalnix_os_project.UserHeap.Split.{cell, taken}
use yalnix_os_project.UserHeap.Merge.{is_free, joined}
use yalnix_os_project.UserHeap.Collect.{coalesce}
use yalnix_os_project.UserHeap.Release.{coalesced}

-- Address and length.
abbrev pub Region : Type 0
Region = ℕ × ℕ

-- The regions of the blocks in use from `a` on.
unfoldable pub live : ℕ → List Cell → List Region
live a [] = []
live a (c ∷ cs) =
    let rest = live (end_of a c) cs in
    if c.used == 0 then rest else (a + header_size, c.used) ∷ rest

pub live-append :
    (a : ℕ) (xs ys : List Cell) → live a (xs ++ ys) ≡ live a xs ++ live (addr_after a xs) ys
unfolding live
live-append a [] ys = refl
live-append a (c ∷ xs) ys =
    let rest = live-append (end_of a c) xs ys in
    elim (Bool-cases (c.used == 0)) [
      | inl f ↦ rw f rest
      | inr f ↦ rw f (ap (λ rs. (a + header_size, c.used) ∷ rs) rest)
    ]

pub live-free :
    (a : ℕ) (c : Cell) (cs : List Cell) → c.used ≡ 0 → live a (c ∷ cs) ≡ live (end_of a c) cs
unfolding live
live-free a c cs e = rw e refl

pub live-busy :
    (a : ℕ) (c : Cell) (cs : List Cell)
    → c.used ≢ 0
    → live a (c ∷ cs) ≡ (a + header_size, c.used) ∷ live (end_of a c) cs
unfolding live
live-busy a c cs n = let f : (c.used == 0) ≡ false = ground arith in rw f refl

pub live_skip :
    (a : ℕ) (c : Cell) (cs : List Cell) → is_free c ≡ true → live a (c ∷ cs) ≡ live (end_of a c) cs
unfolding live
live_skip a c cs f = rw f refl

pub live_keep :
    (a : ℕ) (c : Cell) (cs : List Cell)
    → is_free c ≡ false
    → live a (c ∷ cs) ≡ (a + header_size, c.used) ∷ live (end_of a c) cs
unfolding live
live_keep a c cs f = rw f refl

-- The block that is handed out is one more region.
pub live-taken :
    (a n : ℕ) (c : Cell) (cs : List Cell)
    → 0 < n
    → n ≤ c.size
    → live a (taken n c ++ cs) ≡ (a + header_size, n) ∷ live (end_of a c) cs
unfolding taken
live-taken a n c cs pos fits = elim (Bool-cases (ltb c.size (n + min_block))) [
  | inl small ↦ rw small (live-busy a (cell c.size n) cs (λ e. omega arith))
  | inr big ↦
      let rest = cell (c.size - n - header_size) 0 in
      let room : n + min_block ≤ c.size = ground arith in
      let end : end_of (end_of a (cell n n)) rest ≡ end_of a c = omega arith in
      rw big (
        live-busy a (cell n n) (rest ∷ cs) (λ e. omega arith)
        ∙ ap (λ rs. (a + header_size, n) ∷ rs)
            (live-free (end_of a (cell n n)) rest cs refl ∙ ap (λ x. live x cs) end))
]

-- Collecting free blocks does not show.
live-coalesce : (a : ℕ) (c : Cell) (cs : List Cell) → live a (coalesce c cs) ≡ live a (c ∷ cs)
unfolding coalesce
live-coalesce a c [] = refl
live-coalesce a c (d ∷ ds) =
    let one = live-coalesce a (joined c d) ds in
    let two = live-coalesce (end_of a c) d ds in
    elim (Bool-cases (is_free c)) [
      | inr f ↦ rw f (
          live_keep a c (coalesce d ds) f
          ∙ ap (λ rs. (a + header_size, c.used) ∷ rs) two
          ∙ sym (live_keep a c (d ∷ ds) f))
      | inl f ↦ elim (Bool-cases (is_free d)) [
        | inr g ↦ rw (f, g) (live_skip a c (coalesce d ds) f ∙ two ∙ sym (live_skip a c (d ∷ ds) f))
        | inl g ↦
            let end : end_of a (joined c d) ≡ end_of (end_of a c) d = omega arith in
            rw (f, g)
              (one
                ∙ live_skip a (joined c d) ds refl
                ∙ ap (λ x. live x ds) end
                ∙ sym (live_skip (end_of a c) d ds g)
                ∙ sym (live_skip a c (d ∷ ds) f))
      ]
    ]

pub live-coalesced : (a : ℕ) (cs : List Cell) → live a (coalesced cs) ≡ live a cs
unfolding coalesced
live-coalesced a [] = refl
live-coalesced a (c ∷ cs) = live-coalesce a c cs

-- The regions follow one another from `low` to `high`, so that no two overlap.
abbrev pub Apart : ℕ → List Region → ℕ → Type 0
Apart low [] high = low ≤ high
Apart low ((a, n) ∷ rs) high = (low ≤ a) × Apart (a + n) rs high

Apart-lower :
    (low low' : ℕ) (rs : List Region) (high : ℕ)
    → low' ≤ low
    → Apart low rs high
    → Apart low' rs high
Apart-lower low low' [] high le h = omega arith
Apart-lower low low' ((a, n) ∷ rs) high le h = (omega (arith, h.0), h.1)

pub Chain-Apart :
    (b : ℕ → Block) (prev a : ℕ) (cs : List Cell) (stop : ℕ)
    → Chain b prev a cs stop
    → Apart a (live a cs) stop
unfolding live
Chain-Apart b prev a [] stop h = omega arith
Chain-Apart b prev a (c ∷ cs) stop h =
    let rest = Chain-Apart b a (end_of a c) cs stop h.2 in
    elim (Bool-cases (c.used == 0)) [
      | inl f ↦ rw f (Apart-lower (end_of a c) a (live (end_of a c) cs) stop (omega arith) rest)
      | inr f ↦ rw f (
        omega arith,
        Apart-lower (end_of a c) (a + header_size + c.used) (live (end_of a c) cs) stop
            (omega (arith, h.1)) rest,
      )
    ]
