-- ===== src/Bytes/Words.antt =====
-- Words and blocks in a byte memory.
use yalnix_os_project.Base.{ℕ, ◌+◌, ◌-◌, ◌≤◌, ◌<◌, ◌≡◌, ◌⊎◌, refl, arith}
use yalnix_os_project.Machine.{word}
use yalnix_os_project.Bytes.{store_word, load_word, fill, transfer}

-- An address is outside of a block.
abbrev pub Outside : ℕ → ℕ → ℕ → Type 0
Outside low high i = (i < low) ⊎ (high ≤ i)

pub load_word-store_word : (a v : ℕ) (mem : ℕ → ℕ) → v < word → load_word a (store_word a v mem) ≡ v
unfolding load_word store_word
load_word-store_word a v mem small = ground arith

pub store_word_other :
    (a v i : ℕ) (mem : ℕ → ℕ) → Outside a (a + 4) i → store_word a v mem i ≡ mem i
unfolding store_word
store_word_other a v i mem out = ground (arith, out)

-- A word is read from its own four bytes.
pub load_word_same :
    (a : ℕ) (mem mem' : ℕ → ℕ)
    → ((i : ℕ) → a ≤ i → i < a + 4 → mem' i ≡ mem i)
    → load_word a mem' ≡ load_word a mem
unfolding load_word
load_word_same a mem mem' same =
    rw
      (
        same a (omega arith) (omega arith),
        same (a + 1) (omega arith) (omega arith),
        same (a + 2) (omega arith) (omega arith),
        same (a + 3) (omega arith) (omega arith),
      )
      refl

pub fill_inside : (a c n i : ℕ) (mem : ℕ → ℕ) → a ≤ i → i < a + n → fill a c n mem i ≡ c
unfolding fill
fill_inside a c n i mem lo hi = ground arith

pub fill_beyond : (a c n i : ℕ) (mem : ℕ → ℕ) → Outside a (a + n) i → fill a c n mem i ≡ mem i
unfolding fill
fill_beyond a c n i mem out = ground (arith, out)

pub transfer_inside :
    (a n from i : ℕ) (source mem : ℕ → ℕ)
    → a ≤ i
    → i < a + n
    → transfer a n from source mem i ≡ source (from + (i - a))
unfolding transfer
transfer_inside a n from i source mem lo hi = ground arith

pub transfer_beyond :
    (a n from i : ℕ) (source mem : ℕ → ℕ)
    → Outside a (a + n) i
    → transfer a n from source mem i ≡ mem i
unfolding transfer
transfer_beyond a n from i source mem out = ground (arith, out)
