-- ===== src/Bytes.antt =====
-- Memory as bytes by address: what the C library and the machine do with words, blocks and strings
-- in it. A string is the list of its characters in front of the NUL.
pub mod Words
pub mod Strings
pub mod Equal
use yalnix_os_project.Base.{
  ℕ, zero, suc, ◌+◌, ◌-◌, ◌*◌, ◌/◌, ◌%◌, ◌==◌, ltb, within, if◌then◌else◌, update, Option, none,
  some, List, [], ◌∷◌, length,
}
use yalnix_os_project.Machine.{word}

-- `*(int *)a = v` on a little-endian machine.
unfoldable pub store_word : ℕ → ℕ → (ℕ → ℕ) → ℕ → ℕ
store_word a v mem =
    update
      (update (update (update mem a (v % 256)) (a + 1) (v / 256 % 256)) (a + 2) (v / 65536 % 256))
      (a + 3) (v / 16777216 % 256)

unfoldable pub load_word : ℕ → (ℕ → ℕ) → ℕ
load_word a mem = mem a + mem (a + 1) * 256 + mem (a + 2) * 65536 + mem (a + 3) * 16777216

-- `memset(a, c, n)`
unfoldable pub fill : ℕ → ℕ → ℕ → (ℕ → ℕ) → ℕ → ℕ
fill a c n mem i = if within a (a + n) i then c else mem i

-- The `n` bytes from `a` on are those of another source from `from` on.
unfoldable pub transfer : ℕ → ℕ → ℕ → (ℕ → ℕ) → (ℕ → ℕ) → ℕ → ℕ
transfer a n from source mem i = if within a (a + n) i then source (from + (i - a)) else mem i

-- The characters and the NUL.
unfoldable pub write_string : ℕ → List ℕ → (ℕ → ℕ) → ℕ → ℕ
write_string a [] mem = update mem a 0
write_string a (c ∷ cs) mem = write_string (a + 1) cs (update mem a c)

-- The string at `a`, if it is shorter than the fuel.
unfoldable pub read_string : ℕ → ℕ → (ℕ → ℕ) → Option (List ℕ)
read_string zero a mem = none
read_string (suc fuel) a mem =
    let rest = read_string fuel (a + 1) mem in
    if mem a == 0 then some [] else (elim rest [ none ↦ none | some cs ↦ some (mem a ∷ cs) ])
