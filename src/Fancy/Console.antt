-- ===== src/Fancy/Console.antt =====
-- fancy/console.c: the program on the console, which halts Yalnix on the line `halt`.
pub mod Words
mod Tests
use yalnix_os_project.Base.{
  ℕ, zero, suc, ◌+◌, ◌-◌, ◌==◌, leb, not, ◌&&◌, ◌||◌, if◌then◌else◌, update, Bool, Option, none,
  some, List, [], ◌∷◌,
}
use yalnix_os_project.Base.Int.{ℤ, pos, negsuc}
use yalnix_os_project.Bytes.{read_string}

abbrev pub max_line : ℕ
max_line = 1024

-- "halt"
abbrev pub halt_word : List ℕ
halt_word = 104 ∷ 97 ∷ 108 ∷ 116 ∷ []

-- `isspace`, whether `strcmp` finds two strings equal, and `atoi`.
pub record Library : Type 0 where
  pub isspace : ℕ → Bool
  pub same : List ℕ → List ℕ → Bool
  pub atoi : List ℕ → ℤ

-- What a round of `while (1)` comes to: the next prompt, with the word that it complains of before
-- that, if any; the end; or an access past an end of `buf`.
pub data Round : Type 0 where
  prompts : Round
  complains : List ℕ → Round
  halts : Round
  out_of_bounds : Round

-- `while (isspace(*word)) word++`, with what is left of `buf` from `i` on.
unfoldable pub skip_spaces : Library → ℕ → ℕ → (ℕ → ℕ) → Option ℕ
skip_spaces lib zero i buf = none
skip_spaces lib (suc left) i buf =
    let rest = skip_spaces lib left (i + 1) buf in if lib.isspace (buf i) then rest else some i

-- `while (*end_word && !isspace(*end_word)) end_word++`
unfoldable pub skip_word : Library → ℕ → ℕ → (ℕ → ℕ) → Option ℕ
skip_word lib zero i buf = none
skip_word lib (suc left) i buf =
    let rest = skip_word lib left (i + 1) buf in
    if not (buf i == 0) && not (lib.isspace (buf i)) then rest else some i

-- An access past the end of `buf`, or what follows.
abbrev pub within_buf : {A : Type 0} → Option A → (A → Round) → Round
within_buf none next = out_of_bounds
within_buf (some a) next = next a

-- What is done with the word.
unfoldable pub answer : Library → ℕ → (ℕ → ℕ) → List ℕ → Round
answer lib word buf s =
    if lib.same s halt_word then halts else if not (buf word == 0) then complains s else prompts

-- The word of a line, with a NUL set behind it.
unfoldable pub take_word : Library → ℕ → (ℕ → ℕ) → Round
unfolding skip_word answer
take_word lib word buf = within_buf (skip_word lib (max_line - word) word buf) (λ end_word.
    let buf' = update buf end_word 0 in
    within_buf (read_string (max_line - word) word buf') (answer lib word buf'))

-- A round, with what `TtyRead` returns and what it has put into `buf`.
unfoldable pub round : Library → ℤ → (ℕ → ℕ) → Round
unfolding take_word skip_spaces
round lib (negsuc n) buf = out_of_bounds
round lib (pos n) buf =
    if (n == 0) || leb max_line n
    then prompts
    else let buf' = update buf n 0 in
      within_buf (skip_spaces lib max_line 0 buf') (λ word. take_word lib word buf')

-- `main` in front of the loop: its exit, or the terminal that it serves.
pub data Entry : Type 0 where
  exits_at_once : ℤ → Entry
  serves : ℤ → Entry

unfoldable pub enter : Library → List (List ℕ) → Entry
enter lib [] = exits_at_once (negsuc 0)
enter lib (name ∷ []) = exits_at_once (negsuc 0)
enter lib (name ∷ term ∷ rest) = serves (lib.atoi term)
