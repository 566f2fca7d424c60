-- ===== src/Fancy/Shell.antt =====
-- fancy/shell.c: the program on the other terminals, which runs a command for each line.
pub mod Runs
mod Tests
use yalnix_os_project.Base.{
  ℕ, zero, suc, ◌+◌, ◌==◌, leb, ◌&&◌, ◌||◌, if◌then◌else◌, update, Bool, true, false, Option, none,
  some, List, [], ◌∷◌,
}
use yalnix_os_project.Base.Int.{ℤ, pos, negsuc, eqb_ℤ, ltb_ℤ}
use yalnix_os_project.Bytes.{read_string}
use yalnix_os_project.Fancy.Init.{Exec, replaces, fails}

abbrev pub max_length : ℕ
max_length = 1024

-- "exit"
abbrev pub exit_word : List ℕ
exit_word = 101 ∷ 120 ∷ 105 ∷ 116 ∷ []

-- The tokens that `strtok` gives for a line, one after the other, with space, tab and newline as
-- separators; whether `strcmp` finds two strings equal; `atoi`.
pub record Library : Type 0 where
  pub tokens : List ℕ → List (List ℕ)
  pub same : List ℕ → List ℕ → Bool
  pub atoi : List ℕ → ℤ

-- What a round of `while (1)` comes to, in this process: the next prompt; after a command that it
-- has waited for, with what `Wait` returned; `Exit`; in the child, another program with its
-- arguments; or an access past an end of `buf` or `cmd_argv`.
pub data Round : Type 0 where
  prompts : Round
  waited : ℤ → Round
  exits : ℤ → Round
  runs : List (List ℕ) → Round
  out_of_bounds : Round

-- How the system calls of a round answer.
pub record Answers : Type 0 where
  pub fork : ℤ
  pub wait : ℤ
  pub exec : Exec

-- `cmd_argv[j++] = strtok(...)` up to the NULL, with the entries that are left: whether all fit.
unfoldable pub store_args : ℕ → List (List ℕ) → Bool
store_args zero args = false
store_args (suc left) [] = true
store_args (suc left) (arg ∷ args) = store_args left args

exec_or_exit : Exec → List (List ℕ) → Round
exec_or_exit replaces args = runs args
exec_or_exit fails args = exits (negsuc 1)

-- `if (pid = Fork()) ... else ...`
unfoldable pub run_command : Answers → List (List ℕ) → Round
unfolding exec_or_exit
run_command a args =
    if eqb_ℤ a.fork (pos 0)
    then exec_or_exit a.exec args
    else if eqb_ℤ a.fork (negsuc 0)
    then prompts
    else waited a.wait

-- The tokens of the line.
unfoldable pub run_tokens : Library → Answers → List (List ℕ) → Round
unfolding store_args run_command
run_tokens lib a [] = prompts
run_tokens lib a (name ∷ args) =
    if lib.same name exit_word
    then exits (pos 0)
    else if store_args max_length (name ∷ args)
    then run_command a (name ∷ args)
    else out_of_bounds

unfoldable pub run_line : Library → Answers → Option (List ℕ) → Round
unfolding run_tokens
run_line lib a none = out_of_bounds
run_line lib a (some line) = run_tokens lib a (lib.tokens line)

-- A round, with what `TtyRead` returns and what it has put into `buf`.
unfoldable pub round : Library → Answers → ℤ → (ℕ → ℕ) → Round
unfolding run_line
round lib a (negsuc n) buf = out_of_bounds
round lib a (pos n) buf =
    if (n == 0) || leb max_length n
    then prompts
    else run_line lib a (read_string max_length 0 (update buf n 0))

-- `main` in front of the loop: its exit, or the terminal that it serves.
pub data Entry : Type 0 where
  exits_at_once : ℤ → Entry
  serves : ℤ → Entry

unfoldable pub enter : Library → List (List ℕ) → Entry
enter lib [] = exits_at_once (negsuc 1)
enter lib (name ∷ []) = exits_at_once (negsuc 1)
enter lib (name ∷ term ∷ rest) =
    let termno = lib.atoi term in
    if ltb_ℤ termno (pos 0) || ltb_ℤ (pos 3) termno then exits_at_once (negsuc 2) else serves termno
