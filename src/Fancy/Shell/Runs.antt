-- ===== src/Fancy/Shell/Runs.antt =====
-- The shell runs the command of a line.
use yalnix_os_project.Base.{
  ℕ, zero, suc, ◌+◌, ◌≤◌, ◌<◌, ◌≡◌, ◌≢◌, ◌∙◌, ◌↔◌, ap, refl, Bool-cases, inl, inr, true, false,
  ◌==◌, leb, ◌||◌, update, update_same, some, List, [], ◌∷◌, length, arith,
}
use yalnix_os_project.Base.Int.{pos, negsuc, eqb_ℤ, eqb_ℤ-eq, eqb_ℤ→eq}
use yalnix_os_project.Bytes.{read_string}
use yalnix_os_project.Bytes.Strings.{span}
use yalnix_os_project.Fancy.Init.{Exec, replaces, fails}
use yalnix_os_project.Fancy.Shell.{
  Library, Answers, Round, prompts, waited, exits, runs, max_length, exit_word, store_args,
  exec_or_exit, run_command, run_tokens, run_line, round,
}

-- No token is empty.
abbrev pub AreFilled : List (List ℕ) → Type 0
AreFilled [] = Unit
AreFilled (s ∷ ss) = (0 < length s) × AreFilled ss

-- What the C library says of the functions: tokens are not empty and do not overlap, with a separator
-- between two.
pub record IsDocumented (lib : Library) : Type 0 where
  pub tokens_fit : (s : List ℕ) → span (lib.tokens s) ≤ length s + 1
  pub tokens_filled : (s : List ℕ) → AreFilled (lib.tokens s)
  pub same_iff : (s t : List ℕ) → (lib.same s t ≡ true) ↔ (s ≡ t)

-- What the shell owes the command of a line: the prompt for an empty one, its end for `exit`; for any
-- other the child runs just these words, or exits with -2, and the parent waits, if there is a child.
pub data Served (a : Answers) : List (List ℕ) → Round → Type 0 where
  empty : Served a [] prompts
  leaves : (args : List (List ℕ)) → Served a (exit_word ∷ args) (exits (pos 0))
  becomes :
      (name : List ℕ) (args : List (List ℕ))
      → name ≢ exit_word
      → a.fork ≡ pos 0
      → a.exec ≡ replaces
      → Served a (name ∷ args) (runs (name ∷ args))
  gives_up :
      (name : List ℕ) (args : List (List ℕ))
      → name ≢ exit_word
      → a.fork ≡ pos 0
      → a.exec ≡ fails
      → Served a (name ∷ args) (exits (negsuc 1))
  no_child :
      (name : List ℕ) (args : List (List ℕ))
      → name ≢ exit_word
      → a.fork ≡ negsuc 0
      → Served a (name ∷ args) prompts
  collects :
      (name : List ℕ) (args : List (List ℕ))
      → name ≢ exit_word
      → a.fork ≢ pos 0
      → a.fork ≢ negsuc 0
      → Served a (name ∷ args) (waited a.wait)

in_range : (n : ℕ) → 0 < n → n < max_length → ((n == 0) || leb max_length n) ≡ false
in_range n some_chars fits = ground arith

-- The string in a buffer that has a NUL.
read_some :
    (m fuel i : ℕ) (b : ℕ → ℕ)
    → m < fuel
    → b (i + m) ≡ 0
    → (s : List ℕ) × (read_string fuel i b ≡ some s) × (length s ≤ m)
unfolding read_string
read_some m zero i b lt nul = absurd (omega arith)
read_some zero (suc fuel) i b lt nul =
    let end : b i ≡ 0 = ap b (omega arith) ∙ nul in
    let here : (b i == 0) ≡ true = ground arith in ([], rw here refl, omega arith)
read_some (suc m) (suc fuel) i b lt nul =
    let (s, run, le) = read_some m fuel (i + 1) b (omega arith) (ap b (omega arith) ∙ nul) in
    elim (Bool-cases (b i == 0)) [
      | inl e ↦ ([], rw e refl, omega arith)
      | inr e ↦ (b i ∷ s, rw (e, run) refl, omega arith)
    ]

store_args_lem :
    (left : ℕ) (args : List (List ℕ)) → length args < left → store_args left args ≡ true
unfolding store_args
store_args_lem zero args lt = absurd (omega arith)
store_args_lem (suc left) [] lt = refl
store_args_lem (suc left) (arg ∷ args) lt = store_args_lem left args (omega arith)

length-le-span : (args : List (List ℕ)) → AreFilled args → length args + length args ≤ span args
unfolding span
length-le-span [] filled = omega arith
length-le-span (arg ∷ args) filled =
    let first = filled.0 in omega (arith, length-le-span args filled.1)

exec_or_exit-Served :
    (a : Answers) (exec : Exec) (name : List ℕ) (args : List (List ℕ))
    → name ≢ exit_word
    → a.fork ≡ pos 0
    → a.exec ≡ exec
    → Served a (name ∷ args) (exec_or_exit exec (name ∷ args))
unfolding exec_or_exit
exec_or_exit-Served a replaces name args other child e = becomes name args other child e
exec_or_exit-Served a fails name args other child e = gives_up name args other child e

run_command-Served :
    (a : Answers) (name : List ℕ) (args : List (List ℕ))
    → name ≢ exit_word
    → Served a (name ∷ args) (run_command a (name ∷ args))
unfolding run_command
run_command-Served a name args other = elim (Bool-cases (eqb_ℤ a.fork (pos 0))) [
  | inl e ↦ rw e (exec_or_exit-Served a a.exec name args other (eqb_ℤ→eq a.fork (pos 0) e) refl)
  | inr e ↦
      let no_zero : a.fork ≢ pos 0 = λ q. cc (eqb_ℤ-eq a.fork (pos 0) q) in
      elim (Bool-cases (eqb_ℤ a.fork (negsuc 0))) [
        | inl f ↦ rw (e, f) (no_child name args other (eqb_ℤ→eq a.fork (negsuc 0) f))
        | inr f ↦
            rw (e, f) (collects name args other no_zero (λ q. cc (eqb_ℤ-eq a.fork (negsuc 0) q)))
      ]
]

module _ (lib : Library) (doc : IsDocumented lib) (a : Answers) where
  run_tokens-Served :
      (args : List (List ℕ)) → length args < max_length → Served a args (run_tokens lib a args)
  unfolding run_tokens
  run_tokens-Served [] lt = empty
  run_tokens-Served (name ∷ args) lt = elim (Bool-cases (lib.same name exit_word)) [
    | inl e ↦ rw e (rw ((doc.same_iff name exit_word).0 e) (leaves args))
    | inr e ↦
        rw (e, store_args_lem max_length (name ∷ args) lt)
          (run_command-Served a name args (λ q. cc ((doc.same_iff name exit_word).1 q)))
  ]

  -- With strtok and strcmp as documented and a line of 1 to 1023 characters in the buffer, a round
  -- of the shell stays within buf and cmd_argv: it prompts again on a line without words, exits
  -- with 0 on exit, and for any other command the child runs exactly the words of the line or
  -- exits with -2 if Exec fails, and the parent prompts again if Fork fails and otherwise waits.
  pub round-Served :
      (n : ℕ) (buf : ℕ → ℕ)
      → 0 < n
      → n < max_length
      → (line : List ℕ) × (read_string max_length 0 (update buf n 0) ≡ some line)
        × Served a (lib.tokens line) (round lib a (pos n) buf)
  unfolding round run_line
  round-Served n buf some_chars fits =
      let b = update buf n 0 in
      let (line, read, le) =
        read_some n max_length 0 b fits (ap b (omega arith) ∙ update_same buf n 0) in
      let room = length-le-span (lib.tokens line) (doc.tokens_filled line) in
      let fit = doc.tokens_fit line in
      (
        line,
        read,
        rw (in_range n some_chars fits, read) (run_tokens-Served (lib.tokens line) (omega arith)),
      )
