-- ===== src/Fancy/Shell/Tests.antt =====
-- The theorem on shell.c at a line of one word, with a C library that gives the line as one token.
use yalnix_os_project.Base.{ℕ, ◌+◌, ◌≤◌, ◌≡◌, some, List, [], ◌∷◌, length, update, arith}
use yalnix_os_project.Base.Int.{pos}
use yalnix_os_project.Bytes.{read_string}
use yalnix_os_project.Bytes.Strings.{span}
use yalnix_os_project.Fancy.Init.{replaces}
use yalnix_os_project.Bytes.Equal.{equal, equal_eq, equal_refl}
use yalnix_os_project.Fancy.Shell.{Library, Answers, round, max_length}
use yalnix_os_project.Fancy.Shell.Runs.{IsDocumented, AreFilled, Served, round-Served}

one_token : List ℕ → List (List ℕ)
one_token [] = []
one_token (c ∷ cs) = (c ∷ cs) ∷ []

abbrev simple : Library
simple = record { tokens = one_token; same = equal; atoi = λ s. pos 1 }

one_token_fit : (s : List ℕ) → span (one_token s) ≤ length s + 1
unfolding one_token span
one_token_fit [] = omega arith
one_token_fit (c ∷ cs) = omega arith

one_token-AreFilled : (s : List ℕ) → AreFilled (one_token s)
unfolding one_token
one_token-AreFilled [] = tt
one_token-AreFilled (c ∷ cs) = (omega arith, tt)

simple-IsDocumented : IsDocumented simple
simple-IsDocumented = record {
  tokens_fit = one_token_fit;
  tokens_filled = one_token-AreFilled;
  same_iff = λ s t. (equal_eq s t, λ e. rw e (equal_refl t));
}

abbrev answers : Answers
answers = record { fork = pos 7; wait = pos 7; exec = replaces }

round-Served_example :
    (line : List ℕ) × (read_string max_length 0 (update (λ i. 108) 2 0) ≡ some line)
    × Served answers (simple.tokens line) (round simple answers (pos 2) (λ i. 108))
round-Served_example =
    round-Served simple simple-IsDocumented answers 2 (λ i. 108) (omega arith) (omega arith)
