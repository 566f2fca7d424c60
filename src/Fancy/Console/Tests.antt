-- ===== src/Fancy/Console/Tests.antt =====
-- The theorems on console.c at the line ` halt`.
use yalnix_os_project.Base.{ℕ, ◌≡◌, refl, ◌==◌, ◌||◌, if◌then◌else◌, arith}
use yalnix_os_project.Base.Int.{pos}
use yalnix_os_project.Bytes.Equal.{equal, equal_eq, equal_refl}
use yalnix_os_project.Fancy.Console.{Library, halts, round}
use yalnix_os_project.Fancy.Console.Words.{
  IsDocumented, chars, without_spaces, word_of, verdict, round-word_of,
}

abbrev ascii : Library
ascii = record { isspace = λ c. (c == 32) || (c == 10); same = equal; atoi = λ s. pos 0 }

ascii-IsDocumented : IsDocumented ascii
ascii-IsDocumented = record {
  nul_no_space = refl;
  same_iff = λ s t. (equal_eq s t, λ e. rw e (equal_refl t));
}

-- ` halt` and a newline.
abbrev halt_line : ℕ → ℕ
halt_line i =
    if i == 0
    then 32
    else if i == 1
    then 104
    else if i == 2
    then 97
    else if i == 3
    then 108
    else if i == 4
    then 116
    else 10

round-word_of_example :
    round ascii (pos 6) halt_line
    ≡ verdict ascii (word_of ascii (without_spaces ascii (chars 6 0 halt_line)))
round-word_of_example =
    round-word_of ascii ascii-IsDocumented 6 halt_line (omega arith) (omega arith)

the_line_halts : verdict ascii (word_of ascii (without_spaces ascii (chars 6 0 halt_line))) ≡ halts
unfolding verdict word_of without_spaces equal
the_line_halts = refl
