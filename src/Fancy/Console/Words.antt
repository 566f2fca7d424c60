-- ===== src/Fancy/Console/Words.antt =====
-- The console takes the first word of a line.
use yalnix_os_project.Base.{
  ℕ, zero, suc, ◌+◌, ◌-◌, ◌≤◌, ◌<◌, ◌≡◌, ◌≢◌, ◌∙◌, ◌↔◌, sym, ap, refl, Bool-cases, inl, inr, true,
  false, not, ◌&&◌, ◌||◌, ◌==◌, leb, if◌then◌else◌, update, update_same, update_other, some, List,
  [], ◌∷◌, length, arith,
}
use yalnix_os_project.Base.Int.{pos}
use yalnix_os_project.Bytes.Strings.{IsText, StringAt, read_string-StringAt}
use yalnix_os_project.Fancy.Console.{
  Library, Round, prompts, complains, halts, max_line, halt_word, skip_spaces, skip_word, answer,
  take_word, round,
}

-- What the C library says of the two functions.
pub record IsDocumented (lib : Library) : Type 0 where
  pub nul_no_space : lib.isspace 0 ≡ false
  pub same_iff : (s t : List ℕ) → (lib.same s t ≡ true) ↔ (s ≡ t)

-- The characters of a line.
abbrev pub chars : ℕ → ℕ → (ℕ → ℕ) → List ℕ
chars zero i buf = []
chars (suc n) i buf = buf i ∷ chars n (i + 1) buf

unfoldable pub without_spaces : Library → List ℕ → List ℕ
without_spaces lib [] = []
without_spaces lib (c ∷ cs) =
    let rest = without_spaces lib cs in if lib.isspace c then rest else c ∷ cs

-- The characters up to a space or a NUL.
unfoldable pub word_of : Library → List ℕ → List ℕ
word_of lib [] = []
word_of lib (c ∷ cs) = if not (c == 0) && not (lib.isspace c) then c ∷ word_of lib cs else []

-- What a line is answered with.
unfoldable pub verdict : Library → List ℕ → Round
verdict lib [] = prompts
verdict lib (c ∷ cs) = if lib.same (c ∷ cs) halt_word then halts else complains (c ∷ cs)

chars_same :
    (n i : ℕ) (b c : ℕ → ℕ) → ((j : ℕ) → i ≤ j → j < i + n → c j ≡ b j) → chars n i c ≡ chars n i b
chars_same zero i b c same = refl
chars_same (suc n) i b c same =
    ap (λ x. x ∷ chars n (i + 1) c) (same i (omega arith) (omega arith))
    ∙ ap (λ x. b i ∷ x) (chars_same n (i + 1) b c (λ j lo hi. same j (omega arith) (omega arith)))

chars_eq : (n n' i i' : ℕ) (b : ℕ → ℕ) → n ≡ n' → i ≡ i' → chars n i b ≡ chars n' i' b
chars_eq n n' i i' b e f = ap (λ k. chars k i b) e ∙ ap (λ k. chars n' k b) f

-- Where the characters end in a NUL there is a string.
chars-StringAt :
    (n i : ℕ) (b c : ℕ → ℕ)
    → ((j : ℕ) → i ≤ j → j < i + n → c j ≡ b j)
    → c (i + n) ≡ 0
    → StringAt c i (chars n i b)
chars-StringAt zero i b c same nul = ap c (omega arith) ∙ nul
chars-StringAt (suc n) i b c same nul = (
  same i (omega arith) (omega arith),
  chars-StringAt n (i + 1) b c (λ j lo hi. same j (omega arith) (omega arith))
      (ap c (omega arith) ∙ nul),
)

length-chars : (n i : ℕ) (b : ℕ → ℕ) → length (chars n i b) ≡ n
length-chars zero i b = refl
length-chars (suc n) i b = ap suc (length-chars n (i + 1) b)

in_range : (n : ℕ) → 0 < n → n < max_line → ((n == 0) || leb max_line n) ≡ false
in_range n some_chars fits = ground arith

module _ (lib : Library) (doc : IsDocumented lib) where
  skip_spaces_lem :
      (m left i : ℕ) (b : ℕ → ℕ)
      → m < left
      → b (i + m) ≡ 0
      → (k : ℕ) × (skip_spaces lib left i b ≡ some (i + k))
        × (k ≤ m)
        × (without_spaces lib (chars m i b) ≡ chars (m - k) (i + k) b)
  unfolding skip_spaces without_spaces
  skip_spaces_lem m zero i b lt nul = absurd (omega arith)
  skip_spaces_lem zero (suc left) i b lt nul =
      let at : b i ≡ 0 = ap b (omega arith) ∙ nul in
      let here : lib.isspace (b i) ≡ false = ap lib.isspace at ∙ doc.nul_no_space in
      (0, rw here (ap some (omega arith)), omega arith, refl)
  skip_spaces_lem (suc m) (suc left) i b lt nul =
      let (k, run, le, rest) =
        skip_spaces_lem m left (i + 1) b (omega arith) (ap b (omega arith) ∙ nul) in
      elim (Bool-cases (lib.isspace (b i))) [
        | inl e ↦ (
          k + 1,
          rw e (run ∙ ap some (omega arith)),
          omega arith,
          rw e (
              rest
              ∙ chars_eq (m - k) (suc m - (k + 1)) (i + 1 + k) (i + (k + 1)) b (omega arith)
                  (omega arith)),
        )
        | inr e ↦ (
          0,
          rw e (ap some (omega arith)),
          omega arith,
          rw e (chars_eq (suc m) (suc m - 0) i (i + 0) b (omega arith) (omega arith)),
        )
      ]

  skip_word_lem :
      (m left i : ℕ) (b : ℕ → ℕ)
      → m < left
      → b (i + m) ≡ 0
      → (k : ℕ) × (skip_word lib left i b ≡ some (i + k))
        × (k ≤ m)
        × (word_of lib (chars m i b) ≡ chars k i b)
        × IsText (chars k i b)
  unfolding skip_word word_of
  skip_word_lem m zero i b lt nul = absurd (omega arith)
  skip_word_lem zero (suc left) i b lt nul =
      let at : b i ≡ 0 = ap b (omega arith) ∙ nul in
      let here : (b i == 0) ≡ true = ground arith in
      (0, rw here (ap some (omega arith)), omega arith, refl, tt)
  skip_word_lem (suc m) (suc left) i b lt nul =
      let (k, run, le, word, text) =
        skip_word_lem m left (i + 1) b (omega arith) (ap b (omega arith) ∙ nul) in
      elim (Bool-cases (not (b i == 0) && not (lib.isspace (b i)))) [
        | inl e ↦ (
          suc k,
          rw e (run ∙ ap some (omega arith)),
          omega arith,
          rw e (ap (λ x. b i ∷ x) word),
          ((let some_char : b i ≢ 0 = ground arith in some_char), text),
        )
        | inr e ↦ (0, rw e (ap some (omega arith)), omega arith, rw e refl, tt)
      ]

  answer_lem :
      (i : ℕ) (c : ℕ → ℕ) (s : List ℕ)
      → StringAt c i s
      → IsText s
      → answer lib i c s ≡ verdict lib s
  unfolding answer verdict
  answer_lem i c [] at text = elim (Bool-cases (lib.same [] halt_word)) [
    | inl e ↦ let equal = (doc.same_iff [] halt_word).0 e in cc
    | inr e ↦ let end : (c i == 0) ≡ true = ground arith in rw (e, end) refl
  ]
  answer_lem i c (x ∷ xs) at text =
      let first = at.0 in
      let some_char : (c i == 0) ≡ false = let other = text.0 in ground arith in rw some_char refl

  -- The word is handed on, whatever stands behind it.
  take_word_lem :
      (m i : ℕ) (b : ℕ → ℕ)
      → i + m < max_line
      → b (i + m) ≡ 0
      → take_word lib i b ≡ verdict lib (word_of lib (chars m i b))
  unfolding take_word
  take_word_lem m i b lt nul =
      let (k, run, le, word, text) = skip_word_lem m (max_line - i) i b (omega arith) nul in
      let c = update b (i + k) 0 in
      let string =
        chars-StringAt k i b c (λ j lo hi. update_other b (i + k) j 0 (λ e. omega arith))
          (update_same b (i + k) 0) in
      let read =
        read_string-StringAt (max_line - i) i (chars k i b) c
          (let len = length-chars k i b in omega arith) text string in
      rw (run, read, word) (answer_lem i c (chars k i b) string text)

  -- With isspace and strcmp as documented and a line of 1 to 1023 characters in the buffer, a
  -- round of the console stays within the buffer: it halts if the word behind the leading spaces,
  -- up to a space or a NUL, is halt, complains of any other word, and prompts again if there is
  -- none.
  pub round-word_of :
      (n : ℕ) (buf : ℕ → ℕ)
      → 0 < n
      → n < max_line
      → round lib (pos n) buf ≡ verdict lib (word_of lib (without_spaces lib (chars n 0 buf)))
  unfolding round
  round-word_of n buf some_chars fits =
      let b = update buf n 0 in
      let nul = update_same buf n 0 in
      let line = chars_same n 0 buf b (λ j lo hi. update_other buf n j 0 (λ e. omega arith)) in
      let (k, run, le, rest) =
        skip_spaces_lem n max_line 0 b (omega arith) (ap b (omega arith) ∙ nul) in
      rw (in_range n some_chars fits, run)
        (take_word_lem (n - k) (0 + k) b (omega arith) (ap b (omega arith) ∙ nul)
          ∙ ap (λ x. verdict lib (word_of lib x)) (sym rest)
          ∙ ap (λ x. verdict lib (word_of lib (without_spaces lib x))) line)
