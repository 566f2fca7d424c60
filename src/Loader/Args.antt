-- ===== src/Loader/Args.antt =====
-- The arguments in the buffer, and on the new stack.
use yalnix_os_project.Base.{
  ℕ, suc, ◌+◌, ◌*◌, ◌≤◌, ◌<◌, ◌≡◌, ◌∙◌, inl, inr, refl, Option, some, List, [], ◌∷◌, length, arith,
}
use yalnix_os_project.Machine.{word}
use yalnix_os_project.Bytes.{store_word, load_word, write_string}
use yalnix_os_project.Bytes.Words.{Outside, load_word-store_word, store_word_other, load_word_same}
use yalnix_os_project.Bytes.Strings.{
  AreTexts, StringsAt, StringAt-frame, StringsAt-frame, write_string_other, write_string-StringAt,
  read_string-StringAt, span,
}
use yalnix_os_project.Loader.{save_args, argv_loop}

pub save_args_other :
    (a : ℕ) (ss : List (List ℕ)) (mem : ℕ → ℕ) (i : ℕ)
    → Outside a (a + span ss) i
    → save_args a ss mem i ≡ mem i
unfolding save_args span
save_args_other a [] mem i out = refl
save_args_other a (s ∷ ss) mem i out =
    save_args_other (a + length s + 1) ss (write_string a s mem) i (omega (arith, out))
    ∙ write_string_other a s mem i (omega (arith, out))

pub save_args-StringsAt :
    (a : ℕ) (ss : List (List ℕ)) (mem : ℕ → ℕ) → StringsAt (save_args a ss mem) a ss
unfolding save_args
save_args-StringsAt a [] mem = tt
save_args-StringsAt a (s ∷ ss) mem = (
  StringAt-frame (write_string a s mem) (save_args (a + length s + 1) ss (write_string a s mem)) a s
      (λ i lo hi.
        save_args_other (a + length s + 1) ss (write_string a s mem) i (inl (omega arith)))
      (write_string-StringAt a s mem),
  save_args-StringsAt (a + length s + 1) ss (write_string a s mem),
)

-- From `cpp` on there is a pointer to each string of those that begin at `cp`.
abbrev pub PointersAt : (ℕ → ℕ) → ℕ → ℕ → List (List ℕ) → Type 0
PointersAt mem cpp cp [] = Unit
PointersAt mem cpp cp (s ∷ ss) =
    (load_word cpp mem ≡ cp) × PointersAt mem (cpp + 4) (cp + length s + 1) ss

pub PointersAt-frame :
    (mem mem' : ℕ → ℕ) (cpp cp : ℕ) (ss : List (List ℕ))
    → ((i : ℕ) → cpp ≤ i → i < cpp + length ss * 4 → mem' i ≡ mem i)
    → PointersAt mem cpp cp ss
    → PointersAt mem' cpp cp ss
PointersAt-frame mem mem' cpp cp [] same h = tt
PointersAt-frame mem mem' cpp cp (s ∷ ss) same h = (
  load_word_same cpp mem mem' (λ i lo hi. same i lo (omega arith)) ∙ h.0,
  PointersAt-frame mem mem' (cpp + 4) (cp + length s + 1) ss
      (λ i lo hi. same i (omega arith) (omega arith)) h.1,
)

-- Pointers from `cpp` on, strings from `cp` on, and all else as it was.
pub data Built (mem : ℕ → ℕ) (cpp cp : ℕ) (ss : List (List ℕ)) : Option (ℕ × (ℕ → ℕ)) → Type 0 where
  built :
      (end : ℕ) (mem' : ℕ → ℕ)
      → end ≡ cpp + length ss * 4
      → PointersAt mem' cpp cp ss
      → StringsAt mem' cp ss
      → ((i : ℕ)
          → Outside cpp (cpp + length ss * 4) i
          → Outside cp (cp + span ss) i
          → mem' i ≡ mem i)
      → Built mem cpp cp ss (some (end, mem'))

-- The first string and its pointer are written.
module _ (cpp cp : ℕ) (s : List ℕ) (ss : List (List ℕ)) (mem : ℕ → ℕ)
    (order : cpp + suc (length ss) * 4 ≤ cp) (top : cp + span (s ∷ ss) < word) where
  first_round : ℕ → ℕ
  first_round = write_string cp s (store_word cpp cp mem)

  first_other :
      (i : ℕ) → Outside cpp (cpp + 4) i → Outside cp (cp + length s + 1) i → first_round i ≡ mem i
  unfolding first_round
  first_other i out out' =
      write_string_other cp s (store_word cpp cp mem) i out' ∙ store_word_other cpp cp i mem out

  first_pointer : load_word cpp first_round ≡ cp
  unfolding first_round
  first_pointer =
      load_word_same cpp (store_word cpp cp mem) first_round
        (λ i lo hi. write_string_other cp s (store_word cpp cp mem) i (inl (omega arith)))
      ∙ load_word-store_word cpp cp mem (omega arith)

  Built-cons :
      (r : Option (ℕ × (ℕ → ℕ)))
      → Built first_round (cpp + 4) (cp + length s + 1) ss r
      → Built mem cpp cp (s ∷ ss) r
  unfolding span first_round
  Built-cons r (built end mem' at pointers strings same) =
      built end mem' (omega arith)
        (
          load_word_same cpp first_round mem'
                (λ i lo hi. same i (inl (omega arith)) (inl (omega arith)))
              ∙ first_pointer,
          pointers,
        )
        (
          StringAt-frame first_round mem' cp s
              (λ i lo hi. same i (inr (omega arith)) (inl (omega arith)))
              (write_string-StringAt cp s (store_word cpp cp mem)),
          strings,
        )
        (λ i out out'.
          same i (omega (arith, out)) (omega (arith, out'))
          ∙ first_other i (omega (arith, out)) (omega (arith, out')))

-- The loop copies every string of the buffer to the stack and points to it.
pub argv_loop-Built :
    (fuel cpp cp cp2 : ℕ) (ss : List (List ℕ)) (mem : ℕ → ℕ)
    → AreTexts ss
    → StringsAt mem cp2 ss
    → span ss ≤ fuel
    → cp2 + span ss ≤ cpp
    → cpp + length ss * 4 ≤ cp
    → cp + span ss < word
    → Built mem cpp cp ss (argv_loop fuel (length ss) cpp cp cp2 mem)
unfolding argv_loop span first_round
argv_loop-Built fuel cpp cp cp2 [] mem texts h enough low order top =
    built cpp mem (omega arith) tt tt (λ i out out'. refl)
argv_loop-Built fuel cpp cp cp2 (s ∷ ss) mem texts h enough low order top =
    let read = read_string-StringAt fuel cp2 s mem (omega arith) texts.0 h.0 in
    let next = first_round cpp cp s ss mem order top in
    rw (argv_loop, read)
      (Built-cons cpp cp s ss mem order top
        (argv_loop fuel (length ss) (cpp + 4) (cp + length s + 1) (cp2 + length s + 1) next)
        (argv_loop-Built fuel (cpp + 4) (cp + length s + 1) (cp2 + length s + 1) ss next texts.1
          (StringsAt-frame mem next (cp2 + length s + 1) ss
            (λ i lo hi.
              first_other cpp cp s ss mem order top i (inl (omega arith)) (inl (omega arith)))
            h.1)
          (omega arith) (omega arith) (omega arith) (omega arith)))
