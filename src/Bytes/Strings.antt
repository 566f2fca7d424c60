-- ===== src/Bytes/Strings.antt =====
-- Strings, and lists of strings one behind the other, in a byte memory.
use yalnix_os_project.Base.{
  ℕ, zero, suc, ◌+◌, ◌≤◌, ◌<◌, ◌≡◌, ◌≢◌, ◌∙◌, ap, inl, refl, false, ◌==◌, update, update_same,
  update_other, some, List, [], ◌∷◌, length, arith,
}
use yalnix_os_project.Bytes.{write_string, read_string}
use yalnix_os_project.Bytes.Words.{Outside}

-- No character is NUL.
abbrev pub IsText : List ℕ → Type 0
IsText [] = Unit
IsText (c ∷ cs) = (c ≢ 0) × IsText cs

abbrev pub StringAt : (ℕ → ℕ) → ℕ → List ℕ → Type 0
StringAt mem a [] = mem a ≡ 0
StringAt mem a (c ∷ cs) = (mem a ≡ c) × StringAt mem (a + 1) cs

pub StringAt-frame :
    (mem mem' : ℕ → ℕ) (a : ℕ) (s : List ℕ)
    → ((i : ℕ) → a ≤ i → i < a + length s + 1 → mem' i ≡ mem i)
    → StringAt mem a s
    → StringAt mem' a s
StringAt-frame mem mem' a [] same h = same a (omega arith) (omega arith) ∙ h
StringAt-frame mem mem' a (c ∷ cs) same h = (
  same a (omega arith) (omega arith) ∙ h.0,
  StringAt-frame mem mem' (a + 1) cs (λ i lo hi. same i (omega arith) (omega arith)) h.1,
)

pub write_string_other :
    (a : ℕ) (s : List ℕ) (mem : ℕ → ℕ) (i : ℕ)
    → Outside a (a + length s + 1) i
    → write_string a s mem i ≡ mem i
unfolding write_string
write_string_other a [] mem i out = update_other mem a i 0 (λ e. omega (arith, out))
write_string_other a (c ∷ cs) mem i out =
    write_string_other (a + 1) cs (update mem a c) i (omega (arith, out))
    ∙ update_other mem a i c (λ e. omega (arith, out))

pub write_string-StringAt : (a : ℕ) (s : List ℕ) (mem : ℕ → ℕ) → StringAt (write_string a s mem) a s
unfolding write_string
write_string-StringAt a [] mem = update_same mem a 0
write_string-StringAt a (c ∷ cs) mem = (
  write_string_other (a + 1) cs (update mem a c) a (inl (omega arith)) ∙ update_same mem a c,
  write_string-StringAt (a + 1) cs (update mem a c),
)

pub read_string-StringAt :
    (fuel a : ℕ) (s : List ℕ) (mem : ℕ → ℕ)
    → length s < fuel
    → IsText s
    → StringAt mem a s
    → read_string fuel a mem ≡ some s
unfolding read_string
read_string-StringAt zero a s mem lt text h = absurd (omega arith)
read_string-StringAt (suc fuel) a [] mem lt text h = rw h refl
read_string-StringAt (suc fuel) a (c ∷ cs) mem lt text h =
    let here : (c == 0) ≡ false = let n = text.0 in ground arith in
    rw (h.0, here, read_string-StringAt fuel (a + 1) cs mem (omega arith) text.1 h.1)
      (ap (λ x. some (x ∷ cs)) h.0)

-- The bytes that strings take.
unfoldable pub span : List (List ℕ) → ℕ
span [] = 0
span (s ∷ ss) = length s + 1 + span ss

abbrev pub AreTexts : List (List ℕ) → Type 0
AreTexts [] = Unit
AreTexts (s ∷ ss) = IsText s × AreTexts ss

-- The strings stand one behind the other from `a` on.
abbrev pub StringsAt : (ℕ → ℕ) → ℕ → List (List ℕ) → Type 0
StringsAt mem a [] = Unit
StringsAt mem a (s ∷ ss) = StringAt mem a s × StringsAt mem (a + length s + 1) ss

pub StringsAt-frame :
    (mem mem' : ℕ → ℕ) (a : ℕ) (ss : List (List ℕ))
    → ((i : ℕ) → a ≤ i → i < a + span ss → mem' i ≡ mem i)
    → StringsAt mem a ss
    → StringsAt mem' a ss
unfolding span
StringsAt-frame mem mem' a [] same h = tt
StringsAt-frame mem mem' a (s ∷ ss) same h = (
  StringAt-frame mem mem' a s (λ i lo hi. same i lo (omega arith)) h.0,
  StringsAt-frame mem mem' (a + length s + 1) ss (λ i lo hi. same i (omega arith) (omega arith))
      h.1,
)
