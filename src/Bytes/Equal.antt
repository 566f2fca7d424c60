-- ===== src/Bytes/Equal.antt =====
-- Strings that are equal, for libraries that compare them.
use yalnix_os_project.Base.{ℕ, ◌≡◌, refl, true, false, Bool, ◌==◌, ◌&&◌, List, [], ◌∷◌, arith}

unfoldable pub equal : List ℕ → List ℕ → Bool
equal [] [] = true
equal [] (y ∷ ys) = false
equal (x ∷ xs) [] = false
equal (x ∷ xs) (y ∷ ys) = (x == y) && equal xs ys

pub equal_eq : (s t : List ℕ) → equal s t ≡ true → s ≡ t
unfolding equal
equal_eq [] [] e = refl
equal_eq [] (y ∷ ys) e = cc
equal_eq (x ∷ xs) [] e = cc
equal_eq (x ∷ xs) (y ∷ ys) e =
    let first : x ≡ y = ground arith in
    let rest : equal xs ys ≡ true = ground arith in cc (equal_eq xs ys rest)

pub equal_refl : (s : List ℕ) → equal s s ≡ true
unfolding equal
equal_refl [] = refl
equal_refl (x ∷ xs) = ground (arith, equal_refl xs)
