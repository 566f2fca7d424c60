-- ===== src/UserHeap/Swap.antt =====
-- One region comes and another goes: what `realloc` does to the list of regions.
use yalnix_os_project.Base.{◌≡◌, ◌∙◌, ap, refl, List, [], ◌∷◌, ◌++◌}
use yalnix_os_project.UserHeap.Regions.{Region}
use yalnix_os_project.UserHeap.Returns.{head_eq, tail_eq}

-- One region put in and another taken out.
pub record Swapped (xs' : List Region) (x : Region) (ys' xs : List Region) (q : Region)
    (ys : List Region) : Type 0 where
  pub left : List Region
  pub right : List Region
  pub before : List Region
  pub after : List Region
  pub whole : xs' ++ x ∷ ys' ≡ left ++ q ∷ right
  pub rest : left ++ right ≡ before ++ x ∷ after
  pub others : before ++ after ≡ xs ++ ys

swap_here :
    (x : Region) (xs : List Region) (q : Region) (ys ys' : List Region)
    → ys' ≡ xs ++ q ∷ ys
    → Swapped [] x ys' xs q ys
swap_here x xs q ys ys' e = record {
  left = x ∷ xs;
  right = ys;
  before = [];
  after = xs ++ ys;
  whole = ap (λ z. x ∷ z) e;
  rest = refl;
  others = refl;
}

pub swap :
    (xs' : List Region) (x : Region) (ys' xs : List Region) (q : Region) (ys : List Region)
    → xs' ++ ys' ≡ xs ++ q ∷ ys
    → Swapped xs' x ys' xs q ys
swap [] x ys' xs q ys e = swap_here x xs q ys ys' e
swap (z ∷ zs) x ys' [] q ys e = record {
  left = [];
  right = zs ++ x ∷ ys';
  before = zs;
  after = ys';
  whole = ap (λ v. v ∷ (zs ++ x ∷ ys')) (head_eq z q (zs ++ ys') ys e);
  rest = refl;
  others = tail_eq z q (zs ++ ys') ys e;
}
swap (z ∷ zs) x ys' (y ∷ xs) q ys e =
    let r = swap zs x ys' xs q ys (tail_eq z y (zs ++ ys') (xs ++ q ∷ ys) e) in
    record {
      left = z ∷ r.left;
      right = r.right;
      before = z ∷ r.before;
      after = r.after;
      whole = ap (λ v. z ∷ v) r.whole;
      rest = ap (λ v. z ∷ v) r.rest;
      others =
          ap (λ v. v ∷ (r.before ++ r.after)) (head_eq z y (zs ++ ys') (xs ++ q ∷ ys) e)
          ∙ ap (λ v. y ∷ v) r.others;
    }
