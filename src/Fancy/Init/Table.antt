-- ===== src/Fancy/Init/Table.antt =====
-- The table `pids` next to the children that the process has.
use yalnix_os_project.Base.{
  ℕ, zero, suc, ◌+◌, ◌≤◌, ◌<◌, ◌≡◌, ◌≢◌, ◌∙◌, sym, ap, refl, ◌⊎◌, inl, inr, Bool, true, false, ◌==◌,
  if◌then◌else◌, update, update_same, update_other, ℕ_discrete, arith,
}
use yalnix_os_project.Base.Int.{ℤ, pos, negsuc}
use yalnix_os_project.Fancy.Init.{no_fork}

abbrev pub live : ℤ → ℕ
live (pos p) = 1
live (negsuc n) = 0

-- The slots below `n`, without `hole`, that hold a pid.
unfoldable pub count : ℕ → ℕ → (ℕ → ℤ) → ℕ
count zero hole f = 0
count (suc n) hole f = count n hole f + (if n == hole then 0 else live (f n))

-- The slots below `n`, without `hole`, hold the pids of the children, each once, and NOFORK; `c`
-- is how many there are.
pub record InOrder (n hole : ℕ) (pids : ℕ → ℤ) (children : ℕ → Bool) (c : ℕ) : Type 0 where
  pub slot :
      (i : ℕ)
      → i < n
      → i ≢ hole
      → (pids i ≡ no_fork) ⊎ ((p : ℕ) × (pids i ≡ pos p) × (children p ≡ true))
  pub only : (p : ℕ) → children p ≡ true → (i : ℕ) × (i < n) × (i ≢ hole) × (pids i ≡ pos p)
  pub distinct :
      (i j p : ℕ) → i < n → j < n → i ≢ hole → j ≢ hole → pids i ≡ pos p → pids j ≡ pos p → i ≡ j
  pub counted : c ≡ count n hole pids

count_below :
    (n h i : ℕ) (f g : ℕ → ℤ)
    → n ≤ h
    → n ≤ i
    → ((j : ℕ) → j < n → g j ≡ f j)
    → count n h g ≡ count n i f
unfolding count
count_below zero h i f g le le' same = refl
count_below (suc n) h i f g le le' same =
    let rest = count_below n h i f g (omega arith) (omega arith) (λ j lt. same j (omega arith)) in
    let last = ap live (same n (omega arith)) in ground arith

pub count_fill :
    (n h i : ℕ) (f g : ℕ → ℤ)
    → i < n
    → n ≤ h
    → ((j : ℕ) → j < n → j ≢ i → g j ≡ f j)
    → count n h g ≡ count n i f + live (g i)
unfolding count
count_fill zero h i f g lt le same = absurd (omega arith)
count_fill (suc n) h i f g lt le same = elim (ℕ_discrete n i) [
  | yes e ↦
      let rest =
        count_below n h i f g (omega arith) (omega arith)
          (λ j l. same j (omega arith) (λ q. omega arith)) in
      let last = ap (λ x. live (g x)) e in ground arith
  | no ne ↦
      let rest =
        count_fill n h i f g (omega arith) (omega arith) (λ j l d. same j (omega arith) d) in
      let last = ap live (same n (omega arith) ne) in ground arith
]

pub pos_inj : (a b : ℕ) → pos a ≡ pos b → a ≡ b
pos_inj a b e = cc

pub empty-InOrder :
    (h : ℕ) (pids : ℕ → ℤ) (children : ℕ → Bool)
    → ((p : ℕ) → children p ≡ false)
    → InOrder 0 h pids children 0
unfolding count
empty-InOrder h pids children childless = record {
  slot = λ i lt ne. absurd (omega arith);
  only = λ p e. cc (childless p);
  distinct = λ i j p lt lt' ne ne' e e'. absurd (omega arith);
  counted = refl;
}

count_grow : (n : ℕ) (f : ℕ → ℤ) → count n n f ≡ count (suc n) n f
unfolding count
count_grow n f = ground arith

-- A slot more, which nothing is known of.
pub grow-InOrder :
    (n h : ℕ) (pids : ℕ → ℤ) (children : ℕ → Bool) (c : ℕ)
    → n ≤ h
    → InOrder n h pids children c
    → InOrder (suc n) n pids children c
grow-InOrder n h pids children c le o = record {
  slot = λ i lt ne. o.slot i (omega arith) (λ e. omega arith);
  only = λ p e. let w = o.only p e in (w.0, omega arith, λ q. omega arith, w.3);
  distinct = λ i j p lt lt' ne ne' e e'.
      o.distinct i j p (omega arith) (omega arith) (λ q. omega arith) (λ q. omega arith) e e';
  counted =
      o.counted ∙ count_below n h n pids pids le (omega arith) (λ j lt. refl) ∙ count_grow n pids;
}

module _ (n i : ℕ) (pids : ℕ → ℤ) (children : ℕ → Bool) (c : ℕ) (inside : i < n)
    (o : InOrder n i pids children c) where
  fill_slot :
      (v : ℤ) (more : ℕ → Bool)
      → ((p : ℕ) → children p ≡ true → more p ≡ true)
      → (v ≡ no_fork) ⊎ ((p : ℕ) × (v ≡ pos p) × (more p ≡ true))
      → (j : ℕ) → j < n
      → (update pids i v j ≡ no_fork) ⊎ ((p : ℕ) × (update pids i v j ≡ pos p) × (more p ≡ true))
  fill_slot v more keep new j lt = elim (ℕ_discrete j i) [
    | yes e ↦
        let here : update pids i v j ≡ v = ap (update pids i v) e ∙ update_same pids i v in
        rw here new
    | no ne ↦
        rw (update_other pids i j v ne)
          (elim (o.slot j lt ne) [ inl e ↦ inl e | inr (p, e, child) ↦ inr (p, e, keep p child) ])
  ]

  -- `Fork` gave a pid that is not in use.
  module _ (h q : ℕ) (le : n ≤ h) (fresh : children q ≡ false) where
    abbrev filled : ℕ → ℤ
    filled = update pids i (pos q)

    abbrev more : ℕ → Bool
    more = update children q true

    filled_other : (j p : ℕ) → j < n → j ≢ i → filled j ≡ pos p → p ≢ q
    filled_other j p lt ne e same = elim (o.slot j lt ne) [
      | inl f ↦ cc (update_other pids i j (pos q) ne)
      | inr (r, f, child) ↦ cc (update_other pids i j (pos q) ne)
    ]

    filled_distinct : (j k p : ℕ) → j < n → k < n → filled j ≡ pos p → filled k ≡ pos p → j ≡ k
    filled_distinct j k p lt lt' e e' = elim (ℕ_discrete j i) [
      | yes f ↦ elim (ℕ_discrete k i) [
        | yes g ↦ f ∙ sym g
        | no g ↦
            let same : pos q ≡ pos p = sym (update_same pids i (pos q)) ∙ ap filled (sym f) ∙ e in
            absurd (filled_other k p lt' g e' (sym (pos_inj q p same)))
      ]
      | no f ↦ elim (ℕ_discrete k i) [
        | yes g ↦
            let same : pos q ≡ pos p = sym (update_same pids i (pos q)) ∙ ap filled (sym g) ∙ e' in
            absurd (filled_other j p lt f e (sym (pos_inj q p same)))
        | no g ↦
            o.distinct j k p lt lt' f g (sym (update_other pids i j (pos q) f) ∙ e)
              (sym (update_other pids i k (pos q) g) ∙ e')
      ]
    ]

    filled_only : (p : ℕ) → more p ≡ true → (j : ℕ) × (j < n) × (j ≢ h) × (filled j ≡ pos p)
    filled_only p e = elim (ℕ_discrete p q) [
      | yes f ↦ (i, inside, λ x. omega arith, update_same pids i (pos q) ∙ ap pos (sym f))
      | no f ↦
          let w = o.only p (sym (update_other children q p true f) ∙ e) in
          (w.0, w.1, λ x. omega (arith, w.1), update_other pids i w.0 (pos q) w.2 ∙ w.3)
    ]

    pub fill-InOrder : InOrder n h filled more (c + 1)
    fill-InOrder = record {
      slot = λ j lt ne.
          fill_slot (pos q) more (λ p child. ground arith)
            (inr (q, refl, update_same children q true)) j lt;
      only = filled_only;
      distinct = λ j k p lt lt' ne ne' e e'. filled_distinct j k p lt lt' e e';
      counted =
          let all =
            count_fill n h i pids filled inside le (λ j lt ne. update_other pids i j (pos q) ne) in
          let here = ap live (update_same pids i (pos q)) in let before = o.counted in omega arith;
    }

  abbrev left_out : ℕ → ℤ
  left_out = update pids i no_fork

  left_out_slot : (j p : ℕ) → left_out j ≡ pos p → j ≢ i
  left_out_slot j p e same = cc (ap left_out same, update_same pids i no_fork)

  -- `Fork` failed.
  pub leave-InOrder : (h : ℕ) → n ≤ h → InOrder n h left_out children c
  leave-InOrder h le = record {
    slot = λ j lt ne. fill_slot no_fork children (λ p child. child) (inl refl) j lt;
    only = λ p e.
        let w = o.only p e in
        (w.0, w.1, λ x. omega (arith, w.1), update_other pids i w.0 no_fork w.2 ∙ w.3);
    distinct = λ j k p lt lt' ne ne' e e'.
        let f = left_out_slot j p e in
        let g = left_out_slot k p e' in
        o.distinct j k p lt lt' f g (sym (update_other pids i j no_fork f) ∙ e)
          (sym (update_other pids i k no_fork g) ∙ e');
    counted =
        let all =
          count_fill n h i pids left_out inside le (λ j lt ne. update_other pids i j no_fork ne) in
        let here = ap live (update_same pids i no_fork) in let before = o.counted in omega arith;
  }
