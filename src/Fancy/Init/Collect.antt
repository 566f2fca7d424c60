-- ===== src/Fancy/Init/Collect.antt =====
-- The table `pids` when `Wait` collects a child.
use yalnix_os_project.Base.{
  ℕ, zero, suc, ◌≤◌, ◌<◌, ◌≡◌, ◌≢◌, ◌∙◌, sym, ap, refl, ◌⊎◌, inl, inr, Bool, true, false, update,
  update_same, update_other, arith,
}
use yalnix_os_project.Base.Int.{ℤ, pos}
use yalnix_os_project.Fancy.Init.{no_fork}
use yalnix_os_project.Fancy.Init.Table.{live, count, InOrder, count_fill, pos_inj}

-- `Wait` collects the child of slot `i`.
module _ (n h i p : ℕ) (pids : ℕ → ℤ) (children : ℕ → Bool) (c : ℕ) (inside : i < n) (le : n ≤ h)
    (o : InOrder n h pids children c) (at : pids i ≡ pos p) where
  abbrev fewer : ℕ → Bool
  fewer = update children p false

  free_other : (j r : ℕ) → j < n → j ≢ i → pids j ≡ pos r → r ≢ p
  free_other j r lt ne e same =
      ne (o.distinct j i p lt inside (λ q. omega arith) (λ q. omega arith) (e ∙ ap pos same) at)

  free_slot :
      (j : ℕ) → j < n → j ≢ i → (pids j ≡ no_fork) ⊎ ((r : ℕ) × (pids j ≡ pos r) × (fewer r ≡ true))
  free_slot j lt ne = elim (o.slot j lt (λ q. omega arith)) [
    | inl e ↦ inl e
    | inr (r, e, child) ↦
        inr (r, e, update_other children p r false (free_other j r lt ne e) ∙ child)
  ]

  not_freed : (r : ℕ) → fewer r ≡ true → r ≢ p
  not_freed r e same = cc (ap fewer same, update_same children p false)

  pub free-InOrder : (m : ℕ) × (c ≡ suc m) × InOrder n i pids fewer m
  free-InOrder =
      let all = count_fill n h i pids pids inside le (λ j lt ne. refl) in
      let here = ap live at in
      let before = o.counted in
      (
        count n i pids,
        omega arith,
        record {
          slot = free_slot;
          only = λ r e.
              let ne = not_freed r e in
              let w = o.only r (sym (update_other children p r false ne) ∙ e) in
              (w.0, w.1, λ x. ne (pos_inj r p (sym w.3 ∙ ap pids x ∙ at)), w.3);
          distinct = λ j k r lt lt' ne ne' e e'.
              o.distinct j k r lt lt' (λ q. omega arith) (λ q. omega arith) e e';
          counted = refl;
        },
      )

-- With a counted slot there is a child.
pub some_child :
    (n h : ℕ) (pids : ℕ → ℤ) (children : ℕ → Bool) (c : ℕ)
    → InOrder n h pids children c
    → (m : ℕ) → m ≤ n
    → n ≤ h
    → 0 < count m h pids
    → (p : ℕ) × (children p ≡ true)
unfolding count
some_child n h pids children c o zero le le' more = absurd (omega arith)
some_child n h pids children c o (suc m) le le' more =
    elim (o.slot m (omega arith) (λ q. omega arith)) [
      | inr (p, e, child) ↦ (p, child)
      | inl e ↦
          let none_here = ap live e in
          some_child n h pids children c o m (omega arith) le' (ground arith)
    ]

-- Without one there is none.
pub no_child :
    (n h : ℕ) (pids : ℕ → ℤ) (children : ℕ → Bool) (c : ℕ)
    → n ≤ h
    → c ≡ 0
    → InOrder n h pids children c
    → (p : ℕ) → children p ≡ false
no_child n h pids children c le nothing o p =
    elim (children p) as (λ b. children p ≡ b → b ≡ false) [
      | true ↦ λ e.
          let w = o.only p e in
          let all = count_fill n h w.0 pids pids w.1 le (λ j lt ne. refl) in
          let here = ap live w.3 in let none_counted = o.counted in absurd (omega arith)
      | false ↦ λ e. refl
    ]
      refl
