-- ===== src/Fancy/Init/Faults.antt =====
-- init where its calls do not do what it expects.
use yalnix_os_project.Base.{
  ℕ, zero, suc, ◌+◌, ◌≤◌, ◌<◌, ◌≡◌, ◌≢◌, ◌∙◌, sym, ap, refl, inl, inr, false, ℕ_discrete, arith,
}
use yalnix_os_project.Base.Int.{ℤ, pos, negsuc, eqb_ℤ-ne}
use yalnix_os_project.Fancy.Init.{
  Init, waiting, out_of_bounds, search_from, search, waited, console, max_terminal, no_fork,
}
use yalnix_os_project.Fancy.Init.Table.{live, count}
use yalnix_os_project.Fancy.Init.System.{Children, Served}

-- A pid that is in none of the slots.
search_from_misses :
    (rounds i : ℕ) (pid : ℤ) (pids : ℕ → ℤ)
    → ((j : ℕ) → j < i + rounds → pids j ≢ pid)
    → search_from rounds i pid pids ≡ i + rounds
unfolding search_from
search_from_misses zero i pid pids other = omega arith
search_from_misses (suc rounds) i pid pids other =
    rw (eqb_ℤ-ne pid (pids i) (λ e. other i (omega arith) (sym e)))
      (search_from_misses rounds (i + 1) pid pids (λ j lt. other j (omega arith)) ∙ omega arith)

live_le : (z : ℤ) → live z ≤ 1
live_le (pos p) = omega arith
live_le (negsuc n) = omega arith

-- With every slot counted, none holds NOFORK.
count-le : (n : ℕ) (pids : ℕ → ℤ) → n ≤ 4 → count n 4 pids ≤ n
unfolding count
count-le zero pids le = omega arith
count-le (suc n) pids le =
    let rest = count-le n pids (omega arith) in let last = live_le (pids n) in ground arith

full : (n : ℕ) (pids : ℕ → ℤ) → n ≤ 4 → count n 4 pids ≡ n → (j : ℕ) → j < n → pids j ≢ no_fork
unfolding count
full zero pids le all j lt e = absurd (omega arith)
full (suc n) pids le all j lt e =
    let rest = count-le n pids (omega arith) in
    let last = live_le (pids n) in
    let before : count n 4 pids ≡ n = ground arith in
    let here : live (pids n) ≡ 1 = ground arith in
    elim (ℕ_discrete j n) [
      | yes f ↦
          let dead : live (pids n) ≡ 0 = ap (λ k. live (pids k)) (sym f) ∙ ap live e in
          absurd (omega arith)
      | no f ↦ full n pids (omega arith) before j (omega arith) e
    ]

-- When init, in order, gets a pid from Wait that is no child's, or ERROR with every terminal
-- started, it goes on with the entry behind the end of pids.
pub waited_out_of_bounds :
    (s : Init) (pid : ℤ) (children : Children)
    → Served (waiting s) children
    → ((p : ℕ) → pid ≡ pos p → children p ≡ false)
    → (pid ≡ no_fork → s.child_cnt ≡ max_terminal + 1)
    → waited pid s ≡ out_of_bounds s
unfolding waited search
waited_out_of_bounds s pid children (o, some_console, some_live) stranger started =
    let other : (j : ℕ) → j < 0 + (max_terminal + 1) → s.pids j ≢ pid = λ j lt e.
      elim (o.slot j (omega arith) (λ x. omega arith)) [
        | inl f ↦
            full 4 s.pids (omega arith) (sym o.counted ∙ started (sym e ∙ f)) j (omega arith) f
        | inr (p, f, child) ↦ let gone = stranger p (sym e ∙ f) in cc
      ] in
    rw
      (
        eqb_ℤ-ne pid (s.pids console) (λ e. other console (omega arith) (sym e)),
        search_from_misses (max_terminal + 1) 0 pid s.pids other,
      )
      refl
