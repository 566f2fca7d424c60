-- ===== src/Fancy/Init/Second.antt =====
-- init in a child whose `Exec` has failed.
use yalnix_os_project.Base.{
  ℕ, zero, suc, ◌+◌, ◌≤◌, ◌<◌, ◌≡◌, ◌≢◌, ◌∙◌, sym, refl, true, false, ◌==◌, if◌then◌else◌, update,
  update_same, update_other, ℕ_discrete, arith,
}
use yalnix_os_project.Base.Int.{pos, eqb_ℤ-ne}
use yalnix_os_project.Fancy.Init.{
  Init, starting, waiting, Forked, returned, Exec, fails, fork_child, loop_head, begin, switched,
  start, boot, console, max_terminal, no_fork, no_exec,
}
use yalnix_os_project.Fancy.Init.Starts.{fork_child_some}

-- The table and the count after the rounds from `i` on, each of which has started a process.
pub record Started (i rounds : ℕ) (p : ℕ → ℕ) (s t : Init) : Type 0 where
  counted : t.child_cnt ≡ s.child_cnt + rounds
  started : (j : ℕ) → i ≤ j → j < i + rounds → t.pids j ≡ pos (p j)
  kept : (j : ℕ) → j < i → t.pids j ≡ s.pids j

abbrev with_child : ℕ → ℕ → Init → Init
with_child i p s = record s { pids = update s.pids i (pos p); child_cnt = s.child_cnt + 1 }

start_child :
    (i p : ℕ) (s : Init)
    → start i (returned (pos p)) s ≡ (
        if i == max_terminal then begin (with_child i p s) else starting (i + 1) (with_child i p s))
unfolding start switched
start_child i p s = rw (eqb_ℤ-ne (pos p) no_exec (λ e. cc), eqb_ℤ-ne (pos p) no_fork (λ e. cc)) refl

begin_waits : (s : Init) → s.pids console ≢ no_fork → 0 < s.child_cnt → begin s ≡ waiting s
unfolding begin loop_head
begin_waits s some_console some_live =
    let more : (s.child_cnt == 0) ≡ false = ground arith in
    rw (eqb_ℤ-ne (s.pids console) no_fork some_console, more) refl

console_kept :
    (i p : ℕ) (s : Init)
    → (0 < i → s.pids console ≢ no_fork)
    → (with_child i p s).pids console ≢ no_fork
console_kept i p s h = elim (ℕ_discrete i console) [
  | yes e ↦ λ q. cc (update_same s.pids i (pos p))
  | no e ↦ λ q. h (omega arith) (sym (update_other s.pids i console (pos p) (λ x. e (sym x))) ∙ q)
]

-- Rounds that each start a process.
boot_waits :
    (rounds i : ℕ) (forks : ℕ → Forked) (p : ℕ → ℕ) (s : Init)
    → 0 < rounds
    → i + rounds ≡ 4
    → (0 < i → s.pids console ≢ no_fork)
    → ((j : ℕ) → i ≤ j → forks j ≡ returned (pos (p j)))
    → (t : Init) × (boot rounds i forks s ≡ waiting t) × Started i rounds p s t
unfolding boot
boot_waits zero i forks p s more sum h each = absurd (omega arith)
boot_waits (suc zero) i forks p s more sum h each =
    let t = with_child i (p i) s in
    let last : (i == max_terminal) ≡ true = ground arith in
    (
      t,
      rw
          (
            each i (omega arith),
            start_child i (p i) s,
            last,
            begin_waits t (console_kept i (p i) s h) (omega arith),
          )
          refl,
      record {
        counted = refl;
        started = λ j lo hi. let e : j ≡ i = omega arith in rw e (update_same s.pids i (pos (p i)));
        kept = λ j lt. update_other s.pids i j (pos (p i)) (λ e. omega arith);
      },
    )
boot_waits (suc (suc r)) i forks p s more sum h each =
    let u = with_child i (p i) s in
    let (t, run, st) =
      boot_waits (suc r) (i + 1) forks p u (omega arith) (omega arith)
        (λ lt. console_kept i (p i) s h) (λ j lo. each j (omega arith)) in
    let last : (i == max_terminal) ≡ false = ground arith in
    let counted = st.counted in
    (
      t,
      rw (each i (omega arith), start_child i (p i) s, last) run,
      record {
        counted = omega arith;
        started = λ j lo hi. elim (ℕ_discrete j i) [
          | yes e ↦ rw e (st.kept i (omega arith) ∙ update_same s.pids i (pos (p i)))
          | no e ↦ st.started j (omega arith) (omega arith)
        ];
        kept = λ j lt.
            st.kept j (omega arith) ∙ update_other s.pids i j (pos (p i)) (λ e. omega arith);
      },
    )

-- In a child of init whose Exec fails for a terminal before the last one, the loop goes on: if the
-- console was started or is the terminal and each later Fork gives a positive pid, this child
-- becomes a second init in Wait, with processes of its own on all later terminals, NOEXEC in the
-- slot of its own terminal and the pids of its siblings in those before.
pub second_init :
    (i rounds : ℕ) (forks : ℕ → Forked) (p : ℕ → ℕ) (exec : ℕ → Exec) (s : Init)
    → 0 < rounds
    → i + suc rounds ≡ 4
    → (0 < i → s.pids console ≢ no_fork)
    → forks i ≡ fork_child (pos 0) fails
    → ((j : ℕ) → i < j → (0 < p j) × (forks j ≡ fork_child (pos (p j)) (exec j)))
    → (t : Init) × (boot (suc rounds) i forks s ≡ waiting t)
      × (t.pids i ≡ no_exec)
      × (t.child_cnt ≡ s.child_cnt + rounds)
      × ((j : ℕ) → i < j → j < 4 → t.pids j ≡ pos (p j))
      × ((j : ℕ) → j < i → t.pids j ≡ s.pids j)
unfolding boot start switched fork_child
second_init i rounds forks p exec s more sum h here each =
    let u : Init = record s { pids = update s.pids i no_exec } in
    let some_console : u.pids console ≢ no_fork = elim (ℕ_discrete i console) [
      | yes e ↦ λ q. cc (update_same s.pids i no_exec)
      | no e ↦
          λ q. h (omega arith) (sym (update_other s.pids i console no_exec (λ x. e (sym x))) ∙ q)
    ] in
    let (t, run, st) =
      boot_waits rounds (i + 1) forks p u more (omega arith) (λ lt. some_console)
        (λ j lo. let (lt, e) = each j (omega arith) in e ∙ fork_child_some (p j) (exec j) lt) in
    let last : (i == max_terminal) ≡ false = ground arith in
    (
      t,
      rw (here, last) run,
      st.kept i (omega arith) ∙ update_same s.pids i no_exec,
      st.counted,
      λ j lo hi. st.started j (omega arith) (omega arith),
      λ j lt. st.kept j (omega arith) ∙ update_other s.pids i j no_exec (λ e. omega arith),
    )
