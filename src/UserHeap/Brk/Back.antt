-- ===== src/UserHeap/Brk/Back.antt =====
-- libc.c: `sbrk` by an amount and back again.
use yalnix_os_project.Base.{
  ℕ, zero, suc, ◌+◌, ◌-◌, ◌*◌, ◌/◌, ◌%◌, ◌<◌, ◌≡◌, refl, true, false, ◌==◌, if◌then◌else◌, Bool,
  arith,
}
use yalnix_os_project.Machine.{success, word, up_to_page}
use yalnix_os_project.UserHeap.State.{UserHeap, Link, add32}
use yalnix_os_project.UserHeap.Brk.{brk_unlocked, sbrk, sbrk_result}

abbrev pub Grants : Link → Type 0
Grants link = (t : UserHeap) (addr : ℕ) → link.sys_brk t addr ≡ 0

abbrev pub with_break : UserHeap → ℕ → UserHeap
with_break s addr = record s { current_break = addr }

-- `sbrk(n)` and then `sbrk(-n)`, so many times.
unfoldable pub there_and_back : Link → ℕ → ℕ → UserHeap → UserHeap
there_and_back link zero n s = s
there_and_back link (suc times) n s =
    there_and_back link times n (sbrk link (word - n) (sbrk link n s).1).1

same_branch {ℓ} : {A : Type ℓ} (b : Bool) (x : A) → (if b then x else x) ≡ x
same_branch true x = refl
same_branch false x = refl

module _ (link : Link) (granted : Grants link) where
  brk_unlocked_lem :
      (s : UserHeap) (addr : ℕ)
      → brk_unlocked link addr s ≡ (success, with_break s ((addr + 7) % word / 8 * 8))
  unfolding brk_unlocked
  brk_unlocked_lem s addr =
      let page = up_to_page ((addr + 7) % word / 8 * 8) in
      let grant : (link.sys_brk s page == 0) ≡ true = rw (granted s page) refl in
      rw grant (same_branch (page == up_to_page s.current_break) _)

  pub sbrk_lem :
      (s : UserHeap) (incr : ℕ)
      → 0 < incr
      → sbrk link incr s
        ≡ (s.current_break, with_break s ((add32 s.current_break incr + 7) % word / 8 * 8))
  unfolding sbrk sbrk_result
  sbrk_lem s incr more =
      let some_incr : (incr == 0) ≡ false = ground arith in
      rw (some_incr, brk_unlocked_lem s (add32 s.current_break incr)) refl

  round_lem :
      (s : UserHeap) (n : ℕ)
      → s.current_break % 8 ≡ 0
      → 0 < n
      → s.current_break + n + 8 < word
      → (sbrk link (word - n) (sbrk link n s).1).1
        ≡ with_break s (s.current_break + (if n % 8 == 0 then 0 else 8))
  round_lem s n even more small =
      let up : (add32 s.current_break n + 7) % word / 8 * 8 ≡ (s.current_break + n + 7) / 8 * 8 =
        omega arith in
      let back : (add32 ((s.current_break + n + 7) / 8 * 8) (word - n) + 7) % word / 8 * 8
          ≡ s.current_break + (if n % 8 == 0 then 0 else 8) =
        ground arith in
      rw
        (
          sbrk_lem s n more,
          up,
          sbrk_lem (with_break s ((s.current_break + n + 7) / 8 * 8)) (word - n) (omega arith),
          back,
        )
        refl

  -- With a kernel that grants every break, a break that is a multiple of 8 and room below 2^32,
  -- any number of sbrk(n), each followed by sbrk(-n), changes nothing but the break: it is back
  -- where it was if n is a multiple of 8, and otherwise 8 bytes higher for each of them.
  pub sbrk_there_and_back :
      (times n : ℕ) (s : UserHeap)
      → s.current_break % 8 ≡ 0
      → 0 < n
      → s.current_break + 8 * times + n < word
      → there_and_back link times n s
        ≡ with_break s (s.current_break + (if n % 8 == 0 then 0 else 8 * times))
  unfolding there_and_back
  sbrk_there_and_back zero n s even more small =
      let none : s.current_break + (if n % 8 == 0 then 0 else 8 * 0) ≡ s.current_break =
        ground arith in
      rw none refl
  sbrk_there_and_back (suc times) n s even more small =
      let next = with_break s (s.current_break + (if n % 8 == 0 then 0 else 8)) in
      let rest = sbrk_there_and_back times n next (ground arith) more (ground arith) in
      let sum : s.current_break
            + (if n % 8 == 0 then 0 else 8)
            + (if n % 8 == 0 then 0 else 8 * times)
          ≡ s.current_break + (if n % 8 == 0 then 0 else 8 * suc times) =
        ground arith in
      rw (round_lem s n even more (omega arith), rest, sum) refl
