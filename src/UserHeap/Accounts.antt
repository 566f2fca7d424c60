-- ===== src/UserHeap/Accounts.antt =====
-- `helper_check_heap` on a sound heap: it is silent, and its counts add up to the heap.
use yalnix_os_project.Base.{
  ℕ, zero, suc, ◌+◌, ◌*◌, ◌≤◌, ◌<◌, ◌^◌, ◌≡◌, sym, ap, refl, Bool-cases, inl, inr, false, List, [],
  ◌∷◌, Option, some, ◌==◌, if◌then◌else◌, length, arith,
}
use yalnix_os_project.Machine.{null}
use yalnix_os_project.UserHeap.State.{Block, UserHeap, Link, header_size}
use yalnix_os_project.UserHeap.Brk.{init_heap}
use yalnix_os_project.UserHeap.Alloc.{fuel_of}
use yalnix_os_project.UserHeap.Chain.{Cell, Chain, end_of, next_of, Chain-le}
use yalnix_os_project.UserHeap.Sound.{Bounded, sanity_check-Inside, Chain-Inside}
use yalnix_os_project.UserHeap.Serve.{Sound, nonempty, if_not}
use yalnix_os_project.UserHeap.Usage.{Usage, no_usage, tally, check_loop, helper_check_heap}

-- The bytes that the counters account for, headers included.
abbrev accounted : Usage → ℕ
accounted u = u.blocks_seen * header_size + u.free_block_bytes + u.used_block_bytes + u.ifrag_bytes

-- The number of blocks in use.
unfoldable pub in_use : List Cell → ℕ
in_use [] = 0
in_use (c ∷ cs) = (if c.used == 0 then 0 else 1) + in_use cs

-- Counters of a walk that has come from `start` to `a` over `n` blocks, `d` of them in use.
pub record Counted (u : Usage) (start a n d : ℕ) : Type 0 where
  pub total : start + accounted u ≡ a
  pub seen : u.blocks_seen ≡ n
  pub in_use_seen : u.dirty ≡ d
  pub few : d ≤ n

tally-Counted :
    (u : Usage) (start a n d : ℕ) (c : Cell) (b : Block)
    → b.size ≡ c.size
    → b.size_used ≡ c.used
    → a + header_size + c.size < 2 ^ 31
    → c.used ≤ c.size
    → Counted u start a n d
    → Counted (tally b u) start (end_of a c) (n + 1) (d + (if c.used == 0 then 0 else 1))
unfolding tally
tally-Counted u start a n d c b size used low fits h =
    let t = h.total in
    let e = h.seen in
    let g = h.in_use_seen in
    let k = h.few in
    elim (Bool-cases (c.used == 0)) [
      | inl free ↦
          rw (used, free)
            (record {
              total = ground arith;
              seen = omega arith;
              in_use_seen = omega arith;
              few = omega arith;
            })
      | inr busy ↦
          rw (used, busy)
            (record {
              total = omega arith;
              seen = omega arith;
              in_use_seen = omega arith;
              few = omega arith;
            })
    ]

-- The heap as it was, and counters of all blocks that add up to it.
pub data Checked (s : UserHeap) (start n d : ℕ) : Option (Usage × UserHeap) → Type 0 where
  checked : (u : Usage) → Counted u start s.heap_end n d → Checked s start n d (some (u, s))

check_loop-Checked :
    (s : UserHeap) (fuel prev a start n d : ℕ) (cs : List Cell) (u : Usage)
    → Bounded s
    → s.heap_start ≤ a
    → s.heap_end < a + fuel
    → Chain s.blocks prev a cs s.heap_end
    → Counted u start a n d
    → Checked s start (n + length cs) (d + in_use cs) (check_loop fuel (next_of cs a) u s)
unfolding check_loop in_use tally
check_loop-Checked s zero prev a start n d cs u o low enough h t =
    let le = Chain-le s.blocks prev a cs s.heap_end h in absurd (omega arith)
check_loop-Checked s (suc fuel) prev a start n d [] u o low enough h t =
    let x = t.total in
    let y = t.seen in
    let z = t.in_use_seen in
    let k = t.few in
    checked u (record {
      total = omega arith;
      seen = omega arith;
      in_use_seen = omega arith;
      few = omega arith;
    })
check_loop-Checked s (suc fuel) prev a start n d (c ∷ cs) u o low enough h t =
    let quiet =
      sanity_check-Inside s prev a (next_of cs (end_of a c)) c o
        (Chain-Inside s prev a c cs low h) in
    let first = o.start_pos in
    let max = o.end_low in
    let le = Chain-le s.blocks a (end_of a c) cs s.heap_end h.2 in
    let here : (a == null) ≡ false = ground arith in
    let next : (s.blocks a).next ≡ next_of cs (end_of a c) = ap (λ (x : Block). x.next) h.0 in
    let d' = d + (if c.used == 0 then 0 else 1) in
    let n_eq : n + length (c ∷ cs) ≡ n + 1 + length cs = omega arith in
    let d_eq : d + ((if c.used == 0 then 0 else 1) + in_use cs) ≡ d' + in_use cs = omega arith in
    rw (here, quiet, next, n_eq, d_eq)
      (check_loop-Checked s fuel a (end_of a c) start (n + 1) d' cs (tally (s.blocks a) u) o
        (omega arith) (omega arith) h.2
        (tally-Counted u start a n d c (s.blocks a) (ap (λ (x : Block). x.size) h.0)
          (ap (λ (x : Block). x.size_used) h.0) (omega arith) h.1 t))

walk_from :
    (s : UserHeap) (n d fuel bp start : ℕ) (u : Usage) (cs : List Cell)
    → bp ≡ next_of cs s.heap_start
    → Checked s start n d (check_loop fuel (next_of cs s.heap_start) u s)
    → Checked s start n d (check_loop fuel bp u s)
walk_from s n d fuel bp start u cs e h = rw e h

-- On a sound heap helper_check_heap returns, complains of nothing and changes nothing; it counts
-- every block and every block in use, and headers, free, used and fragmented bytes add up to the
-- length of the heap.
pub helper_check_heap-Checked :
    (link : Link) (s : UserHeap) (cs : List Cell)
    → Sound s cs
    → Checked s s.heap_start (length cs) (in_use cs) (helper_check_heap link s)
unfolding helper_check_heap
helper_check_heap-Checked link s cs o =
    let b = o.bounds in
    let lt = b.start_lt_end in
    let first = nonempty s.blocks null s.heap_start cs s.heap_end lt o.chain in
    let walk =
      check_loop-Checked s (fuel_of s) null s.heap_start s.heap_start 0 0 cs no_usage b
        (omega arith) (omega arith) o.chain
        (record { total = omega arith; seen = refl; in_use_seen = refl; few = omega arith }) in
    let zn : 0 + length cs ≡ length cs = omega arith in
    let zd : 0 + in_use cs ≡ in_use cs = omega arith in
    let run = check_loop (fuel_of s) s.heap_start no_usage s in
    let other =
      if link.user_lib
      then (let s' = init_heap link s in check_loop (fuel_of s') s'.heap_start no_usage s')
      else some (no_usage, s) in
    rw (if_not s.not_initialized run other o.ready) (
      walk_from s (length cs) (in_use cs) (fuel_of s) s.heap_start s.heap_start no_usage cs
        (sym first) (rw (sym zn, sym zd) walk))
