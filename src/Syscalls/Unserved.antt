-- ===== src/Syscalls/Unserved.antt =====
-- The heap of a program whose kernel has refused its first break, at the checks around its calls.
use mathlib.Core.Path.{subst}
use yalnix_os_project.Base.{
  ℕ, ◌-◌, ◌<◌, ◌≡◌, ◌≢◌, ◌∙◌, sym, ap, refl, Bool, not, false, true, some, ◌==◌, update_same,
  if◌then◌else◌, arith,
}
use yalnix_os_project.Machine.{null, word}
use yalnix_os_project.UserHeap.State.{UserHeap, Link, Block, header_size}
use yalnix_os_project.UserHeap.Brk.{free_header}
use yalnix_os_project.UserHeap.Alloc.{fuel_of}
use yalnix_os_project.UserHeap.Block.{sanity_check}
use yalnix_os_project.UserHeap.Serve.{if_not}
use yalnix_os_project.UserHeap.Init.{FirstBreak, first_page, hollow, init_heap_refused}
use yalnix_os_project.UserHeap.Usage.{Usage, no_usage, tally, check_loop, helper_check_heap}
use yalnix_os_project.Syscalls.{Trap, Call, request, checked_call}

-- A heap of length 0 with its one block.
pub record Hollow (s : UserHeap) : Type 0 where
  pub ready : s.not_initialized ≡ false
  pub pos : 0 < s.heap_start
  pub empty : s.heap_end ≡ s.heap_start
  pub block : s.blocks s.heap_start ≡ free_header (word - header_size)

pub hollow-Hollow : (s : UserHeap) → FirstBreak s → Hollow (hollow s)
hollow-Hollow s b = record {
  ready = refl;
  pos = b.pos;
  empty = refl;
  block = update_same s.blocks s.current_break (free_header (word - header_size));
}

-- The check passes over the one block.
check_loop-Hollow :
    (s : UserHeap)
    → Hollow s
    → (u : Usage) × (check_loop (fuel_of s) s.heap_start no_usage s ≡ some (u, s))
unfolding check_loop sanity_check tally
check_loop-Hollow s h =
    let pos = h.pos in
    let empty = h.empty in
    let enough : fuel_of s ≡ 2 = omega arith in
    let here : (s.heap_start == null) ≡ false = ground arith in
    let same : (s.heap_start == s.heap_end) ≡ true = ground arith in
    let last : (s.blocks s.heap_start).next ≡ null = ap (λ (x : Block). x.next) h.block in
    (tally (s.blocks s.heap_start) no_usage, rw (enough, here, same, last) refl)

-- The heap of a program that has got no memory: not set up yet, or of length 0.
pub data Unserved (s : UserHeap) : Type 0 where
  fresh : FirstBreak s → s.not_initialized ≡ true → Unserved s
  hollowed : Hollow s → Unserved s

-- What such a program does with its memory: it writes its own bytes, and it makes system calls.
pub data Reached (link : Link) (trap : Trap) (s : UserHeap) : UserHeap → Type 0 where
  at_entry : Reached link trap s s
  writes :
      (t : UserHeap) (bytes : ℕ → ℕ)
      → Reached link trap s t
      → Reached link trap s (record t { bytes = bytes })
  calls :
      (t u : UserHeap) (c : Call) (answer : ℕ)
      → Reached link trap s t
      → checked_call link trap c t ≡ some (answer, u)
      → Reached link trap s u

writes-Unserved :
    (t : UserHeap) (bytes : ℕ → ℕ) → Unserved t → Unserved (record t { bytes = bytes })
writes-Unserved t bytes (fresh b e) = fresh (record { pos = b.pos; low = b.low }) e
writes-Unserved t bytes (hollowed h) =
    hollowed (record { ready = h.ready; pos = h.pos; empty = h.empty; block = h.block })

fresh_lem :
    {A : Type 0} (b user : Bool) (x y z : A)
    → b ≡ true
    → user ≡ true
    → (if not b then x else if user then y else z) ≡ y
fresh_lem b user x y z e f = rw (e, f) refl

pub some_inj : (x y : ℕ × UserHeap) → some x ≡ some y → x ≡ y
some_inj x y e = cc

module _ (link : Link) (trap : Trap) (user : link.user_lib ≡ true)
    (denied : (t : UserHeap) (addr : ℕ) → link.sys_brk t addr ≢ 0) where
  helper_check_heap-Hollow :
      (s : UserHeap) → Hollow s → (u : Usage) × (helper_check_heap link s ≡ some (u, s))
  unfolding helper_check_heap
  helper_check_heap-Hollow s h =
      let (u, run) = check_loop-Hollow s h in (u, if_not s.not_initialized _ _ h.ready ∙ run)

  helper_check_heap-Unserved :
      (s : UserHeap)
      → Unserved s
      → (u : Usage) × (t : UserHeap) × (helper_check_heap link s ≡ some (u, t)) × Hollow t
  unfolding helper_check_heap
  helper_check_heap-Unserved s (hollowed h) =
      let (u, run) = helper_check_heap-Hollow s h in (u, s, run, h)
  helper_check_heap-Unserved s (fresh b e) =
      let h = hollow-Hollow s b in
      let (u, run) = check_loop-Hollow (hollow s) h in
      let set_up = init_heap_refused link s b (denied s (first_page s)) in
      (
        u,
        hollow s,
        fresh_lem s.not_initialized link.user_lib _ _ _ e user
            ∙ ap (λ t. check_loop (fuel_of t) t.heap_start no_usage t) set_up
            ∙ run,
        h,
      )

  pub checked_call-Unserved :
      (c : Call) (s : UserHeap)
      → Unserved s
      → (t : UserHeap) × (checked_call link trap c s ≡ some (trap (request c), t)) × Hollow t
  unfolding checked_call
  checked_call-Unserved c s h =
      let (u, t, before, hollow_t) = helper_check_heap-Unserved s h in
      let (v, after) = helper_check_heap-Hollow t hollow_t in
      (t, rw (checked_call, before, after) refl, hollow_t)

  pub Reached-Unserved :
      (s t : UserHeap)
      → FirstBreak s
      → s.not_initialized ≡ true
      → Reached link trap s t
      → Unserved t
  Reached-Unserved s t b e at_entry = fresh b e
  Reached-Unserved s t b e (writes x bytes r) = writes-Unserved x bytes (Reached-Unserved s x b e r)
  Reached-Unserved s t b e (calls x u c answer r called) =
      let (v, run, h) = checked_call-Unserved c x (Reached-Unserved s x b e r) in
      let same = some_inj (trap (request c), v) (answer, u) (sym run ∙ called) in
      hollowed (subst Hollow (ap (λ (y : ℕ × UserHeap). y.1) same) h)
