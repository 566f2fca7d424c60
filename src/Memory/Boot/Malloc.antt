-- ===== src/Memory/Boot/Malloc.antt =====
-- Before virtual memory is on, an allocation moves nothing but the requested break.
use yalnix_os_project.Base.{
  ℕ, ◌≤◌, ◌<◌, ◌≡◌, refl, ap, ◌∙◌, ◌⊎◌, inl, inr, false, List, [], ◌∷◌, dec_lt, arith,
}
use yalnix_os_project.Base.Int.{ℤ, pos, negsuc}
use yalnix_os_project.Memory.State.{Memory, Layout}
use yalnix_os_project.Memory.Frames.{kstack_first_page}
use yalnix_os_project.Memory.Paging.{addr_to_vpn}
use yalnix_os_project.Memory.Brk.{set_kernel_brk}
use yalnix_os_project.Memory.Malloc.{Heap, set_breaks, malloc}
use yalnix_os_project.Memory.Boot.{Booting}

abbrev pub with_request : Memory → ℕ → Memory
with_request m page = record m { requested_kernel_brk_page = page }

-- The requested break is the old one, or a page in range.
pub record Requested (l : Layout) (m m' : Memory) : Type 0 where
  pub page : ℕ
  pub only : m' ≡ with_request m page
  pub range :
      (page ≡ m.requested_kernel_brk_page)
      ⊎ ((l.orig_kernel_brk_page ≤ page) × (page < kstack_first_page))

Requested-refl : (l : Layout) (m : Memory) → Requested l m m
Requested-refl l m = record { page = m.requested_kernel_brk_page; only = refl; range = inl refl }

Requested-trans :
    (l : Layout) (a b c : Memory) → Requested l a b → Requested l b c → Requested l a c
Requested-trans l a b c p q = record {
  page = q.page;
  only = q.only ∙ ap (λ (x : Memory). with_request x q.page) p.only;
  range =
      let e : b.requested_kernel_brk_page ≡ p.page =
        ap (λ (x : Memory). x.requested_kernel_brk_page) p.only in
      ground (arith, p.range, q.range);
}

request_of :
    (l : Layout) (addr : ℕ) (m : Memory) (z : ℤ)
    → m.vm_enabled ≡ false
    → addr_to_vpn addr ≡ z
    → Requested l m (set_kernel_brk l addr m).1
unfolding set_kernel_brk
request_of l addr m (negsuc n) off e = record {
  page = m.requested_kernel_brk_page;
  only = ground arith;
  range = inl refl;
}
request_of l addr m (pos n) off e = elim (dec_lt n l.orig_kernel_brk_page) [
  | yes low ↦ record { page = m.requested_kernel_brk_page; only = ground arith; range = inl refl }
  | no ge ↦ elim (dec_lt n kstack_first_page) [
    | yes lt ↦ record { page = n; only = ground arith; range = inr (omega arith, lt) }
    | no high ↦ record { page = m.requested_kernel_brk_page; only = ground arith; range = inl refl }
  ]
]

set_breaks-Requested :
    (l : Layout) (addrs : List ℕ) (m : Memory)
    → m.vm_enabled ≡ false
    → Requested l m (set_breaks l addrs m)
unfolding set_breaks
set_breaks-Requested l [] m off = Requested-refl l m
set_breaks-Requested l (addr ∷ rest) m off =
    let m' : Memory = (set_kernel_brk l addr m).1 in
    let r = request_of l addr m (addr_to_vpn addr) off refl in
    Requested-trans l m m' (set_breaks l rest m') r
      (set_breaks-Requested l rest m' (ap (λ (x : Memory). x.vm_enabled) r.only ∙ off))

pub malloc-Requested :
    (l : Layout) (heap : Heap) (size : ℕ) (m : Memory)
    → m.vm_enabled ≡ false
    → Requested l m (malloc l heap size m).1
unfolding malloc
malloc-Requested l heap size m off = set_breaks-Requested l (heap size m).breaks m off

pub with_request-Booting :
    (l : Layout) (m : Memory) (page : ℕ)
    → (page ≡ m.requested_kernel_brk_page)
      ⊎ ((l.orig_kernel_brk_page ≤ page) × (page < kstack_first_page))
    → Booting l m
    → Booting l (with_request m page)
with_request-Booting l m page range b = record {
  off = b.off;
  enough = b.enough;
  bounded = b.bounded;
  brk_low = b.brk_low;
  brk_high = b.brk_high;
  requested_low = let h = b.requested_low in ground arith;
  requested_high = let h = b.requested_high in ground arith;
  bytes = b.bytes;
}

-- An allocation of the boot keeps the state that the next step relies on.
pub malloc-Booting :
    (l : Layout) (heap : Heap) (size : ℕ) (m : Memory)
    → Booting l m
    → Booting l (malloc l heap size m).1
malloc-Booting l heap size m b =
    let r = malloc-Requested l heap size m b.off in
    rw r.only (with_request-Booting l m r.page r.range b)
