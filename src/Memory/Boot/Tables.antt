-- ===== src/Memory/Boot/Tables.antt =====
-- The region 0 table from `BuildRegion0PageTable` to the end of the boot.
use yalnix_os_project.Base.{ℕ, ◌≤◌, ◌<◌, ◌≡◌, ◌≢◌, refl, ap, ◌∙◌, List, arith}
use yalnix_os_project.Machine.{Pte, Register, max_pt_len, null}
use yalnix_os_project.Panic.{ok}
use yalnix_os_project.Memory.State.{Memory, Layout}
use yalnix_os_project.Memory.Malloc.{Heap, malloc}
use yalnix_os_project.Memory.Region0.{
  page_table_size, fill_region0, build_region0_page_table, sync_kernel_brk_before_vm,
}
use yalnix_os_project.Memory.Region0.Build.{IsLaidOut, Wrote, boot_entry, fill_region0-Wrote}
use yalnix_os_project.Memory.Region0.Sync.{SyncedBrk, sync_kernel_brk_before_vm-SyncedBrk}
use yalnix_os_project.Memory.Boot.{Booting}
use yalnix_os_project.Memory.Boot.Malloc.{malloc-Booting, malloc-Requested}

-- Region 0 has its table at `pt`, and the table is the one of the boot for the current break.
pub record HasRegion0 (l : Layout) (pt : ℕ) (w : List (Register × ℕ)) (m : Memory) : Type 0 where
  pub booting : Booting l m
  pub root : m.region0_page_table ≡ pt
  pub set : pt ≢ null
  pub written : m.writes ≡ w
  pub entries : (v : ℕ) → v < max_pt_len → m.tables pt v ≡ boot_entry l m.kernel_brk_page v

pub Wrote-Booting :
    (l : Layout) (pt : ℕ) (f : ℕ → Pte) (low high : ℕ) (m m' : Memory)
    → Wrote pt f low m high m'
    → Booting l m
    → Booting l m'
Wrote-Booting l pt f low high m m' w b = rw w.only (record {
  off = b.off;
  enough = b.enough;
  bounded = b.bounded;
  brk_low = b.brk_low;
  brk_high = b.brk_high;
  requested_low = b.requested_low;
  requested_high = b.requested_high;
  bytes = b.bytes;
})

-- The state that `BuildRegion0PageTable` returns in, when its allocation succeeds.
abbrev pub built : Layout → Heap → Memory → Memory
built l heap m =
    let (pt, m') = malloc l heap page_table_size m in
    record (fill_region0 l pt m') { region0_page_table = pt }

pub build_region0_page_table-built :
    (l : Layout) (heap : Heap) (m : Memory)
    → (malloc l heap page_table_size m).0 ≢ null
    → build_region0_page_table l heap m ≡ ok ((malloc l heap page_table_size m).0, built l heap m)
unfolding build_region0_page_table
build_region0_page_table-built l heap m ne = ground arith

pub built-HasRegion0 :
    (l : Layout) (heap : Heap) (m : Memory)
    → IsLaidOut l
    → (malloc l heap page_table_size m).0 ≢ null
    → Booting l m
    → HasRegion0 l (malloc l heap page_table_size m).0 m.writes (built l heap m)
built-HasRegion0 l heap m laid ne b =
    let pt : ℕ = (malloc l heap page_table_size m).0 in
    let m' : Memory = (malloc l heap page_table_size m).1 in
    let b' = malloc-Booting l heap page_table_size m b in
    let low = b'.brk_low in
    let high = b'.brk_high in
    let below = laid.data_le_brk in
    let w = fill_region0-Wrote l pt m' laid ne b'.enough (omega arith) (omega arith) in
    let c =
      Wrote-Booting l pt (boot_entry l m'.kernel_brk_page) 0 max_pt_len m' (fill_region0 l pt m') w
        b' in
    let brk : (fill_region0 l pt m').kernel_brk_page ≡ m'.kernel_brk_page =
      ap (λ (x : Memory). x.kernel_brk_page) w.only in
    record {
      booting = record {
        off = c.off;
        enough = c.enough;
        bounded = c.bounded;
        brk_low = c.brk_low;
        brk_high = c.brk_high;
        requested_low = c.requested_low;
        requested_high = c.requested_high;
        bytes = c.bytes;
      };
      root = refl;
      set = ne;
      written =
          ap (λ (x : Memory). x.writes) w.only
          ∙ ap (λ (x : Memory). x.writes) (malloc-Requested l heap page_table_size m b.off).only;
      entries = λ v h. rw brk (ground (arith, w.entries v));
    }

SyncedBrk-HasRegion0 :
    (l : Layout) (pt : ℕ) (w : List (Register × ℕ)) (m m' : Memory)
    → IsLaidOut l
    → m.kernel_brk_page ≤ m.requested_kernel_brk_page
    → HasRegion0 l pt w m
    → SyncedBrk pt m m'
    → HasRegion0 l pt w m'
unfolding boot_entry
SyncedBrk-HasRegion0 l pt w m m' laid le r s =
    let b = r.booting in
    let brk : m'.kernel_brk_page ≡ m.requested_kernel_brk_page =
      ap (λ (x : Memory). x.kernel_brk_page) s.rest in
    let requested : m'.requested_kernel_brk_page ≡ m.requested_kernel_brk_page =
      ap (λ (x : Memory). x.requested_kernel_brk_page) s.rest in
    let low = b.requested_low in
    let high = b.requested_high in
    let total = s.total in
    record {
      booting = record {
        off = ap (λ (x : Memory). x.vm_enabled) s.rest ∙ b.off;
        enough = let h = b.enough in omega arith;
        bounded = let h = b.bounded in omega arith;
        brk_low = omega arith;
        brk_high = omega arith;
        requested_low = omega arith;
        requested_high = omega arith;
        bytes = λ i h. ground (arith, s.bytes i, b.bytes i);
      };
      root = ap (λ (x : Memory). x.region0_page_table) s.rest;
      set = r.set;
      written = ap (λ (x : Memory). x.writes) s.rest ∙ r.written;
      entries = λ v h. ground (arith, s.entries v, r.entries v, laid.data_le_brk, b.brk_low);
    }

-- `SyncKernelBrkBeforeVM` extends the table to the break that the heap has asked for.
pub sync-HasRegion0 :
    (l : Layout) (pt : ℕ) (w : List (Register × ℕ)) (m : Memory)
    → IsLaidOut l
    → m.kernel_brk_page ≤ m.requested_kernel_brk_page
    → HasRegion0 l pt w m
    → HasRegion0 l pt w (sync_kernel_brk_before_vm pt m)
sync-HasRegion0 l pt w m laid le r =
    let b = r.booting in
    let high = b.requested_high in
    SyncedBrk-HasRegion0 l pt w m (sync_kernel_brk_before_vm pt m) laid le r
      (sync_kernel_brk_before_vm-SyncedBrk pt m r.set le (omega arith) b.enough)
