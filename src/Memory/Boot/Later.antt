-- ===== src/Memory/Boot/Later.antt =====
-- The region 0 table while the rest of the boot runs.
use yalnix_os_project.Base.{ℕ, ◌≤◌, ◌<◌, ◌≡◌, ◌≢◌, ap, ◌∙◌, List, arith}
use yalnix_os_project.Machine.{Register, max_pt_len, null}
use yalnix_os_project.Memory.State.{Memory, Layout}
use yalnix_os_project.Memory.Paging.{empty_pte}
use yalnix_os_project.Memory.Brk.Owned.{Owned, Mapped}
use yalnix_os_project.Memory.Malloc.{Heap, malloc}
use yalnix_os_project.Memory.Region0.{page_table_size, clear_table}
use yalnix_os_project.Memory.Region0.Build.{
  IsLaidOut, boot_entry, fill_region0-Wrote, clear_table-Wrote,
}
use yalnix_os_project.Memory.Boot.{Booting}
use yalnix_os_project.Memory.Boot.Malloc.{
  malloc-Booting, malloc-Requested, with_request, with_request-Booting,
}
use yalnix_os_project.Memory.Boot.Tables.{HasRegion0, Wrote-Booting, built}

-- The identity mapping of the boot uses each frame once, and marks what it uses.
pub HasRegion0-Owned :
    (l : Layout) (pt : ℕ) (w : List (Register × ℕ)) (m : Memory)
    → IsLaidOut l
    → HasRegion0 l pt w m
    → Owned m
unfolding boot_entry
HasRegion0-Owned l pt w m laid r =
    let b = r.booting in
    record {
      bounded = b.bounded;
      in_use = λ v h k. ground (
        arith,
        r.root,
        r.entries v h,
        b.bytes v,
        b.enough,
        laid.text_le_data,
        laid.data_le_brk,
        b.brk_low,
      );
      distinct = λ v w hv hw kv kw e. ground (arith, r.root, r.entries v hv, r.entries w hw);
    }

pub HasRegion0-heap :
    (l : Layout) (pt : ℕ) (w : List (Register × ℕ)) (m : Memory)
    → IsLaidOut l
    → HasRegion0 l pt w m
    → (v : ℕ) → l.orig_kernel_brk_page ≤ v
    → v < m.kernel_brk_page
    → Mapped m v
unfolding boot_entry
HasRegion0-heap l pt w m laid r v lo hi =
    let b = r.booting in ground (arith, r.root, r.entries v, b.brk_high, laid.data_le_brk)

-- Building the table leaves the break alone.
pub built-brk :
    (l : Layout) (heap : Heap) (m : Memory)
    → IsLaidOut l
    → (malloc l heap page_table_size m).0 ≢ null
    → Booting l m
    → (built l heap m).kernel_brk_page ≡ m.kernel_brk_page
built-brk l heap m laid ne b =
    let pt : ℕ = (malloc l heap page_table_size m).0 in
    let m' : Memory = (malloc l heap page_table_size m).1 in
    let b' = malloc-Booting l heap page_table_size m b in
    let low = b'.brk_low in
    let high = b'.brk_high in
    let below = laid.data_le_brk in
    ap (λ (x : Memory). x.kernel_brk_page)
      (fill_region0-Wrote l pt m' laid ne b'.enough (omega arith) (omega arith)).only
    ∙ ap (λ (x : Memory). x.kernel_brk_page) (malloc-Requested l heap page_table_size m b.off).only

with_request-HasRegion0 :
    (l : Layout) (pt : ℕ) (w : List (Register × ℕ)) (m : Memory) (page : ℕ)
    → Booting l (with_request m page)
    → HasRegion0 l pt w m
    → HasRegion0 l pt w (with_request m page)
with_request-HasRegion0 l pt w m page b r = record {
  booting = b;
  root = r.root;
  set = r.set;
  written = r.written;
  entries = r.entries;
}

-- Later allocations leave region 0 as it is: a break that they ask for is not mapped.
pub malloc-HasRegion0 :
    (l : Layout) (heap : Heap) (size pt : ℕ) (w : List (Register × ℕ)) (m : Memory)
    → HasRegion0 l pt w m
    → HasRegion0 l pt w (malloc l heap size m).1
malloc-HasRegion0 l heap size pt w m r =
    let b = r.booting in
    let q = malloc-Requested l heap size m b.off in
    rw q.only
      (with_request-HasRegion0 l pt w m q.page (with_request-Booting l m q.page q.range b) r)

-- Nor does the clearing of another table change it.
pub clear_table-HasRegion0 :
    (l : Layout) (pt other : ℕ) (w : List (Register × ℕ)) (m : Memory)
    → pt ≢ other
    → HasRegion0 l pt w m
    → HasRegion0 l pt w (clear_table other m)
clear_table-HasRegion0 l pt other w m ne r =
    let c = clear_table-Wrote other m in
    record {
      booting =
          Wrote-Booting l other (λ _. empty_pte) 0 max_pt_len m (clear_table other m) c r.booting;
      root = ap (λ (x : Memory). x.region0_page_table) c.only ∙ r.root;
      set = r.set;
      written = ap (λ (x : Memory). x.writes) c.only ∙ r.written;
      entries =
          λ v h. rw (c.others pt ne, ap (λ (x : Memory). x.kernel_brk_page) c.only) (r.entries v h);
    }
