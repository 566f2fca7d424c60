-- ===== src/Memory/Region0/Build.antt =====
-- The table that `BuildRegion0PageTable` fills.
use yalnix_os_project.Base.{
  ℕ, ◌+◌, ◌-◌, ◌≤◌, ◌<◌, ◌≡◌, ◌≢◌, refl, ap, ◌∙◌, ◌||◌, if◌then◌else◌, within, arith,
}
use yalnix_os_project.Base.Loops.{for_range_inv}
use yalnix_os_project.Machine.{Pte, max_pt_len, null}
use yalnix_os_project.Memory.State.{Memory, Layout}
use yalnix_os_project.Memory.Frames.{kstack_first_page, kstack_limit_page}
use yalnix_os_project.Memory.Paging.{clear_pte, mapping, empty_pte, write_pte}
use yalnix_os_project.Memory.Paging.Laws.{map_page_in}
use yalnix_os_project.Memory.Brk.{read_write}
use yalnix_os_project.Memory.Region0.{read_exec, clear_table, map_identity, fill_region0}

-- `m'` is `m` with the entries of `[low, high)` in the table `pt` as `f` says.
pub record Wrote (pt : ℕ) (f : ℕ → Pte) (low : ℕ) (m : Memory) (high : ℕ) (m' : Memory)
    : Type 0 where
  pub only : m' ≡ record m { tables = m'.tables }
  pub others : (a : ℕ) → a ≢ pt → m'.tables a ≡ m.tables a
  pub entries : (v : ℕ) → m'.tables pt v ≡ (if within low high v then f v else m.tables pt v)

Wrote-refl : (pt : ℕ) (f : ℕ → Pte) (low : ℕ) (m : Memory) → Wrote pt f low m low m
Wrote-refl pt f low m = record { only = refl; others = λ a ne. refl; entries = λ v. ground arith }

-- One more entry.
Wrote-entry :
    (pt : ℕ) (f : ℕ → Pte) (low : ℕ) (m : Memory) (v : ℕ) (t : Memory)
    → low ≤ v
    → Wrote pt f low m v t
    → Wrote pt f low m (v + 1) (write_pte pt v (f v) t)
Wrote-entry pt f low m v t h w = record {
  only = ap (λ (x : Memory). record x { tables = (write_pte pt v (f v) t).tables }) w.only;
  others = λ a ne. ground (arith, w.others a);
  entries = λ x. ground (arith, w.entries x);
}

pub clear_table-Wrote :
    (pt : ℕ) (m : Memory) → Wrote pt (λ _. empty_pte) 0 m max_pt_len (clear_table pt m)
unfolding clear_table clear_pte
clear_table-Wrote pt m =
    for_range_inv (Wrote pt (λ _. empty_pte) 0 m) (clear_pte pt) max_pt_len 0 max_pt_len m
      (omega arith) (λ v t l h w. Wrote-entry pt (λ _. empty_pte) 0 m v t l w)
      (Wrote-refl pt (λ _. empty_pte) 0 m)

abbrev pub identity : ℕ → ℕ → Pte
identity prot v = mapping v prot

pub map_identity-Wrote :
    (pt low high prot : ℕ) (m : Memory)
    → pt ≢ null
    → low ≤ high
    → high ≤ max_pt_len
    → high ≤ m.frames.total_frames
    → Wrote pt (identity prot) low m high (map_identity pt low high prot m)
unfolding map_identity
map_identity-Wrote pt low high prot m ne le top real =
    for_range_inv (Wrote pt (identity prot) low m) _ (high - low) low high m (omega arith)
      (λ v t l h w.
        let total : t.frames.total_frames ≡ m.frames.total_frames =
          ap (λ (x : Memory). x.frames.total_frames) w.only in
        rw (map_page_in pt v v prot t ne (omega arith) (omega arith))
          (Wrote-entry pt (identity prot) low m v t l w))
      (Wrote-refl pt (identity prot) low m)

-- What the loader of the kernel expects of region 0: text that can be executed and not written,
-- then data and heap, then the kernel stack, each page at the frame of its own number.
unfoldable pub boot_entry : Layout → ℕ → ℕ → Pte
boot_entry l brk v =
    if within l.first_kernel_text_page l.first_kernel_data_page v
    then mapping v read_exec
    else if within l.first_kernel_data_page brk v || within kstack_first_page kstack_limit_page v
    then mapping v read_write
    else empty_pte

-- The pages of the kernel lie in order below the kernel stack.
pub record IsLaidOut (l : Layout) : Type 0 where
  pub text_le_data : l.first_kernel_text_page ≤ l.first_kernel_data_page
  pub data_le_brk : l.first_kernel_data_page ≤ l.orig_kernel_brk_page
  pub brk_lt_stack : l.orig_kernel_brk_page < kstack_first_page

only_trans :
    (a b c : Memory)
    → b ≡ record a { tables = b.tables }
    → c ≡ record b { tables = c.tables }
    → c ≡ record a { tables = c.tables }
only_trans a b c p q = q ∙ ap (λ (x : Memory). record x { tables = c.tables }) p

-- For a table that is not NULL, at least as many frames as a table has entries, the kernel's pages
-- in order and the break between its data and the kernel stack, the loops of BuildRegion0PageTable
-- leave text readable and executable, data and heap and the kernel stack readable and writable,
-- each page at the frame of its own number, all other entries empty, and everything outside the
-- table unchanged.
pub fill_region0-Wrote :
    (l : Layout) (pt : ℕ) (m : Memory)
    → IsLaidOut l
    → pt ≢ null
    → max_pt_len ≤ m.frames.total_frames
    → l.first_kernel_data_page ≤ m.kernel_brk_page
    → m.kernel_brk_page ≤ kstack_first_page
    → Wrote pt (boot_entry l m.kernel_brk_page) 0 m max_pt_len (fill_region0 l pt m)
unfolding fill_region0 boot_entry
fill_region0-Wrote l pt m ok ne real lo hi =
    let cleared : Memory = clear_table pt m in
    let c = clear_table-Wrote pt m in
    let c_total : cleared.frames.total_frames ≡ m.frames.total_frames =
      ap (λ (x : Memory). x.frames.total_frames) c.only in
    let text : Memory =
      map_identity pt l.first_kernel_text_page l.first_kernel_data_page read_exec cleared in
    let t =
      map_identity-Wrote pt l.first_kernel_text_page l.first_kernel_data_page read_exec cleared ne
        ok.text_le_data (omega arith) (omega arith) in
    let t_only = only_trans m cleared text c.only t.only in
    let t_total : text.frames.total_frames ≡ m.frames.total_frames =
      ap (λ (x : Memory). x.frames.total_frames) t_only in
    let t_brk : text.kernel_brk_page ≡ m.kernel_brk_page =
      ap (λ (x : Memory). x.kernel_brk_page) t_only in
    let heap : Memory =
      map_identity pt l.first_kernel_data_page text.kernel_brk_page read_write text in
    let h =
      map_identity-Wrote pt l.first_kernel_data_page text.kernel_brk_page read_write text ne
        (omega arith) (omega arith) (omega arith) in
    let h_only = only_trans m text heap t_only h.only in
    let h_total : heap.frames.total_frames ≡ m.frames.total_frames =
      ap (λ (x : Memory). x.frames.total_frames) h_only in
    let k =
      map_identity-Wrote pt kstack_first_page kstack_limit_page read_write heap ne (omega arith)
        (omega arith) (omega arith) in
    record {
      only = only_trans m heap (fill_region0 l pt m) h_only k.only;
      others = λ a na. k.others a na ∙ h.others a na ∙ t.others a na ∙ c.others a na;
      entries = λ v. ground (arith, k.entries v, h.entries v, t.entries v, c.entries v);
    }
