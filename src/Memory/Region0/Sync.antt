-- ===== src/Memory/Region0/Sync.antt =====
-- What `SyncKernelBrkBeforeVM` maps.
use yalnix_os_project.Base.{
  ℕ, ◌+◌, ◌-◌, ◌≤◌, ◌<◌, ◌≡◌, ◌≢◌, refl, ap, ◌∙◌, false, ◌==◌, if◌then◌else◌, within, arith,
}
use yalnix_os_project.Base.Int.{pos}
use yalnix_os_project.Base.Loops.{for_range, for_range_inv}
use yalnix_os_project.Machine.{Status, max_pt_len, null}
use yalnix_os_project.Memory.State.{Memory, frame_used}
use yalnix_os_project.Memory.Paging.{map_page}
use yalnix_os_project.Memory.Frames.Alloc.{with_byte, mark_frame_used_in}
use yalnix_os_project.Memory.Paging.{mapping, write_pte}
use yalnix_os_project.Memory.Paging.Laws.{map_page_in}
use yalnix_os_project.Memory.Brk.{read_write}
use yalnix_os_project.Memory.Region0.{sync_page, sync_kernel_brk_before_vm}

-- `m'` is `m` with the pages of `[low, high)` mapped to the frames of their own numbers, and
-- those frames marked.
pub record Synced (pt low : ℕ) (m : Memory) (high : ℕ) (m' : Memory) : Type 0 where
  pub rest : m' ≡ record m { frames = m'.frames; tables = m'.tables }
  pub total : m'.frames.total_frames ≡ m.frames.total_frames
  pub bytes :
      (i : ℕ) → m'.frames.bitmap i ≡ (if within low high i then frame_used else m.frames.bitmap i)
  pub others : (a : ℕ) → a ≢ pt → m'.tables a ≡ m.tables a
  pub entries :
      (v : ℕ) → m'.tables pt v ≡ (if within low high v then mapping v read_write else m.tables pt v)

abbrev synced_page : ℕ → ℕ → Memory → Memory
synced_page pt v t =
    write_pte pt v (mapping v read_write) (record t { frames = with_byte t.frames v frame_used })

sync_page_in :
    (pt v : ℕ) (t : Memory)
    → pt ≢ null
    → v < max_pt_len
    → v < t.frames.total_frames
    → sync_page pt v t ≡ synced_page pt v t
unfolding sync_page
sync_page_in pt v t ne top real =
    ap (λ s. (map_page pt (pos v) (pos v) read_write (record t { frames = s })).1)
      (mark_frame_used_in t.frames v real)
    ∙ ap (λ (r : Status × Memory). r.1)
        (map_page_in pt v v read_write (record t { frames = with_byte t.frames v frame_used }) ne
          top real)

Synced-page :
    (pt low : ℕ) (m : Memory) (v : ℕ) (t : Memory)
    → low ≤ v
    → Synced pt low m v t
    → Synced pt low m (v + 1) (synced_page pt v t)
Synced-page pt low m v t h s = record {
  rest =
      ap
        (λ (x : Memory). record x {
          frames = (synced_page pt v t).frames;
          tables = (synced_page pt v t).tables;
        })
        s.rest;
  total = s.total;
  bytes = λ i. ground (arith, s.bytes i);
  others = λ a ne. ground (arith, s.others a);
  entries = λ x. ground (arith, s.entries x);
}

sync_loop-Synced :
    (pt low high : ℕ) (m : Memory)
    → pt ≢ null
    → low ≤ high
    → high ≤ max_pt_len
    → high ≤ m.frames.total_frames
    → Synced pt low m high (for_range (high - low) low (sync_page pt) m)
sync_loop-Synced pt low high m ne le top real =
    for_range_inv (Synced pt low m) (sync_page pt) (high - low) low high m (omega arith)
      (λ v t l h s.
        let total = s.total in
        rw (sync_page_in pt v t ne (omega arith) (omega arith)) (Synced-page pt low m v t l s))
      (record {
        rest = refl;
        total = refl;
        bytes = λ i. ground arith;
        others = λ a na. refl;
        entries = λ v. ground arith;
      })

-- The memory manager after `SyncKernelBrkBeforeVM`.
pub record SyncedBrk (pt : ℕ) (m m' : Memory) : Type 0 where
  pub rest : m' ≡ record m {
    frames = m'.frames;
    region0_page_table = pt;
    kernel_brk_page = m.requested_kernel_brk_page;
    tables = m'.tables;
  }
  pub total : m'.frames.total_frames ≡ m.frames.total_frames
  pub bytes :
      (i : ℕ)
      → m'.frames.bitmap i ≡ (
          if within m.kernel_brk_page m.requested_kernel_brk_page i
          then frame_used
          else m.frames.bitmap i)
  pub others : (a : ℕ) → a ≢ pt → m'.tables a ≡ m.tables a
  pub entries :
      (v : ℕ)
      → m'.tables pt v ≡ (
          if within m.kernel_brk_page m.requested_kernel_brk_page v
          then mapping v read_write
          else m.tables pt v)

-- For a table that is not NULL, at least as many frames as a table has entries, and a requested
-- break that is not below the kernel break nor beyond the table, SyncKernelBrkBeforeVM maps
-- exactly the pages between the kernel break and the requested one, each to the frame of its own
-- number, marks those frames, sets the break and the table pointer, and leaves other tables,
-- entries and frames alone.
pub sync_kernel_brk_before_vm-SyncedBrk :
    (pt : ℕ) (m : Memory)
    → pt ≢ null
    → m.kernel_brk_page ≤ m.requested_kernel_brk_page
    → m.requested_kernel_brk_page ≤ max_pt_len
    → max_pt_len ≤ m.frames.total_frames
    → SyncedBrk pt m (sync_kernel_brk_before_vm pt m)
unfolding sync_kernel_brk_before_vm
sync_kernel_brk_before_vm-SyncedBrk pt m ne le top real =
    let set : (pt == null) ≡ false = ground arith in
    let start : Memory = record m { region0_page_table = pt } in
    let mapped : Memory =
      for_range (m.requested_kernel_brk_page - m.kernel_brk_page) m.kernel_brk_page (sync_page pt)
        start in
    let s =
      sync_loop-Synced pt m.kernel_brk_page m.requested_kernel_brk_page start ne le top
        (omega arith) in
    rw set (record {
      rest =
          ap
            (λ (x : Memory). record x {
              frames = mapped.frames;
              kernel_brk_page = x.requested_kernel_brk_page;
              tables = mapped.tables;
            })
            s.rest;
      total = s.total;
      bytes = s.bytes;
      others = s.others;
      entries = s.entries;
    })
