-- ===== src/Memory/Paging/Laws.antt =====
-- What `MapPage` does on each branch, and the page that `AddrToVpn` computes.
use yalnix_os_project.Base.{ℕ, ◌+◌, ◌-◌, ◌/◌, ◌^◌, ◌≤◌, ◌<◌, ◌≡◌, ◌≢◌, arith}
use yalnix_os_project.Base.Int.{pos}
use yalnix_os_project.Machine.{success, max_pt_len, null, page_size}
use yalnix_os_project.Memory.State.{Memory}
use yalnix_os_project.Memory.Paging.{addr_to_vpn, map_page, mapping, write_pte}

pub map_page_in :
    (pt vpn pfn prot : ℕ) (m : Memory)
    → pt ≢ null
    → vpn < max_pt_len
    → pfn < m.frames.total_frames
    → map_page pt (pos vpn) (pos pfn) prot m ≡ (success, write_pte pt vpn (mapping pfn prot) m)
unfolding map_page
map_page_in pt vpn pfn prot m a b c = ground arith

-- An address in the lower half of the address space maps to the page that its last byte needs.
pub addr_to_vpn_low :
    (addr : ℕ)
    → addr + page_size ≤ 2 ^ 31
    → addr_to_vpn addr ≡ pos ((addr + (page_size - 1)) / page_size)
unfolding addr_to_vpn
addr_to_vpn_low addr h = ground arith
