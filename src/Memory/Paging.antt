-- ===== src/Memory/Paging.antt =====
-- memory.c: page table entries, `MapPage` and the rounding of addresses.
pub mod Laws
use yalnix_os_project.Base.{ℕ, ◌^◌, ◌%◌, Bool, ◌||◌, ◌==◌, if◌then◌else◌, update}
use yalnix_os_project.Base.Int.{ℤ, pos, pos_part, ltb_ℤ, leb_ℤ}
use yalnix_os_project.Machine.{
  Pte, Status, success, error, max_pt_len, null, page_of_word, prot_none, up_to_page,
}
use yalnix_os_project.Memory.State.{Memory}
use yalnix_os_project.Memory.Frames.{outside}

-- The first page at or above an address, as a C `int`.
unfoldable pub addr_to_vpn : ℕ → ℤ
unfolding up_to_page page_of_word
addr_to_vpn addr = page_of_word (up_to_page addr)

-- `pt[vpn] = entry`
abbrev pub write_pte : ℕ → ℕ → Pte → Memory → Memory
write_pte pt vpn entry m = record m { tables = update m.tables pt (update (m.tables pt) vpn entry) }

abbrev pub empty_pte : Pte
empty_pte = record { valid = 0; prot = prot_none; pfn = 0 }

unfoldable pub clear_pte : ℕ → ℕ → Memory → Memory
clear_pte pt vpn m = write_pte pt vpn empty_pte m

-- An entry as the bit fields hold it.
abbrev pub mapping : ℕ → ℕ → Pte
mapping pfn prot = record { valid = 1; prot = prot % 2 ^ 3; pfn = pfn % 2 ^ 24 }

-- `vpn < 0 || vpn >= MAX_PT_LEN`
abbrev pub no_such_page : ℤ → Bool
no_such_page vpn = ltb_ℤ vpn (pos 0) || leb_ℤ (pos max_pt_len) vpn

unfoldable pub map_page : ℕ → ℤ → ℤ → ℕ → Memory → Status × Memory
map_page pt vpn pfn prot m =
    if pt == null
    then (error, m)
    else if no_such_page vpn
    then (error, m)
    else if outside pfn m.frames
    then (error, m)
    else (success, write_pte pt (pos_part vpn) (mapping (pos_part pfn) prot) m)
