-- ===== src/Machine.antt =====
-- include/hardware.h and include/ykernel.h: the constants, the page table entry, the registers and
-- the user context of the machine. Pointers and machine words are 32 bits wide, kept as numbers.
use yalnix_os_project.Base.{ℕ, ◌+◌, ◌-◌, ◌*◌, ◌/◌, ◌%◌, ◌^◌, if◌then◌else◌, ltb}
use yalnix_os_project.Base.Int.{ℤ, pos, negsuc}

abbrev pub word : ℕ
word = 2 ^ 32

abbrev pub page_size : ℕ
page_size = 0x2000

abbrev pub page_shift : ℕ
page_shift = 13

-- Both regions are one megabyte.
abbrev pub vmem_region_size : ℕ
vmem_region_size = 0x100000

abbrev pub vmem_0_limit : ℕ
vmem_0_limit = vmem_region_size

abbrev pub vmem_1_base : ℕ
vmem_1_base = vmem_0_limit

abbrev pub vmem_1_limit : ℕ
vmem_1_limit = vmem_1_base + vmem_region_size

abbrev pub max_pt_len : ℕ
max_pt_len = vmem_region_size / 2 ^ page_shift

abbrev pub max_pmem_size : ℕ
max_pmem_size = 16 * (2 * vmem_region_size)

abbrev pub min_pmem_size : ℕ
min_pmem_size = vmem_region_size

-- `UP_TO_PAGE` on a 32-bit `long`: the sum wraps, then the low bits are cleared.
unfoldable pub up_to_page : ℕ → ℕ
up_to_page n = (n + (page_size - 1)) % word / page_size * page_size

unfoldable pub down_to_page : ℕ → ℕ
down_to_page n = n / page_size * page_size

abbrev pub kernel_stack_limit : ℕ
kernel_stack_limit = vmem_0_limit

abbrev pub kernel_stack_maxsize : ℕ
kernel_stack_maxsize = 2 * page_size

abbrev pub kernel_stack_base : ℕ
kernel_stack_base = (kernel_stack_limit - kernel_stack_maxsize) / page_size * page_size

-- `n >> PAGESHIFT` on a word that is read as a signed `long`; `n` is a multiple of the page size.
unfoldable pub page_of_word : ℕ → ℤ
page_of_word n =
    if ltb n (2 ^ 31) then pos (n / 2 ^ page_shift) else negsuc ((word - n) / 2 ^ page_shift - 1)

abbrev pub prot_none : ℕ
prot_none = 0

abbrev pub prot_read : ℕ
prot_read = 1

abbrev pub prot_write : ℕ
prot_write = 2

abbrev pub prot_exec : ℕ
prot_exec = 4

-- `struct pte`: bit fields of 1, 3 and 24 bits.
pub record Pte : Type 0 where
  pub valid : ℕ
  pub prot : ℕ
  pub pfn : ℕ

abbrev pub null : ℕ
null = 0

-- `struct user_context`; `regs` are the eight general registers.
pub record UserContext : Type 0 where
  pub vector : ℕ
  pub code : ℕ
  pub addr : ℕ
  pub pc : ℕ
  pub sp : ℕ
  pub ebp : ℕ
  pub regs : ℕ → ℕ

pub data Register : Type 0 where
  vector_base vm_enable tlb_flush ptbr0 ptlr0 ptbr1 ptlr1 : Register

-- -1 and -2 as the `unsigned int` that `WriteRegister` takes.
abbrev pub tlb_flush_all : ℕ
tlb_flush_all = word - 1

abbrev pub tlb_flush_0 : ℕ
tlb_flush_0 = word - 2

-- `ERROR`, -1, stored in an unsigned word.
abbrev pub error_word : ℕ
error_word = word - 1

-- `SUCCESS` and `ERROR`.
pub data Status : Type 0 where
  success error : Status
