-- ===== src/Mm/Layout.antt =====
-- The constants and macros of kern/libs/riscv.h and kern/mm/memlayout.h (the K210 build), on 64-bit
-- words: `& ~(PGSIZE - 1)` is rounding to a multiple, `>>` and `<<` are `/` and `*`.
use page_fault_os_for_risc_v.Prelude.{
  ℕ, ◌+◌, ◌-◌, ◌*◌, ◌/◌, ◌%◌, ◌^◌, Bool, ◌==◌, leb, ◌&&◌, if◌then◌else◌,
}
use page_fault_os_for_risc_v.Kernel.{Memory}

abbrev pub u64 : ℕ → ℕ
u64 n = n % 2 ^ 64

abbrev pub page_size : ℕ
page_size = 4096

abbrev pub phys_stop : ℕ
phys_stop = 0x80600000

-- PGROUNDDOWN
abbrev pub page_round_down : ℕ → ℕ
page_round_down a = a / page_size * page_size

-- PGROUNDUP; the sum wraps.
abbrev pub page_round_up : ℕ → ℕ
page_round_up a = u64 (a + page_size - 1) / page_size * page_size

-- memset(pa, c, PGSIZE) for the byte `c`, at an address that is a multiple of eight.
unfoldable pub fill_page : Memory → ℕ → ℕ → Memory
fill_page m pa c a =
    if leb pa a && leb (a + 1) (pa + page_size) then c * 0x0101010101010101 else m a

-- MAXVA
abbrev pub max_va : ℕ
max_va = 2 ^ 38

-- PX(level, va)
abbrev pub px : ℕ → ℕ → ℕ
px level va = va / 2 ^ (12 + 9 * level) % 512

-- The flags PTE_R to PTE_U.
abbrev pub flag_r : ℕ
flag_r = 2

abbrev pub flag_w : ℕ
flag_w = 4

abbrev pub flag_x : ℕ
flag_x = 8

abbrev pub flag_u : ℕ
flag_u = 16

-- pte & PTE_V, pte & PTE_U, and pte & (PTE_R | PTE_W | PTE_X)
abbrev pub is_valid : ℕ → Bool
is_valid pte = pte % 2 == 1

abbrev pub is_user : ℕ → Bool
is_user pte = pte / 16 % 2 == 1

abbrev pub is_table : ℕ → Bool
is_table pte = is_valid pte && (pte / 2 % 8 == 0)

-- pte & ~PTE_U
abbrev pub clear_user : ℕ → ℕ
clear_user pte = pte - pte / 16 % 2 * 16

-- PAGE2PTE, PTE2PAGE and PTE_FLAGS
abbrev pub page_to_pte : ℕ → ℕ
page_to_pte pa = pa / 4096 * 1024

abbrev pub pte_to_page : ℕ → ℕ
pte_to_page pte = u64 (pte / 1024 * 4096)

abbrev pub pte_flags : ℕ → ℕ
pte_flags pte = pte % 1024

-- PAGE2PTE(pa) | perm | PTE_V, for the `perm` below 1024 that the code passes.
abbrev pub leaf_pte : ℕ → ℕ → ℕ
leaf_pte pa perm = page_to_pte pa + perm / 2 * 2 + 1

-- MAXUVA, VKSTACK, TRAMPOLINE and TRAPFRAME
abbrev pub max_uva : ℕ
max_uva = 0x80000000

abbrev pub vkstack : ℕ
vkstack = 0x3ec0000000

abbrev pub trampoline : ℕ
trampoline = max_va - page_size

abbrev pub trapframe : ℕ
trapframe = trampoline - page_size
