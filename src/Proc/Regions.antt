-- ===== src/Proc/Regions.antt =====
-- The search for the mapped region of an address, which UserTrap() (kern/trap/trap.cpp) and sys_munmap()
-- (kern/syscall/syscallfile.cpp) write out.
use page_fault_os_for_risc_v.Prelude.{
  ℕ, zero, suc, ◌+◌, Bool, false, ◌&&◌, Option, none, some, ltb, leb, if◌then◌else◌,
}
use page_fault_os_for_risc_v.Kernel.{Vma}
use page_fault_os_for_risc_v.Mm.Layout.{u64}
use page_fault_os_for_risc_v.Proc.Exit.{widen}

-- addr >= vma->addr && addr < vma->addr + vma->length
abbrev pub holds : Vma → ℕ → Bool
holds v a = leb v.addr a && ltb a (u64 (v.addr + widen v.length))

abbrev pub region_holds : (ℕ → Vma) → (v a : ℕ) → Bool
region_holds t zero a = false
region_holds t (suc v) a = holds (t v) a

-- The first slot from `slot` on whose region holds the address.
unfoldable pub find_region : (n slot : ℕ) → (ℕ → ℕ) → (ℕ → Vma) → (a : ℕ) → Option ℕ
find_region zero slot vma t a = none
find_region (suc n) slot vma t a =
    let rest = find_region n (slot + 1) vma t a in
    if region_holds t (vma slot) a then some slot else rest
