-- ===== src/Syscall/Mapping/Unmap.antt =====
-- munmap() of a page that was loaded.
use page_fault_os_for_risc_v.Prelude.{ℕ, ◌%◌, ◌^◌, ◌≡◌, some}
use page_fault_os_for_risc_v.Kernel.{Kernel}
use page_fault_os_for_risc_v.Syscall.Registers.{argument}

module _ (k : Kernel) (i slot a t1 t0 : ℕ) (d : k.cpu.noff ≡ 0) (c : k.current ≡ some i) where
  abbrev addr : ℕ
  addr = argument k i 0

  abbrev sz : ℕ
  sz = argument k i 1 % 2 ^ 32

  abbrev pt : ℕ
  pt = (k.table i).pagetable
