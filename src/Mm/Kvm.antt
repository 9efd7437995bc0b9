-- ===== src/Mm/Kvm.antt =====
-- kern/mm/vm.cpp: kvmInit() of the build for the K210, which the kernel's Makefile chooses. `etext` and
-- `tramp` are addresses that the linker chooses. The maps behind `#ifndef K210` are not part of this build.
use page_fault_os_for_risc_v.Prelude.{ℕ, ◌+◌, ◌-◌, ◌^◌}
use page_fault_os_for_risc_v.Kernel.{Kernel}
use page_fault_os_for_risc_v.Kernel.Run.{Cmd, ◌>>=◌, ◌>>◌, modify}
use page_fault_os_for_risc_v.Mm.Layout.{
  u64, page_size, phys_stop, trampoline, flag_r, flag_w, flag_x,
}
use page_fault_os_for_risc_v.Mm.Kalloc.{memset_page, kalloc}
use page_fault_os_for_risc_v.Mm.PageTable.{kvm_map}

-- VIRT_OFFSET, UART, KERNBASE, CLINT and PLIC
abbrev pub virt_offset : ℕ
virt_offset = 0x3f00000000

abbrev pub uart : ℕ
uart = 0x38000000

abbrev pub kernbase : ℕ
kernbase = 0x80020000

abbrev pub clint : ℕ
clint = 0x02000000

abbrev pub plic : ℕ
plic = 0x0c000000

-- The result of kalloc() is not looked at.
unfoldable pub kvm_init : (etext tramp : ℕ) → Cmd Kernel (Unit {0})
kvm_init etext tramp = do
  p ← kalloc
  modify λ k. record k { kern_pagetable = p }
  memset_page p 0
  kvm_map (uart + virt_offset) uart page_size (flag_r + flag_w)
  kvm_map kernbase kernbase (u64 (etext + 2 ^ 64 - kernbase)) (flag_r + flag_x)
  kvm_map etext etext (u64 (phys_stop + 2 ^ 64 - etext)) (flag_r + flag_w)
  kvm_map trampoline tramp page_size (flag_r + flag_x)
  kvm_map (clint + virt_offset) clint 0x10000 (flag_r + flag_w)
  kvm_map (plic + virt_offset) plic 0x4000 (flag_r + flag_w)
  kvm_map (plic + virt_offset + 0x200000) (plic + 0x200000) 0x4000 (flag_r + flag_w)
