-- ===== src/Tests/Spaces.antt =====
-- Address spaces, and copying to and from them.
use page_fault_os_for_risc_v.Prelude.{ℕ, ◌≤◌, ◌<◌, ◌≡◌, ◌≢◌, ◌⊎◌, ◌↔◌, refl, arith}
use page_fault_os_for_risc_v.Kernel.{Kernel}
use page_fault_os_for_risc_v.Kernel.Run.{ok, done, out_of_fuel}
use page_fault_os_for_risc_v.Mm.Layout.{page_round_down}
use page_fault_os_for_risc_v.Mm.Bytes.{get_byte, put_bytes}
use page_fault_os_for_risc_v.Mm.PageTable.{walkaddr, kget_kaddr, walk, walk_levels, descend}
use page_fault_os_for_risc_v.Mm.Uvm.{uvm_dealloc, uvm_clear}
use page_fault_os_for_risc_v.Mm.Uvm.Shrink.{uvm_dealloc_iff}
use page_fault_os_for_risc_v.Mm.Uvm.Laws.{cleared, uvm_clear-walkaddr}
use page_fault_os_for_risc_v.Mm.Copy.{at, copyout, copyin}
use page_fault_os_for_risc_v.Mm.Copy.Laws.{with_moved, copyin-copyout, copyout-ends}
use page_fault_os_for_risc_v.Tests.{root_table, bare, one_leaf}
use page_fault_os_for_risc_v.Tests.Tables.{leaf_path}

uvm_dealloc_iff_run :
    (uvm_dealloc root_table root_table 0x1800 0x1400 one_leaf ≡ ok 0x1400 one_leaf) ↔ (
      (one_leaf ≡ one_leaf)
      × (((0x1800 ≤ 0x1400) × (◌≡◌ {A = ℕ} 0x1400 0x1800))
          ⊎ ((0x1400 < 0x1800)
              × (page_round_down 0x1800 ≡ page_round_down 0x1400)
              × (◌≡◌ {A = ℕ} 0x1400 0x1400))))
uvm_dealloc_iff_run =
    uvm_dealloc_iff one_leaf one_leaf root_table root_table 0x1800 0x1400 0x1400 (omega arith)
      (omega arith)

uvm_clear-walkaddr_run :
    let k' = cleared 0x80302000 one_leaf in
    (uvm_clear root_table 0 one_leaf ≡ ok tt k')
    × (walkaddr root_table 0 k' ≡ ok 0 k')
    × (kget_kaddr root_table 0 k' ≡ ok 0x80303000 k')
uvm_clear-walkaddr_run =
    uvm_clear-walkaddr one_leaf root_table 0 0x80301000 0x80302000 (omega arith) (omega arith)
      leaf_path refl

abbrev copied : Kernel
copied = with_moved 0x80303010 0x80400000 4 one_leaf

mapped_before : kget_kaddr root_table 0 one_leaf ≡ ok 0x80303000 one_leaf
unfolding kget_kaddr walk walk_levels descend
mapped_before = refl

mapped_after : kget_kaddr root_table 0 copied ≡ ok 0x80303000 copied
unfolding kget_kaddr walk walk_levels descend put_bytes
mapped_after = refl

copyin-copyout_example :
    (k2 : Kernel) × (copyout root_table 0x10 (at 0x80400000) 4 one_leaf ≡ ok done copied)
    × (copyin root_table 0x80400100 0x10 4 copied ≡ ok done k2)
    × (get_byte k2.mem 0x80400102 ≡ get_byte one_leaf.mem 0x80400002)
copyin-copyout_example =
    copyin-copyout one_leaf root_table 0x10 0x80303000 4 0x80400000 0x80400100 2 (omega arith)
      (omega arith) (omega arith) mapped_before mapped_after

copyout-ends_run : copyout root_table 0 (at 0x80400000) 0x3000 bare ≢ out_of_fuel
copyout-ends_run = copyout-ends root_table 0 0x3000 (at 0x80400000) bare
