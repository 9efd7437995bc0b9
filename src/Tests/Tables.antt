-- ===== src/Tests/Tables.antt =====
-- Walking, mapping and unmapping.
use page_fault_os_for_risc_v.Prelude.{ℕ, ◌≡◌, ◌≢◌, ◌⊎◌, refl, List, [], ◌∷◌, true, false, arith}
use page_fault_os_for_risc_v.Kernel.{Kernel}
use page_fault_os_for_risc_v.Kernel.Run
use page_fault_os_for_risc_v.Kernel.Run.{ok, panic, done, failed, out_of_fuel}
use page_fault_os_for_risc_v.Mm.Layout.{page_size}
use page_fault_os_for_risc_v.Mm.Kalloc.Laws.{IsFree}
use page_fault_os_for_risc_v.Mm.PageTable.{descend, walk_levels, walk, walkaddr, map_pages, vmunmap}
use page_fault_os_for_risc_v.Mm.PageTable.Walk.{Path3, walk-entry_of}
use page_fault_os_for_risc_v.Mm.PageTable.Alloc.{Tables, Unmapped, Walked, walk-Built}
use page_fault_os_for_risc_v.Mm.PageTable.Map.{map_pages-walkaddr, map_pages-remap}
use page_fault_os_for_risc_v.Mm.PageTable.Ends.{map_pages-ends, vmunmap-ends}
use page_fault_os_for_risc_v.Mm.PageTable.Unmap.{vmunmap-mapped, vmunmap-free}
use page_fault_os_for_risc_v.Tests.{root_table, two_pages, one_leaf}
use page_fault_os_for_risc_v.Tests.Pages.{two_pages-IsFree}

abbrev pub two : List ℕ
two = 0x805fe000 ∷ 0x805fd000 ∷ []

empty_root : Tables two_pages two root_table 0x3000
empty_root = record { root = refl; root_used = refl; middle = λ e. cc; leaf = λ e. cc }

empty_leaf : Unmapped two_pages root_table 0x3000
empty_leaf = record { empty = λ e. cc }

pub leaf_path : Path3 one_leaf.mem 0 root_table 0x80301000 0x80302000
leaf_path = record {
  valid2 = refl;
  child2 = refl;
  valid1 = refl;
  child1 = refl;
  aligned2 = refl;
  aligned1 = refl;
  aligned0 = refl;
  apart21 = omega arith;
  apart20 = omega arith;
  apart10 = omega arith;
}

walk-entry_of_example : walk root_table 0 false one_leaf ≡ ok 0x80302000 one_leaf
walk-entry_of_example = walk-entry_of root_table 0 one_leaf (omega arith)

walk-Built_example : Walked two_pages two root_table 0x3000
walk-Built_example =
    walk-Built two_pages two root_table 0x3000 (omega arith) two_pages-IsFree empty_root

map_pages-walkaddr_example :
    ((k' : Kernel) × (map_pages root_table 0x3000 0x80400000 page_size 22 two_pages ≡ ok failed k')
      × IsFree k' [])
    ⊎ ((k' : Kernel) × (map_pages root_table 0x3000 0x80400000 page_size 22 two_pages ≡ ok done k')
        × (walkaddr root_table 0x3000 k' ≡ ok 0x80400000 k'))
map_pages-walkaddr_example =
    map_pages-walkaddr two_pages two root_table 0x3000 0x80400000 22 (omega arith) refl refl
      (omega arith) (omega arith) two_pages-IsFree empty_root empty_leaf

walk_leaf : walk root_table 0 true one_leaf ≡ ok 0x80302000 one_leaf
unfolding walk walk_levels descend
walk_leaf = refl

map_pages-remap_run : map_pages root_table 0 0x80400000 page_size 22 one_leaf ≡ panic Run.remap
map_pages-remap_run =
    map_pages-remap one_leaf one_leaf root_table 0 0x80400000 page_size 22 0x80302000 walk_leaf
      (omega arith) (omega arith)

map_pages-ends_run : map_pages root_table 0 0x80400000 0 22 two_pages ≢ out_of_fuel
map_pages-ends_run = map_pages-ends root_table 0 0x80400000 0 22 two_pages

vmunmap-ends_run : vmunmap root_table 0 4 true one_leaf ≢ out_of_fuel
vmunmap-ends_run = vmunmap-ends root_table 0 4 true one_leaf

vmunmap-mapped_run : vmunmap root_table 0 1 false one_leaf ≡ panic Run.unmap_invalid
vmunmap-mapped_run =
    vmunmap-mapped one_leaf 0 1 root_table 0x80301000 0x80302000 false refl (omega arith)
      (omega arith) (omega arith) leaf_path (omega arith) (omega arith)

vmunmap-free_run : vmunmap root_table 0x1000 1 true one_leaf ≢ ok tt one_leaf
vmunmap-free_run =
    vmunmap-free one_leaf one_leaf root_table 0x1000 1 (omega arith) (omega arith) (omega arith)
