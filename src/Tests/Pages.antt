-- ===== src/Tests/Pages.antt =====
-- The page allocator.
use page_fault_os_for_risc_v.Prelude.{
  ℕ, ◌-◌, ◌%◌, ◌<◌, ◌≡◌, ◌≢◌, ◌⊎◌, ◌↔◌, refl, [], ◌∷◌, length, arith, ◌==◌, if◌then◌else◌,
}
use page_fault_os_for_risc_v.Kernel.{Kernel}
use page_fault_os_for_risc_v.Kernel.Run
use page_fault_os_for_risc_v.Kernel.Run.{Cmd, ok, panic}
use page_fault_os_for_risc_v.Mm.Layout.{page_size, phys_stop}
use page_fault_os_for_risc_v.Mm.Kalloc.{kfree, kalloc, kinit}
use page_fault_os_for_risc_v.Mm.Kalloc.Chain.{IsPage, ◌∉◌}
use page_fault_os_for_risc_v.Mm.Kalloc.Laws.{
  IsFree, freed, given, refused, kfree-IsFree, kalloc-IsFree, kalloc-empty, kfree-invalid,
  kalloc_nested,
}
use page_fault_os_for_risc_v.Mm.Bytes.{put_bytes}
use page_fault_os_for_risc_v.Mm.Kalloc.Boot.{page_run, kinit-page_run, kinit_misaligned}
use page_fault_os_for_risc_v.Tests.{bare, two_pages, busy}

bare-IsFree : IsFree bare []
bare-IsFree = record { chain = refl; count = refl; unlocked = refl; depth = refl }

IsPage-fd : IsPage 0x805fd000 0x805fd000
IsPage-fd = record {
  aligned = refl;
  above = omega arith;
  below = omega arith;
  ne_zero = omega arith;
}

IsPage-fe : IsPage 0x805fd000 0x805fe000
IsPage-fe = record {
  aligned = refl;
  above = omega arith;
  below = omega arith;
  ne_zero = omega arith;
}

pub two_pages-IsFree : IsFree two_pages (0x805fe000 ∷ 0x805fd000 ∷ [])
two_pages-IsFree = record {
  chain = (refl, IsPage-fe, refl, (refl, IsPage-fd, refl, refl));
  count = refl;
  unlocked = refl;
  depth = refl;
}

kfree-IsFree_example :
    (kfree 0x805fd000 bare ≡ ok tt (freed 0x805fd000 bare))
    × IsFree (freed 0x805fd000 bare) (0x805fd000 ∷ [])
kfree-IsFree_example = kfree-IsFree bare 0x805fd000 [] bare-IsFree IsPage-fd refl

kalloc-IsFree_example :
    (kalloc two_pages ≡ ok 0x805fe000 (given 0x805fe000 two_pages))
    × IsFree (given 0x805fe000 two_pages) (0x805fd000 ∷ [])
kalloc-IsFree_example = kalloc-IsFree two_pages 0x805fe000 (0x805fd000 ∷ []) two_pages-IsFree

kalloc-empty_example : (kalloc bare ≡ ok 0 (refused bare)) × IsFree (refused bare) []
kalloc-empty_example = kalloc-empty bare bare-IsFree

kfree-invalid_example :
    (kfree 0x805fd008 bare ≡ panic Run.kfree_invalid)
    ↔ ((0x805fd008 % page_size ≢ 0) ⊎ (0x805fd008 < 0x805fd000) ⊎ (phys_stop < 0x805fd008))
kfree-invalid_example = kfree-invalid bare 0x805fd008

kalloc_nested_example : kalloc busy ≡ panic Run.pop_off
kalloc_nested_example = kalloc_nested busy refl (omega arith)

abbrev kmem_text : ℕ → ℕ
kmem_text i =
    if i == 0
    then b'k'
    else if i == 1
    then b'm'
    else if i == 2
    then b'e'
    else if i == 3
    then b'm'
    else 0

-- The copy of "kmem" to address 0, where the pointer of the zeroed lock leads.
abbrev name_kmem : Cmd Kernel (Unit {0})
name_kmem k = ok tt (record k { mem = put_bytes k.mem 0 5 kmem_text })

kinit-page_run_example :
    (k' : Kernel) × (kinit name_kmem bare ≡ ok tt k')
    × IsFree k' (page_run 2 0x805fd000 [])
    × (length (page_run 2 0x805fd000 []) ≡ 2)
    × ((phys_stop - page_size) ∉ page_run 2 0x805fd000 [])
kinit-page_run_example =
    kinit-page_run bare name_kmem (put_bytes bare.mem 0 5 kmem_text) refl refl (omega arith)
      (omega arith) refl

abbrev misaligned : Kernel
misaligned = record bare { kernel_end = 0x80200800 }

kinit-misaligned_run : kinit name_kmem misaligned ≡ panic Run.kfree_invalid
kinit-misaligned_run =
    kinit_misaligned misaligned name_kmem (put_bytes misaligned.mem 0 5 kmem_text) refl
      (omega arith) (omega arith)
