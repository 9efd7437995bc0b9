-- ===== src/Mm/PageTable.antt =====
-- kern/mm/vm.cpp: walking, mapping and unmapping. Entry `i` of a table at `pt` is the word at
-- pt + 8 * i, and a null pointer is 0.
pub mod Walk
pub mod Step
pub mod Alloc
pub mod Map
pub mod Ends
pub mod Unmap
use page_fault_os_for_risc_v.Prelude.{
  ℕ, zero, suc, ◌+◌, ◌-◌, ◌*◌, ◌/◌, ◌%◌, ◌^◌, Bool, true, false, not, Option, none, some, ltb, leb,
  ◌==◌, if◌then◌else◌,
}
use page_fault_os_for_risc_v.Kernel.{Kernel, write_word}
use page_fault_os_for_risc_v.Kernel.Run
use page_fault_os_for_risc_v.Kernel.Run.{
  Cmd, Status, done, failed, out_of_fuel, pure, ◌>>=◌, ◌>>◌, modify, gets, abort, walk_bounds,
  kernel_address, invalid_entry, remap, unmap_unaligned, unmap_walk, unmap_invalid, unmap_not_leaf,
}
use page_fault_os_for_risc_v.Mm.Layout.{
  u64, page_size, page_round_down, max_va, px, is_valid, is_user, page_to_pte, pte_to_page,
  pte_flags, leaf_pte,
}
use page_fault_os_for_risc_v.Mm.Kalloc.{memset_page, kfree, kalloc}

abbrev pub load : ℕ → Cmd Kernel ℕ
load a = gets λ k. k.mem a

abbrev pub store : ℕ → ℕ → Cmd Kernel (Unit {0})
store a v = modify λ k. record k { mem = write_word k.mem a v }

-- A new table for the entry at `a`, if there is a page for it.
unfoldable pub new_table : ℕ → Cmd Kernel (Option ℕ)
new_table a = do
  p ← kalloc
  if p == 0 then pure none else do memset_page p 0; store a (page_to_pte p + 1); pure (some p)

-- The table below the entry at `a`.
unfoldable pub descend : ℕ → Bool → Cmd Kernel (Option ℕ)
descend a alloc = do
  pte ← load a
  if is_valid pte then pure (some (pte_to_page pte)) else if alloc then new_table a else pure none

unfoldable pub walk_levels : ℕ → ℕ → ℕ → Bool → Cmd Kernel ℕ
walk_levels zero pt va alloc = pure (pt + 8 * px 0 va)
walk_levels (suc level) pt va alloc = do
  next ← descend (pt + 8 * px (suc level) va) alloc
  elim next [ none ↦ pure 0 | some p ↦ walk_levels level p va alloc ]

unfoldable pub walk : ℕ → ℕ → Bool → Cmd Kernel ℕ
walk pt va alloc = if leb max_va va then abort walk_bounds else walk_levels 2 pt va alloc

unfoldable pub walkaddr : ℕ → ℕ → Cmd Kernel ℕ
walkaddr pt va = if leb max_va va then pure 0 else do
  a ← walk pt va false
  if a == 0 then pure 0 else do
    pte ← load a
    pure (
        if not (is_valid pte)
        then 0
        else if not (is_user pte)
        then 0
        else if not (is_user pte)
        then 0
        else pte_to_page pte)

-- The second test is `!(*pte && PTE_V)`, which only 0 passes.
unfoldable pub kget_kaddr : ℕ → ℕ → Cmd Kernel ℕ
kget_kaddr pt va = do
  a ← walk pt va false
  if a == 0 then abort kernel_address else do
    pte ← load a
    if pte == 0 then abort invalid_entry else pure (u64 (va % page_size + pte_to_page pte))

unfoldable pub kvm_paddr : ℕ → Cmd Kernel ℕ
kvm_paddr va = do pt ← gets λ k. k.kern_pagetable; kget_kaddr pt va

-- The test for a page that is mapped already is `*pte && PTE_V`, which holds of all but 0.
unfoldable pub map_loop : (fuel pt temp last pa perm : ℕ) → Cmd Kernel Status
map_loop zero pt temp last pa perm = λ _. out_of_fuel
map_loop (suc fuel) pt temp last pa perm =
    let rest = map_loop fuel pt (u64 (temp + page_size)) last (u64 (pa + page_size)) perm in
    do
      a ← walk pt temp true
      if a == 0 then pure failed else do
        pte ← load a
        if not (pte == 0)
            then abort remap
            else do store a (leaf_pte pa perm); if temp == last then pure done else rest

-- walk() stops the kernel at MAXVA, so no more rounds are needed than there are pages below.
unfoldable pub map_pages : (pt va pa size perm : ℕ) → Cmd Kernel Status
map_pages pt va pa size perm =
    map_loop (max_va / page_size + 1) pt (page_round_down va)
      (page_round_down (u64 (va + size + 2 ^ 64 - 1))) pa perm

unfoldable pub kvm_map : (va pa size perm : ℕ) → Cmd Kernel (Unit {0})
kvm_map va pa size perm = do
  pt ← gets λ k. k.kern_pagetable
  r ← map_pages pt va pa size perm
  elim r [ done ↦ pure tt | failed ↦ abort Run.kvm_map ]

-- The test that stops at an invalid entry is `*pte && PTE_V`, without a negation.
unfoldable pub unmap_loop : (fuel pt temp stop : ℕ) → Bool → Cmd Kernel (Unit {0})
unmap_loop zero pt temp stop do_free = λ _. out_of_fuel
unmap_loop (suc fuel) pt temp stop do_free =
    let rest = unmap_loop fuel pt (u64 (temp + page_size)) stop do_free in
    if not (ltb temp stop) then pure tt else do
      a ← walk pt temp false
      if a == 0 then abort unmap_walk else do
        pte ← load a
        if not (pte == 0)
            then abort unmap_invalid
            else if pte_flags pte == 1
            then abort unmap_not_leaf
            else do if do_free then kfree (pte_to_page pte) else pure tt; store a 0; rest

unfoldable pub vmunmap : (pt va npages : ℕ) → Bool → Cmd Kernel (Unit {0})
vmunmap pt va npages do_free =
    if va % page_size == 0
    then unmap_loop (npages + 1) pt va (u64 (va + npages * page_size)) do_free
    else abort unmap_unaligned
