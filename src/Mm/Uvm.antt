-- ===== src/Mm/Uvm.antt =====
-- kern/mm/vm.cpp: the address spaces of processes. The calls of MapPages() pass their arguments as
-- the source does, the size of a page where the physical address belongs.
pub mod Shrink
pub mod Laws
use page_fault_os_for_risc_v.Prelude.{
  ℕ, zero, suc, ◌+◌, ◌-◌, ◌*◌, ◌/◌, ◌%◌, ◌^◌, ◌&&◌, Bool, true, false, not, ltb, leb, ◌==◌,
  if◌then◌else◌,
}
use page_fault_os_for_risc_v.Kernel.{Kernel, Memory, write_word}
use page_fault_os_for_risc_v.Kernel.Run
use page_fault_os_for_risc_v.Kernel.Run.{
  Cmd, Status, done, failed, out_of_fuel, pure, ◌>>=◌, ◌>>◌, modify, gets, abort, init_user_vm,
  freewalk_leaf, uvmcopy_entry, uvmcopy_absent, uvmclear,
}
use page_fault_os_for_risc_v.Mm.Layout.{
  u64, page_size, page_round_down, px, flag_r, flag_w, flag_x, flag_u, is_valid, is_table,
  clear_user, pte_to_page, pte_flags, max_uva, vkstack,
}
use page_fault_os_for_risc_v.Mm.Kalloc.{memset_page, kfree, kalloc}
use page_fault_os_for_risc_v.Mm.Bytes.{get_byte, put_bytes}
use page_fault_os_for_risc_v.Mm.PageTable.{load, store, walk, map_pages, vmunmap}

-- memmove() between byte addresses.
unfoldable pub move_bytes : (dst src n : ℕ) → Cmd Kernel (Unit {0})
move_bytes dst src n =
    modify λ k. record k { mem = put_bytes k.mem dst n (λ i. get_byte k.mem (src + i)) }

unfoldable pub uvm_create : Cmd Kernel ℕ
uvm_create = do p ← kalloc; if p == 0 then pure 0 else do memset_page p 0; pure p

-- `src` is an address of the kernel. The results of kalloc() and MapPages() are not looked at.
unfoldable pub uvm_init : (pt kpt src size : ℕ) → Cmd Kernel (Unit {0})
uvm_init pt kpt src size = if leb page_size size then abort init_user_vm else do
  p ← kalloc
  memset_page p 0
  map_pages pt 0 page_size p (flag_w + flag_r + flag_x + flag_u)
  map_pages kpt 0 page_size p (flag_w + flag_x + flag_r)
  move_bytes p src size

unfoldable pub uvm_dealloc : (pt kpt old new : ℕ) → Cmd Kernel ℕ
uvm_dealloc pt kpt old new =
    let npages = (page_round_down old - page_round_down new) / page_size in
    if leb old new then pure old else do
      if ltb (page_round_down new) (page_round_down old)
          then (do
            vmunmap kpt (page_round_down new) npages false
            vmunmap pt (page_round_down new) npages true)
          else pure tt
      pure new

-- `old` is rounded down already.
unfoldable pub uvm_alloc_loop : (fuel pt kpt temp old new : ℕ) → Cmd Kernel ℕ
uvm_alloc_loop zero pt kpt temp old new = λ _. out_of_fuel
uvm_alloc_loop (suc fuel) pt kpt temp old new =
    let rest = uvm_alloc_loop fuel pt kpt (u64 (temp + page_size)) old new in
    let npages = (temp - old) / page_size in
    if not (ltb temp new) then pure new else do
      p ← kalloc
      if p == 0 then (do uvm_dealloc pt kpt temp old; pure 0) else do
        memset_page p 0
        r ← map_pages pt temp page_size p (flag_w + flag_x + flag_r + flag_u)
        elim r [
          | failed ↦ do kfree p; uvm_dealloc pt kpt temp old; pure 0
          | done ↦ do
            r' ← map_pages kpt temp page_size p (flag_w + flag_x + flag_r)
            elim r' [
              | failed ↦ do vmunmap pt old (npages + 1) true; vmunmap kpt old npages false; pure 0
              | done ↦ rest
            ]
        ]

-- One round for each page below `new`, and one for the last test.
unfoldable pub uvm_alloc : (pt kpt old new : ℕ) → Cmd Kernel ℕ
uvm_alloc pt kpt old new =
    if ltb new old
    then pure old
    else uvm_alloc_loop (new / page_size + 2) pt kpt (page_round_down old) (page_round_down old) new

-- The loop over `n` entries from the entry `i` on; `sub` frees a table.
unfoldable pub free_entries : (ℕ → Cmd Kernel (Unit {0})) → (n i pt : ℕ) → Cmd Kernel (Unit {0})
free_entries sub zero i pt = pure tt
free_entries sub (suc n) i pt = do
  pte ← load (pt + 8 * i)
  if is_table pte
      then (do sub (pte_to_page pte); store (pt + 8 * i) 0)
      else if is_valid pte
      then abort freewalk_leaf
      else pure tt
  free_entries sub n (i + 1) pt

-- `depth` bounds the recursion: 3 for a three-level table.
unfoldable pub freewalk : (depth pt : ℕ) → Cmd Kernel (Unit {0})
freewalk zero pt = λ _. out_of_fuel
freewalk (suc depth) pt = do free_entries (freewalk depth) 512 0 pt; kfree pt

unfoldable pub uvm_free : (depth pt size : ℕ) → Cmd Kernel (Unit {0})
uvm_free depth pt size = do
  if ltb 0 size then vmunmap pt 0 (page_round_down size / page_size) true else pure tt
  freewalk depth pt

-- The label `err` of Uvmcopy().
abbrev pub uvm_copy_err : (new knew i ki : ℕ) → Cmd Kernel Status
uvm_copy_err new knew i ki = do
  vmunmap knew 0 (ki / page_size) false
  vmunmap new 0 (i / page_size) true
  pure failed

unfoldable pub uvm_copy_loop : (fuel old new knew size i ki : ℕ) → Cmd Kernel Status
uvm_copy_loop zero old new knew size i ki = λ _. out_of_fuel
uvm_copy_loop (suc fuel) old new knew size i ki =
    let rest = uvm_copy_loop fuel old new knew size (u64 (i + page_size)) (u64 (ki + page_size)) in
    if not (ltb i size) then pure done else do
      a ← walk old i false
      if a == 0 then abort uvmcopy_entry else do
        pte ← load a
        if not (is_valid pte) then abort uvmcopy_absent else do
          p ← kalloc
          if p == 0 then uvm_copy_err new knew i ki else do
            move_bytes p (pte_to_page pte) page_size
            r ← map_pages new i page_size p (pte_flags pte)
            elim r [
              | failed ↦ do kfree p; uvm_copy_err new knew i ki
              | done ↦ do
                r' ← map_pages knew ki page_size p (clear_user (pte_flags pte))
                elim r' [ failed ↦ uvm_copy_err new knew (u64 (i + page_size)) ki | done ↦ rest ]
            ]

unfoldable pub uvm_copy : (old new knew size : ℕ) → Cmd Kernel Status
uvm_copy old new knew size = uvm_copy_loop (size / page_size + 2) old new knew size 0 0

unfoldable pub uvm_clear : (pt va : ℕ) → Cmd Kernel (Unit {0})
uvm_clear pt va = do
  a ← walk pt va false
  if a == 0 then abort uvmclear else do pte ← load a; store a (clear_user pte)

-- As free_entries(), but a leaf ends the loop.
unfoldable pub kfree_entries : (ℕ → Cmd Kernel (Unit {0})) → (n i pt : ℕ) → Cmd Kernel (Unit {0})
kfree_entries sub zero i pt = pure tt
kfree_entries sub (suc n) i pt =
    let rest = kfree_entries sub n (i + 1) pt in
    do
      pte ← load (pt + 8 * i)
      if is_table pte
          then (do sub (pte_to_page pte); store (pt + 8 * i) 0; rest)
          else if is_valid pte
          then pure tt
          else rest

unfoldable pub kfreewalk : (depth pt : ℕ) → Cmd Kernel (Unit {0})
kfreewalk zero pt = λ _. out_of_fuel
kfreewalk (suc depth) pt = do kfree_entries (kfreewalk depth) 512 0 pt; kfree pt

unfoldable pub user_entries : (depth n i pt : ℕ) → Cmd Kernel (Unit {0})
user_entries depth zero i pt = pure tt
user_entries depth (suc n) i pt = do
  pte ← load (pt + 8 * i)
  if is_table pte then (do kfreewalk depth (pte_to_page pte); store (pt + 8 * i) 0) else pure tt
  user_entries depth n (i + 1) pt

unfoldable pub kvm_free_user : (depth pt : ℕ) → Cmd Kernel (Unit {0})
kvm_free_user depth pt = user_entries depth (px 2 max_uva) 0 pt

unfoldable pub kvm_free : (depth pt : ℕ) → Bool → Cmd Kernel (Unit {0})
kvm_free depth pt stack_free = do
  if stack_free
      then (do
        vmunmap pt vkstack 1 true
        pte ← load (pt + 8 * px 2 vkstack)
        if is_table pte then kfreewalk depth (pte_to_page pte) else pure tt)
      else pure tt
  kvm_free_user depth pt
  kfree pt

unfoldable pub proc_kpagetable : (depth : ℕ) → Cmd Kernel ℕ
proc_kpagetable depth = do
  kpt ← kalloc
  if kpt == 0 then pure 0 else do
    root ← gets λ k. k.kern_pagetable
    move_bytes kpt root page_size
    stack ← kalloc
    if stack == 0 then (do kvm_free depth kpt true; pure 0) else do
      r ← map_pages kpt vkstack stack page_size (flag_r + flag_w)
      elim r [ done ↦ pure kpt | failed ↦ do kvm_free depth kpt true; pure 0 ]
