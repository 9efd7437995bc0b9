-- ===== src/Mm/Uvm/Laws.antt =====
-- Uvmclear() and Uvmcreate().
use page_fault_os_for_risc_v.Prelude.{
  ℕ, ◌+◌, ◌*◌, ◌/◌, ◌%◌, ◌≤◌, ◌<◌, ◌≡◌, refl, true, false, List, ◌∷◌, arith, leb, ◌==◌, eq→==,
}
use page_fault_os_for_risc_v.Kernel.{Kernel, write_word}
use page_fault_os_for_risc_v.Kernel.Run.{ok}
use page_fault_os_for_risc_v.Mm.Layout.{
  page_size, u64, max_va, px, is_valid, is_user, clear_user, pte_to_page, fill_page,
}
use page_fault_os_for_risc_v.Mm.Kalloc.Chain.{Chain-fill_page}
use page_fault_os_for_risc_v.Mm.Kalloc.Laws.{IsFree, given, kalloc-IsFree}
use page_fault_os_for_risc_v.Mm.PageTable.{walkaddr, kget_kaddr}
use page_fault_os_for_risc_v.Mm.PageTable.Walk.{
  Path3, Path3-entry_of, Path3-write_word, walk-entry_of,
}
use page_fault_os_for_risc_v.Mm.Uvm.{uvm_create, uvm_clear}

-- The kernel after the entry at `a` lost its user bit.
abbrev pub cleared : ℕ → Kernel → Kernel
cleared a k = record k { mem = write_word k.mem a (clear_user (k.mem a)) }

clear_user_valid : (pte : ℕ) → is_valid (clear_user pte) ≡ is_valid pte
clear_user_valid pte = let e : clear_user pte % 2 ≡ pte % 2 = omega arith in rw e refl

clear_user_user : (pte : ℕ) → is_user (clear_user pte) ≡ false
clear_user_user pte = let e : clear_user pte / 16 % 2 ≡ 0 = omega arith in rw e refl

clear_user_page : (pte : ℕ) → pte_to_page (clear_user pte) ≡ pte_to_page pte
clear_user_page pte = omega arith

-- Uvmclear() of a valid page leaves it to the kernel at the same address, and walkaddr(), which looks
-- for a page of user mode, does not find it any more.
pub uvm_clear-walkaddr :
    (k : Kernel) (pt va t1 t0 : ℕ)
    → va < max_va
    → 0 < t0
    → Path3 k.mem va pt t1 t0
    → is_valid (k.mem (t0 + 8 * px 0 va)) ≡ true
    → let a = t0 + 8 * px 0 va in
      let k' = cleared a k in
      (uvm_clear pt va k ≡ ok tt k')
      × (walkaddr pt va k' ≡ ok 0 k')
      × (kget_kaddr pt va k' ≡ ok (u64 (va % page_size + pte_to_page (k.mem a))) k')
unfolding uvm_clear walkaddr kget_kaddr write_word
uvm_clear-walkaddr k pt va t1 t0 lt pos path v =
    let a : ℕ = t0 + 8 * px 0 va in
    let k' : Kernel = cleared a k in
    let path' = Path3-write_word k.mem va pt t1 t0 (clear_user (k.mem a)) path in
    let ne : (a == 0) ≡ false = ground arith in
    let hi : leb max_va va ≡ false = ground arith in
    let found = walk-entry_of pt va k' lt in
    let entry = Path3-entry_of k'.mem va pt t1 t0 path' in
    let ne' : (clear_user (k.mem a) == 0) ≡ false = ground arith in
    (
      rw (walk-entry_of pt va k lt, Path3-entry_of k.mem va pt t1 t0 path, ne) refl,
      rw (hi, found, entry, ne)
          (rw (eq→== a a refl, clear_user_valid (k.mem a), v, clear_user_user (k.mem a)) refl),
      rw (found, entry, ne) (rw (eq→== a a refl, ne', clear_user_page (k.mem a)) refl),
    )

-- Uvmcreate() hands out the first free page, all of it 0.
pub uvm_create-IsFree :
    (k : Kernel) (p : ℕ) (ps : List ℕ)
    → IsFree k (p ∷ ps)
    → let k' = record (given p k) { mem = fill_page (given p k).mem p 0 } in
      (uvm_create k ≡ ok p k') × IsFree k' ps × ((a : ℕ) → p ≤ a → a < p + page_size → k'.mem a ≡ 0)
unfolding uvm_create fill_page
uvm_create-IsFree k p ps f =
    let (e, g) = kalloc-IsFree k p ps f in
    let ne : (p == 0) ≡ false = let z = f.chain.1.ne_zero in ground arith in
    (
      rw (e, ne) refl,
      record {
        chain =
            Chain-fill_page k.kernel_end (given p k).mem p 0 _ ps f.chain.1.aligned f.chain.2
              g.chain;
        count = g.count;
        unlocked = refl;
        depth = refl;
      },
      λ a lo hi. ground arith,
    )
