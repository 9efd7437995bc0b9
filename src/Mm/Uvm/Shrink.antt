-- ===== src/Mm/Uvm/Shrink.antt =====
-- UvmDealloc() on each branch.
use page_fault_os_for_risc_v.Prelude.{
  ℕ, ◌-◌, ◌/◌, ◌^◌, ◌≤◌, ◌<◌, ◌≡◌, ◌≢◌, ◌⊎◌, ◌↔◌, refl, sym, ◌∙◌, true, false, arith, ltb, leb,
  Bool-cases, inl, inr,
}
use page_fault_os_for_risc_v.Kernel.{Kernel}
use page_fault_os_for_risc_v.Kernel.Run.{ok, >>=-eq-ok}
use page_fault_os_for_risc_v.Mm.Layout.{page_size, page_round_down}
use page_fault_os_for_risc_v.Mm.PageTable.{vmunmap}
use page_fault_os_for_risc_v.Mm.PageTable.Unmap.{
  vmunmap-kernel_end, vmunmap-kernel_end, vmunmap-free,
}
use page_fault_os_for_risc_v.Mm.Uvm.{uvm_dealloc}

-- Across a page boundary UvmDealloc() does not return.
uvm_dealloc_stuck :
    (k k' : Kernel) (pt kpt old new r : ℕ)
    → 0 < k.kernel_end
    → old < 2 ^ 63
    → page_round_down new < page_round_down old
    → uvm_dealloc pt kpt old new k ≢ ok r k'
unfolding uvm_dealloc
uvm_dealloc_stuck k k' pt kpt old new r pos lt boundary h =
    let n : ℕ = (page_round_down old - page_round_down new) / page_size in
    let smaller : leb old new ≡ false = ground arith in
    let crosses : ltb (page_round_down new) (page_round_down old) ≡ true = ground arith in
    let (_, s, e, _) = >>=-eq-ok _ _ (rw (smaller, crosses) at h) in
    let (_, s1, e1, e2) = >>=-eq-ok (vmunmap kpt (page_round_down new) n false k) _ e in
    let p : 0 < s1.kernel_end = rw (vmunmap-kernel_end k s1 kpt (page_round_down new) n e1) pos in
    vmunmap-free s1 s pt (page_round_down new) n p (omega arith) (omega arith) e2

-- UvmDealloc() returns exactly if no page has to go: either the new size is not smaller, and the old
-- one is the result, or both end in the same page. It has changed nothing then.
pub uvm_dealloc_iff :
    (k k' : Kernel) (pt kpt old new r : ℕ)
    → 0 < k.kernel_end
    → old < 2 ^ 63
    → (uvm_dealloc pt kpt old new k ≡ ok r k') ↔ (
        (k' ≡ k)
        × (((old ≤ new) × (r ≡ old))
            ⊎ ((new < old) × (page_round_down old ≡ page_round_down new) × (r ≡ new))))
unfolding uvm_dealloc
uvm_dealloc_iff k k' pt kpt old new r pos lt = elim (Bool-cases (leb old new)) [
  | inl up ↦
      let e : uvm_dealloc pt kpt old new k ≡ ok old k = rw up refl in
      (
        λ h. let x = sym e ∙ h in (cc, inl (ground arith, cc)),
        λ (same, d). let y : r ≡ old = ground arith in rw (same, y) e,
      )
  | inr down ↦ elim (Bool-cases (ltb (page_round_down new) (page_round_down old))) [
    | inl crosses ↦ (
      λ h. absurd (uvm_dealloc_stuck k k' pt kpt old new r pos lt (ground arith) h),
      λ (_, d). absurd (ground arith),
    )
    | inr within ↦
        let e : uvm_dealloc pt kpt old new k ≡ ok new k = rw (down, within) refl in
        (
          λ h. let x = sym e ∙ h in (cc, inr (ground arith, ground arith, cc)),
          λ (same, d). let y : r ≡ new = ground arith in rw (same, y) e,
        )
  ]
]
