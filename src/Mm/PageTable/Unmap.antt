-- ===== src/Mm/PageTable/Unmap.antt =====
-- vmunmap() on mapped and on unmapped pages: its test for an invalid entry lacks a negation.
use native.Mathlib.Numerals.{add-one}
use page_fault_os_for_risc_v.Prelude.{
  zero, ◌∙◌, refl, ◌⊎◌, ℕ, suc, ◌+◌, ◌*◌, ◌%◌, ◌^◌, ◌<◌, ◌≡◌, ◌≢◌, Bool, true, false, arith, ltb,
  leb, ◌==◌, Bool-cases, inl, inr,
}
use page_fault_os_for_risc_v.Kernel.{Kernel, write_word}
use page_fault_os_for_risc_v.Kernel.Run
use page_fault_os_for_risc_v.Kernel.Run.{ok, panic, pure, ◌>>◌, and_then, >>=-eq-ok}
use page_fault_os_for_risc_v.Mm.Layout.{u64, page_size, max_va, px, pte_to_page}
use page_fault_os_for_risc_v.Mm.Kalloc.{kfree}
use page_fault_os_for_risc_v.Mm.PageTable.{walk, unmap_loop, vmunmap}
use page_fault_os_for_risc_v.Mm.PageTable.Ends.{walk_high}
use page_fault_os_for_risc_v.Mm.PageTable.Walk.{Path3, Path3-entry_of, walk-entry_of, entry_of}

unmap_loop-mapped :
    (f pt temp stop a : ℕ) (do_free : Bool) (k : Kernel)
    → temp < stop
    → walk pt temp false k ≡ ok a k
    → 0 < a
    → k.mem a ≢ 0
    → unmap_loop (suc f) pt temp stop do_free k ≡ panic Run.unmap_invalid
unfolding unmap_loop
unmap_loop-mapped f pt temp stop a do_free k lt e pos nz =
    let l : ltb temp stop ≡ true = ground arith in
    let ne : (a == 0) ≡ false = ground arith in
    let ne' : (k.mem a == 0) ≡ false = ground arith in rw (l, e, ne, ne')

-- vmunmap() of at least one page stops the kernel at the first page if that is mapped, whether or not
-- its entry is valid.
pub vmunmap-mapped :
    (k : Kernel) (va npages t2 t1 t0 : ℕ) (do_free : Bool)
    → va % page_size ≡ 0
    → va < max_va
    → 0 < npages
    → npages < 2 ^ 50
    → Path3 k.mem va t2 t1 t0
    → 0 < t0
    → k.mem (t0 + 8 * px 0 va) ≢ 0
    → vmunmap t2 va npages do_free k ≡ panic Run.unmap_invalid
unfolding vmunmap
vmunmap-mapped k va npages t2 t1 t0 do_free al lt some_page few path pos nz =
    let z : (va % page_size == 0) ≡ true = ground arith in
    rw (z, add-one)
      (unmap_loop-mapped npages t2 va _ (t0 + 8 * px 0 va) do_free k (omega arith)
        (rw (walk-entry_of t2 va k lt, Path3-entry_of k.mem va t2 t1 t0 path)) (omega arith) nz)

-- The page of an empty entry is page 0, and kfree() refuses it.
kfree-zero : (k : Kernel) → 0 < k.kernel_end → kfree (pte_to_page 0) k ≡ panic Run.kfree_invalid
unfolding kfree
kfree-zero k pos = ground arith

unmap_loop-free :
    (f pt temp stop : ℕ) (k k' : Kernel)
    → temp < stop
    → 0 < k.kernel_end
    → unmap_loop (suc f) pt temp stop true k ≢ ok tt k'
unfolding unmap_loop
unmap_loop-free f pt temp stop k k' lt pos =
    let l : ltb temp stop ≡ true = ground arith in
    rw l (elim (Bool-cases (leb max_va temp)) [
      | inl hi ↦ rw (walk_high pt temp false k (ground arith)) (λ e. cc)
      | inr lo ↦
          let a = entry_of k.mem pt temp in
          rw (walk-entry_of pt temp k (ground arith)) (elim (Bool-cases (a == 0)) [
            | inl z ↦ rw z (λ e. cc)
            | inr nz ↦ rw nz (elim (Bool-cases (k.mem a == 0)) [
              | inr full ↦ rw full (λ e. cc)
              | inl empty ↦
                  let e0 : k.mem a ≡ 0 = ground arith in rw (empty, e0, kfree-zero k pos) (λ e. cc)
            ])
          ])
    ])

-- vmunmap() that is to free at least one page never returns: whatever the table holds, it stops in a
-- panic at the first page.
pub vmunmap-free :
    (k k' : Kernel) (pt va npages : ℕ)
    → 0 < k.kernel_end
    → 0 < npages
    → va + npages * page_size < 2 ^ 64
    → vmunmap pt va npages true k ≢ ok tt k'
unfolding vmunmap
vmunmap-free k k' pt va npages pos some_page few = elim (Bool-cases (va % page_size == 0)) [
  | inr mis ↦ rw mis (λ e. cc)
  | inl al ↦ rw (al, add-one) (unmap_loop-free npages pt va _ k k' (omega arith) pos)
]

-- One round that returns stands at the end of the range, or finds an empty entry and goes on.
unmap_loop-inv :
    (f pt temp stop : ℕ) (k k' : Kernel)
    → unmap_loop (suc f) pt temp stop false k ≡ ok tt k'
    → (k' ≡ k)
      ⊎ ((s : Kernel) × (s.kernel_end ≡ k.kernel_end)
          × (unmap_loop f pt (u64 (temp + page_size)) stop false s ≡ ok tt k'))
unfolding unmap_loop
unmap_loop-inv f pt temp stop k k' h = elim (Bool-cases (ltb temp stop)) [
  | inr ge ↦ inl (let h1 = rw ge at h in cc)
  | inl l ↦ inr (elim (Bool-cases (leb max_va temp)) [
    | inl hi ↦ absurd (let h1 = rw (l, walk_high pt temp false k (ground arith)) at h in cc)
    | inr lo ↦
        let a = entry_of k.mem pt temp in
        let h1 = rw (l, walk-entry_of pt temp k (ground arith)) at h in
        elim (Bool-cases (a == 0)) [
          | inl z ↦ absurd (let h2 = rw z at h1 in cc)
          | inr nz ↦ elim (Bool-cases (k.mem a == 0)) [
            | inr full ↦ absurd (let h2 = rw (nz, full) at h1 in cc)
            | inl empty ↦
                let e0 : k.mem a ≡ 0 = ground arith in
                let h2 = rw (nz, e0) at h1 in (record k { mem = write_word k.mem a 0 }, refl, h2)
          ]
        ]
  ])
]

unmap_loop-kernel_end :
    (f pt temp stop : ℕ) (k k' : Kernel)
    → unmap_loop f pt temp stop false k ≡ ok tt k'
    → k'.kernel_end ≡ k.kernel_end
unfolding unmap_loop
unmap_loop-kernel_end zero pt temp stop k k' h = cc
unmap_loop-kernel_end (suc f) pt temp stop k k' h = elim (unmap_loop-inv f pt temp stop k k' h) [
  | inl e ↦ rw e refl
  | inr (s, e, h1) ↦ unmap_loop-kernel_end f pt (u64 (temp + page_size)) stop s k' h1 ∙ e
]

-- A vmunmap() that frees no page keeps the end of the kernel.
pub vmunmap-kernel_end :
    (k k' : Kernel) (pt va npages : ℕ)
    → vmunmap pt va npages false k ≡ ok tt k'
    → k'.kernel_end ≡ k.kernel_end
unfolding vmunmap
vmunmap-kernel_end k k' pt va npages h = elim (Bool-cases (va % page_size == 0)) [
  | inr mis ↦ absurd (let h1 = rw mis at h in cc)
  | inl al ↦ unmap_loop-kernel_end (npages + 1) pt va _ k k' (rw al at h)
]
