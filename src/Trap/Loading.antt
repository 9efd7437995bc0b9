-- ===== src/Trap/Loading.antt =====
-- The page that UserTrap() gives to a process after a load fault in one of its regions.
use page_fault_os_for_risc_v.Prelude.{
  ℕ, ◌+◌, ◌*◌, ◌%◌, ◌^◌, ◌<◌, ◌≡◌, ◌≢◌, ◌∙◌, ◌⊎◌, refl, inl, inr, true, false, List, [], ◌∷◌, arith,
}
use page_fault_os_for_risc_v.Kernel.{Kernel}
use page_fault_os_for_risc_v.Kernel.Run.{Run, Status, ok, done, failed, pure, ◌>>=◌}
use page_fault_os_for_risc_v.Mm.Layout.{
  page_size, page_round_down, max_va, px, is_valid, is_user, pte_to_page, fill_page,
}
use page_fault_os_for_risc_v.Mm.Kalloc.Chain.{◌∉◌, Chain-fill_page}
use page_fault_os_for_risc_v.Mm.Kalloc.Laws.{IsFree, given, kalloc-IsFree}
use page_fault_os_for_risc_v.Mm.PageTable.{walkaddr, map_pages}
use page_fault_os_for_risc_v.Mm.PageTable.Alloc.{Tables, Unmapped, Spare}
use page_fault_os_for_risc_v.Mm.PageTable.Map.{map_pages-kept}
use page_fault_os_for_risc_v.Fs.Vfs.Calls.{vfsread}
use page_fault_os_for_risc_v.Trap.{Board, region_perm, load_page}

module _ (k : Kernel) (p : ℕ) (ps : List ℕ) (f : IsFree k (p ∷ ps)) where
  -- The kernel after kalloc() and memset(mem, 0, PGSIZE).
  abbrev cleared : Kernel
  cleared = record (given p k) { mem = fill_page (given p k).mem p 0 }

  cleared-IsFree : IsFree cleared ps
  cleared-IsFree =
      let g = (kalloc-IsFree k p ps f).1 in
      record {
        chain = Chain-fill_page k.kernel_end _ p 0 _ ps f.chain.1.aligned f.chain.2 g.chain;
        count = g.count;
        unlocked = refl;
        depth = refl;
      }

  cleared-other :
      (t j : ℕ)
      → t % page_size ≡ 0
      → t ∉ (p ∷ ps)
      → j < page_size
      → cleared.mem (t + j) ≡ k.mem (t + j)
  unfolding fill_page
  cleared-other t j al out lt = let z = f.chain.1.aligned in ground arith

  cleared-Tables : (pt va : ℕ) → Tables k (p ∷ ps) pt va → Tables cleared ps pt va
  cleared-Tables pt va t =
      let e2 = cleared-other pt (8 * px 2 va) t.root t.root_used (omega arith) in
      let e1 : is_valid (k.mem (pt + 8 * px 2 va)) ≡ true
          → cleared.mem (pte_to_page (k.mem (pt + 8 * px 2 va)) + 8 * px 1 va)
            ≡ k.mem (pte_to_page (k.mem (pt + 8 * px 2 va)) + 8 * px 1 va) =
        λ v.
          cleared-other (pte_to_page (k.mem (pt + 8 * px 2 va))) (8 * px 1 va) (omega arith)
            (t.middle v).0 (omega arith) in
      record {
        root = t.root;
        root_used = let u = t.root_used in ground arith;
        middle = rw e2 (λ v. let (u, n) = t.middle v in (ground arith, n));
        leaf = rw e2 (λ v. rw (e1 v) (λ w. let (u, n, n') = t.leaf v w in (ground arith, n, n')));
      }

  cleared-Unmapped :
      (pt va : ℕ) → Tables k (p ∷ ps) pt va → Unmapped k pt va → Unmapped cleared pt va
  cleared-Unmapped pt va t un =
      let e2 = cleared-other pt (8 * px 2 va) t.root t.root_used (omega arith) in
      let t1 : ℕ = pte_to_page (k.mem (pt + 8 * px 2 va)) in
      let t0 : ℕ = pte_to_page (k.mem (t1 + 8 * px 1 va)) in
      record {
        empty = rw e2 (λ v.
            rw (cleared-other t1 (8 * px 1 va) (omega arith) (t.middle v).0 (omega arith)) (λ w.
              rw (cleared-other t0 (8 * px 0 va) (omega arith) (t.leaf v w).0 (omega arith))
                (un.empty v w)));
      }

  cleared-Spare : (pt va : ℕ) → Tables k (p ∷ ps) pt va → Spare cleared ps pt va p
  cleared-Spare pt va t =
      let e2 = cleared-other pt (8 * px 2 va) t.root t.root_used (omega arith) in
      let t1 : ℕ = pte_to_page (k.mem (pt + 8 * px 2 va)) in
      record {
        used = f.chain.2;
        middle = rw e2 (λ v e. let (u, _) = t.middle v in ground (arith, e));
        leaf = rw e2 (λ v.
            rw (cleared-other t1 (8 * px 1 va) (omega arith) (t.middle v).0 (omega arith))
              (λ w e. let (u, _, _) = t.leaf v w in ground (arith, e)));
      }

  cleared_zero : (j : ℕ) → j < page_size → cleared.mem (p + j) ≡ 0
  unfolding fill_page
  cleared_zero j lt = ground arith

module _ (b : Board) (k : Kernel) (p : ℕ) (ps : List ℕ) (i v addr : ℕ) (f : IsFree k (p ∷ ps)) where
  abbrev pub pt_of : ℕ
  pt_of = (k.table i).pagetable

  abbrev pub page_at : ℕ
  page_at = page_round_down addr

  -- What is left to do once the page is mapped.
  abbrev pub then_read : Kernel → Run Kernel (Unit {0})
  then_read s = (vfsread b.fs b.switch b.fuel (s.vmas v).f false p page_size >>= λ _. pure tt) s

  load_page-mapped :
      (r : Status) (s : Kernel)
      → map_pages pt_of page_at p page_size (region_perm (k.vmas v)) (cleared k p ps f) ≡ ok r s
      → load_page b i v addr k ≡ then_read s
  unfolding load_page
  load_page-mapped r s e = rw ((kalloc-IsFree k p ps f).0, e) refl

  -- A load fault in a region below MAXVA, outside every critical section, with the allocator's lock free
  -- and a page in its list, where nothing is mapped at the address and the tables on the way are
  -- distinct and not free: the file is read into the first free page, and when that read starts,
  -- either no page is left, or user mode has that page at the address, full of zeros.
  pub load_page_lem :
      page_at < max_va
      → Tables k (p ∷ ps) pt_of page_at
      → Unmapped k pt_of page_at
      → (s : Kernel) × (load_page b i v addr k ≡ then_read s)
        × (IsFree s []
            ⊎ ((walkaddr pt_of page_at s ≡ ok p s) × ((j : ℕ) → j < page_size → s.mem (p + j) ≡ 0)))
  load_page_lem lt t un =
      let perm : is_user (region_perm (k.vmas v)) ≡ true = ground arith in
      let small : region_perm (k.vmas v) < 1024 = ground arith in
      let below : p < 2 ^ 56 = let z = f.chain.1.below in omega arith in
      elim (map_pages-kept (cleared k p ps f) ps pt_of page_at p (region_perm (k.vmas v)) lt
        (omega arith) f.chain.1.aligned below small (cleared-IsFree k p ps f)
        (cleared-Tables k p ps f pt_of page_at t) (cleared-Unmapped k p ps f pt_of page_at t un)) [
          | inl (s, e, free) ↦ (s, load_page-mapped failed s e, inl free)
          | inr (s, e, w, kept) ↦
              let apart : pt_of ≢ p = let u = t.root_used in λ eq. ground (arith, eq) in
              (
                s,
                load_page-mapped done s e,
                inr (
                  rw perm at w,
                  λ j h.
                      kept p (p + j) (cleared-Spare k p ps f pt_of page_at t) apart
                        (let al = f.chain.1.aligned in omega (arith, al))
                      ∙ cleared_zero k p ps f j h,
                ),
              )
        ]
