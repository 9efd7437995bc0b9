-- ===== src/Mm/Kalloc/Boot.antt =====
-- FreeRange() and kinit(): which pages the allocator starts with.
use page_fault_os_for_risc_v.Prelude.{
  false, ℕ, zero, suc, ◌+◌, ◌-◌, ◌*◌, ◌/◌, ◌%◌, ◌≤◌, ◌<◌, ◌≡◌, ◌≢◌, refl, List, [], ◌∷◌, length,
  arith, lt→ltb, le→ltb, inl, inr,
}
use native.Mathlib.Numerals.{add-one}
use page_fault_os_for_risc_v.Kernel.{Kernel, Memory}
use page_fault_os_for_risc_v.Kernel.Run
use page_fault_os_for_risc_v.Kernel.Run.{Cmd, ok, panic}
use page_fault_os_for_risc_v.Sync.Spinlock.{free_lock}
use page_fault_os_for_risc_v.Mm.Layout.{page_size, phys_stop, page_round_down}
use page_fault_os_for_risc_v.Mm.Kalloc.{kfree, free_from, free_range, kinit}
use page_fault_os_for_risc_v.Mm.Kalloc.Chain.{IsPage, ◌∉◌}
use page_fault_os_for_risc_v.Mm.Kalloc.Laws.{IsFree, freed, kfree-IsFree, kfree-invalid}

-- The `n` pages from `p` on, the last one first, in front of `ps`.
abbrev pub page_run : ℕ → ℕ → List ℕ → List ℕ
page_run zero p ps = ps
page_run (suc n) p ps = page_run n (p + page_size) (p ∷ ps)

length-page_run : (n p : ℕ) (ps : List ℕ) → length (page_run n p ps) ≡ n + length ps
length-page_run zero p ps = omega arith
length-page_run (suc n) p ps = omega (arith, length-page_run n (p + page_size) (p ∷ ps))

-- An address behind the run is in it only if it was there before.
not-mem-page_run : (n p a : ℕ) (ps : List ℕ) → p + n * page_size ≤ a → a ∉ ps → a ∉ page_run n p ps
not-mem-page_run zero p a ps h out = out
not-mem-page_run (suc n) p a ps h out =
    not-mem-page_run n (p + page_size) a (p ∷ ps) (omega arith) (ground arith)

-- What FreeRange() leaves: the pages `ps` are free, at the same end of the kernel.
pub record Freed (k k' : Kernel) (ps : List ℕ) : Type 0 where
  pub free : IsFree k' ps
  pub same_end : k'.kernel_end ≡ k.kernel_end

module _ (stop : ℕ) (below : stop ≤ phys_stop) where
  -- The loop frees the pages from `p` on that end before `stop`.
  free_from-page_run :
      (n fuel p : ℕ) (k : Kernel) (ps : List ℕ)
      → IsFree k ps
      → p % page_size ≡ 0
      → k.kernel_end ≤ p
      → 0 < p
      → ((a : ℕ) → p ≤ a → a ∉ ps)
      → n ≡ (stop - p - 1) / page_size
      → n < fuel
      → (k' : Kernel) × (free_from fuel p stop k ≡ ok tt k') × Freed k k' (page_run n p ps)
  unfolding free_from
  free_from-page_run n zero p k ps f al ab ne out e fu = absurd (omega arith)
  free_from-page_run zero (suc fuel) p k ps f al ab ne out e fu =
      (k, rw (le→ltb (p + page_size) stop (omega arith)), record { free = f; same_end = refl })
  free_from-page_run (suc n) (suc fuel) p k ps f al ab ne out e fu =
      let page : IsPage k.kernel_end p = record {
        aligned = al;
        above = ab;
        below = omega arith;
        ne_zero = ne;
      } in
      let (step, f') = kfree-IsFree k p ps f page (out p (omega arith)) in
      let (k', run, g) =
        free_from-page_run n fuel (p + page_size) (freed p k) (p ∷ ps) f' (omega arith)
          (omega arith) (omega arith) (λ a h. ground (arith, out a)) (omega arith) (omega arith) in
      (
        k',
        rw (lt→ltb (p + page_size) stop (omega arith), step) run,
        record { free = g.free; same_end = g.same_end },
      )

-- FreeRange() is the loop from the rounded start.
free_range_aligned :
    (k : Kernel) (start stop : ℕ)
    → start % page_size ≡ 0
    → free_range start stop k ≡ free_from (stop / page_size + 1) start stop k
unfolding free_range
free_range_aligned k start stop al = let e : page_round_down start ≡ start = omega arith in rw e

free_from_refused :
    (fuel p stop : ℕ) (k : Kernel)
    → p + page_size < stop
    → kfree p k ≡ panic Run.kfree_invalid
    → free_from (suc fuel) p stop k ≡ panic Run.kfree_invalid
unfolding free_from
free_from_refused fuel p stop k lt e = rw (lt→ltb (p + page_size) stop lt, e)

free_range_misaligned :
    (k : Kernel) (stop : ℕ)
    → k.kernel_end % page_size ≢ 0
    → k.kernel_end + page_size < stop
    → free_range k.kernel_end stop k ≡ panic Run.kfree_invalid
unfolding free_range
free_range_misaligned k stop mis lt = rw add-one (
    free_from_refused (stop / page_size) (page_round_down k.kernel_end) stop k (omega arith)
      ((kfree-invalid k _).1 (inr (inl (omega arith)))))

-- The kernel when kinit() copies the name of the lock.
abbrev pub unlocked : Kernel → Kernel
unlocked k = record k { kmem = record (k.kmem) { lock = record (k.kmem.lock) { locked = false } } }

-- What FreeRange() starts from, with the memory that the copy of the name leaves.
abbrev emptied : Kernel → Memory → Kernel
emptied k m = record k { mem = m; kmem = record { lock = free_lock; freelist = 0; npages = 0 } }

-- Where the copy of the lock's name, through a pointer that nothing sets, returns and changes nothing but
-- memory, kinit() outside every critical section and on an aligned kernel end above 0 and below PHYSTOP
-- returns: it frees every page from there on that ends below PHYSTOP, and the last page below PHYSTOP
-- is not among them.
pub kinit-page_run :
    (k : Kernel) (name_lock : Cmd Kernel (Unit {0})) (m : Memory)
    → name_lock (unlocked k) ≡ ok tt (record (unlocked k) { mem = m })
    → k.kernel_end % page_size ≡ 0
    → 0 < k.kernel_end
    → k.kernel_end < phys_stop
    → k.cpu.noff ≡ 0
    → let n = (phys_stop - k.kernel_end - 1) / page_size in
      (k' : Kernel) × (kinit name_lock k ≡ ok tt k')
      × IsFree k' (page_run n k.kernel_end [])
      × (length (page_run n k.kernel_end []) ≡ n)
      × ((phys_stop - page_size) ∉ page_run n k.kernel_end [])
unfolding kinit
kinit-page_run k name_lock m named al ne lt d =
    let n : ℕ = (phys_stop - k.kernel_end - 1) / page_size in
    let f : IsFree (emptied k m) [] = record {
      chain = refl;
      count = refl;
      unlocked = refl;
      depth = d;
    } in
    let (k', run, g) =
      free_from-page_run phys_stop (omega arith) n (phys_stop / page_size + 1) k.kernel_end
        (emptied k m) [] f al (omega arith) ne (λ a h. refl) refl (omega arith) in
    (
      k',
      rw (named, free_range_aligned (emptied k m) k.kernel_end phys_stop al) run,
      g.free,
      omega (arith, length-page_run n k.kernel_end []),
      not-mem-page_run n k.kernel_end (phys_stop - page_size) [] (omega arith) refl,
    )

-- Where that copy returns, kinit() stops the kernel if the kernel's end is not aligned: FreeRange() rounds it down, and
-- kfree() refuses that page.
pub kinit_misaligned :
    (k : Kernel) (name_lock : Cmd Kernel (Unit {0})) (m : Memory)
    → name_lock (unlocked k) ≡ ok tt (record (unlocked k) { mem = m })
    → k.kernel_end % page_size ≢ 0
    → k.kernel_end + page_size < phys_stop
    → kinit name_lock k ≡ panic Run.kfree_invalid
unfolding kinit
kinit_misaligned k name_lock m named mis lt =
    rw named (free_range_misaligned (emptied k m) phys_stop mis lt)
