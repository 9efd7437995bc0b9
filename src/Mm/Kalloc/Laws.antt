-- ===== src/Mm/Kalloc/Laws.antt =====
-- kfree() and kalloc() on a well-formed free list.
use page_fault_os_for_risc_v.Prelude.{
  ℕ, ◌+◌, ◌-◌, ◌%◌, ◌^◌, ◌≤◌, ◌<◌, ◌≡◌, ◌≢◌, ◌⊎◌, ◌↔◌, refl, false, List, [], ◌∷◌, length, arith,
  eq→==,
}
use page_fault_os_for_risc_v.Kernel.{Kernel, write_word}
use page_fault_os_for_risc_v.Kernel.Run
use page_fault_os_for_risc_v.Kernel.Run.{ok, panic}
use page_fault_os_for_risc_v.Sync.Spinlock.{free_lock}
use page_fault_os_for_risc_v.Sync.Spinlock.Laws.{settled}
use page_fault_os_for_risc_v.Mm.Layout.{u64, page_size, phys_stop, fill_page}
use page_fault_os_for_risc_v.Mm.Kalloc.{is_invalid, kfree, kalloc}
use page_fault_os_for_risc_v.Mm.Kalloc.Chain.{IsPage, ◌∉◌, Chain, Chain-fill_page, Chain-write_word}

-- The allocator holds the pages `ps`, its lock is free, and this hart is in no critical section.
pub record IsFree (k : Kernel) (ps : List ℕ) : Type 0 where
  pub chain : Chain k.kernel_end k.mem k.kmem.freelist ps
  pub count : k.kmem.npages ≡ u64 (length ps)
  pub unlocked : k.kmem.lock.locked ≡ false
  pub depth : k.cpu.noff ≡ 0

-- The kernel after kfree(pa).
abbrev pub freed : ℕ → Kernel → Kernel
freed pa k = record k {
  cpu = settled k.cpu;
  mem = write_word (fill_page k.mem pa 1) pa k.kmem.freelist;
  kmem = record { lock = free_lock; freelist = pa; npages = u64 (k.kmem.npages + 1) };
}

-- The kernel after a kalloc() that takes the page `p`.
abbrev pub given : ℕ → Kernel → Kernel
given p k = record k {
  cpu = settled k.cpu;
  mem = fill_page k.mem p 5;
  kmem = record { lock = free_lock; freelist = k.mem p; npages = u64 (k.kmem.npages + 2 ^ 64 - 1) };
}

-- The kernel after a kalloc() that finds no page.
abbrev pub refused : Kernel → Kernel
refused k = record k { cpu = settled k.cpu; kmem = record (k.kmem) { lock = free_lock } }

pub valid_page : (k : Kernel) (pa : ℕ) → IsPage k.kernel_end pa → is_invalid k pa ≡ false
valid_page k pa p = ground arith

kfree-freed :
    (k : Kernel) (pa : ℕ)
    → IsPage k.kernel_end pa
    → k.kmem.lock.locked ≡ false
    → k.cpu.noff ≡ 0
    → kfree pa k ≡ ok tt (freed pa k)
unfolding kfree
kfree-freed k pa p u d = ground (arith, valid_page k pa p)

kalloc-given :
    (k : Kernel)
    → k.kmem.freelist ≢ 0
    → k.kmem.lock.locked ≡ false
    → k.cpu.noff ≡ 0
    → kalloc k ≡ ok k.kmem.freelist (given k.kmem.freelist k)
unfolding kalloc
kalloc-given k n u d = ground arith

kalloc-refused :
    (k : Kernel)
    → k.kmem.freelist ≡ 0
    → k.kmem.lock.locked ≡ false
    → k.cpu.noff ≡ 0
    → kalloc k ≡ ok 0 (refused k)
unfolding kalloc
kalloc-refused k n u d = ground arith

-- kfree(pa) of a page that is not free puts it at the head of the free list.
pub kfree-IsFree :
    (k : Kernel) (pa : ℕ) (ps : List ℕ)
    → IsFree k ps
    → IsPage k.kernel_end pa
    → pa ∉ ps
    → (kfree pa k ≡ ok tt (freed pa k)) × IsFree (freed pa k) (pa ∷ ps)
unfolding write_word
kfree-IsFree k pa ps f p out = (
  kfree-freed k pa p f.unlocked f.depth,
  record {
    chain = (
      refl,
      p,
      out,
      rw (eq→== pa pa refl) (
          Chain-write_word k.kernel_end _ pa _ _ ps out
            (Chain-fill_page k.kernel_end k.mem pa 1 _ ps p.aligned out f.chain)),
    );
    count = omega (arith, f.count);
    unlocked = refl;
    depth = refl;
  },
)

-- kalloc() hands out the first page of a free list, filled with fives, and keeps the others.
pub kalloc-IsFree :
    (k : Kernel) (p : ℕ) (ps : List ℕ)
    → IsFree k (p ∷ ps)
    → (kalloc k ≡ ok p (given p k)) × IsFree (given p k) ps
kalloc-IsFree k p ps f = (
  rw (← f.chain.0)
      (kalloc-given k (rw f.chain.0 (omega (arith, f.chain.1.ne_zero))) f.unlocked f.depth),
  record {
    chain = Chain-fill_page k.kernel_end k.mem p 5 _ ps f.chain.1.aligned f.chain.2 f.chain.3;
    count = omega (arith, f.count);
    unlocked = refl;
    depth = refl;
  },
)

-- On an empty free list kalloc() returns the null pointer, and the list stays empty.
pub kalloc-empty :
    (k : Kernel) → IsFree k [] → (kalloc k ≡ ok 0 (refused k)) × IsFree (refused k) []
kalloc-empty k f = (
  kalloc-refused k f.chain f.unlocked f.depth,
  record { chain = f.chain; count = f.count; unlocked = refl; depth = refl },
)

-- kfree() reports an invalid address exactly at those that are not aligned, below the kernel's end
-- or above PHYSTOP.
pub kfree-invalid :
    (k : Kernel) (pa : ℕ)
    → (kfree pa k ≡ panic Run.kfree_invalid)
      ↔ ((pa % page_size ≢ 0) ⊎ (pa < k.kernel_end) ⊎ (phys_stop < pa))
unfolding kfree
kfree-invalid k pa = (λ e. ground arith, λ e. ground arith)

-- Under a lock that the hart holds already, kalloc() stops the kernel when it gives its own lock
-- back.
pub kalloc_nested :
    (k : Kernel) → k.kmem.lock.locked ≡ false → 1 ≤ k.cpu.noff → kalloc k ≡ panic Run.pop_off
unfolding kalloc
kalloc_nested k u d = ground arith

pub kfree_nested :
    (k : Kernel) (pa : ℕ)
    → IsPage k.kernel_end pa
    → k.kmem.lock.locked ≡ false
    → 1 ≤ k.cpu.noff
    → kfree pa k ≡ panic Run.pop_off
unfolding kfree
kfree_nested k pa p u d = ground (arith, valid_page k pa p)
