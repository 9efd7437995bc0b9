-- ===== src/Proc/Alloc/Laws.antt =====
-- allocproc(): its search for an unused entry, and what follows.
use page_fault_os_for_risc_v.Prelude.{
  ℕ, zero, suc, ◌+◌, ◌≤◌, ◌<◌, ◌≡◌, ◌∙◌, refl, true, false, some, arith, ◌==◌, eq→==,
}
use page_fault_os_for_risc_v.Kernel.{Kernel}
use page_fault_os_for_risc_v.Kernel.Run
use page_fault_os_for_risc_v.Kernel.Run.{ok, panic}
use page_fault_os_for_risc_v.Sync.Spinlock.{free_lock, release}
use page_fault_os_for_risc_v.Sync.Spinlock.Laws.{taken, acquire-ok, release-ok, holding-taken}
use page_fault_os_for_risc_v.Mm.Kalloc.Laws.{kalloc_nested}
use page_fault_os_for_risc_v.Proc.{proc_lock}
use page_fault_os_for_risc_v.Proc.Alloc.{is_unused, find_unused, set_up, allocproc}

-- The entries from `i` on are locked by nobody, and the entry `n` places on is the first unused one.
pub record First (k : Kernel) (n i : ℕ) : Type 0 where
  pub unlocked : (j : ℕ) → j ≤ n → (k.table (i + j)).lock.locked ≡ false
  pub used : (j : ℕ) → j < n → is_unused (k.table (i + j)).state ≡ false
  pub found : is_unused (k.table (i + n)).state ≡ true

module _ (k : Kernel) (i : ℕ) (d : k.cpu.noff ≡ 0) (u : (k.table i).lock.locked ≡ false) where
  abbrev held : Kernel
  held = taken (proc_lock i) k

  -- The kernel after the lock of the entry was taken and given back.
  abbrev passed : Kernel
  passed = record ((proc_lock i).put free_lock held) {
    cpu = record held.cpu { noff = 0; intr = false };
  }

  here_state : is_unused (held.table i).state ≡ is_unused (k.table i).state
  here_state = rw (eq→== i i refl) refl

  find_unused-here :
      (f : ℕ) → is_unused (k.table i).state ≡ true → find_unused (suc f) i true k ≡ ok (some i) held
  unfolding find_unused
  find_unused-here f e = rw (acquire-ok (proc_lock i) k u) (rw (here_state, e) refl)

  find_unused-next :
      (f : ℕ)
      → is_unused (k.table i).state ≡ false
      → find_unused (suc f) i true k ≡ find_unused f (i + 1) true passed
  unfolding find_unused
  find_unused-next f e =
      let last : release (proc_lock i) held ≡ ok tt passed =
        release-ok (proc_lock i) held (holding-taken (proc_lock i) k) refl (omega arith) in
      rw (acquire-ok (proc_lock i) k u) (rw (here_state, e) (rw last refl))

-- The search ends at the first unused entry, inside one critical section.
find_unused-First :
    (n f i : ℕ) (k : Kernel)
    → k.cpu.noff ≡ 0
    → First k n i
    → n < f
    → (s : Kernel) × (find_unused f i true k ≡ ok (some (i + n)) s)
      × (s.cpu.noff ≡ 1)
      × (s.kmem ≡ k.kmem)
find_unused-First n zero i k d h lt = absurd (omega arith)
find_unused-First zero (suc f) i k d h lt =
    let e : i + 0 ≡ i = omega arith in
    let u : (k.table i).lock.locked ≡ false = rw e at (h.unlocked 0 (omega arith)) in
    (held k i d u, rw e (find_unused-here k i d u f (rw e at h.found)), rw d refl, refl)
find_unused-First (suc n) (suc f) i k d h lt =
    let e : i + 0 ≡ i = omega arith in
    let u : (k.table i).lock.locked ≡ false = rw e at (h.unlocked 0 (omega arith)) in
    let w : is_unused (k.table i).state ≡ false = rw e at (h.used 0 (omega arith)) in
    let shift : (j : ℕ) → i + suc j ≡ i + 1 + j = λ j. omega arith in
    let later : (j : ℕ) → (passed k i d u).table (i + 1 + j) ≡ k.table (i + 1 + j) =
      λ j. let ne : (i + 1 + j == i) ≡ false = ground arith in rw ne refl in
    let (s, run, depth, same) =
      find_unused-First n f (i + 1) (passed k i d u) refl
        (record {
          unlocked = λ j l. rw (later j, ← shift j) (h.unlocked (suc j) (omega arith));
          used = λ j l. rw (later j, ← shift j) (h.used (suc j) (omega arith));
          found = rw (later n, ← shift n) h.found;
        })
        (omega arith) in
    (s, rw (shift n) (find_unused-next k i d u f w ∙ run), depth, same)

set_up_nested :
    (depth tramp entry i : ℕ) (s : Kernel)
    → s.kmem.lock.locked ≡ false
    → 1 ≤ s.cpu.noff
    → set_up depth tramp entry i s ≡ panic Run.pop_off
unfolding set_up
set_up_nested depth tramp entry i s u d = rw (kalloc_nested s u d) refl

-- allocproc() stops the kernel as soon as it finds an unused entry: it calls kalloc() under that entry's
-- lock.
pub allocproc_stuck :
    (k : Kernel) (n fuel depth tramp entry : ℕ)
    → k.cpu.noff ≡ 0
    → k.kmem.lock.locked ≡ false
    → First k n 1
    → n < fuel
    → allocproc fuel depth tramp entry true k ≡ panic Run.pop_off
unfolding allocproc
allocproc_stuck k n fuel depth tramp entry d u h lt =
    let (s, run, e, same) = find_unused-First n fuel 1 k d h lt in
    rw run (set_up_nested depth tramp entry (1 + n) s (rw same u) (omega arith))
