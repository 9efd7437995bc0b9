-- ===== src/Fs/Vfs/Handles/Laws.antt =====
-- allocFileHandle() of kern/fs/vfs.cpp: which handle it hands out.
use page_fault_os_for_risc_v.Prelude.{
  from_here, ℕ, zero, suc, ◌+◌, ◌≤◌, ◌<◌, ◌≡◌, ◌⊎◌, refl, false, true, arith, Bool-cases, inl, inr,
}
use page_fault_os_for_risc_v.Kernel.{Kernel}
use page_fault_os_for_risc_v.Kernel.Run.{ok, panic, alloc_file}
use page_fault_os_for_risc_v.Sync.Spinlock.{free_lock, release}
use page_fault_os_for_risc_v.Sync.Spinlock.Laws.{taken, acquire-ok, release-ok, holding-taken}
use page_fault_os_for_risc_v.Proc.{nfile}
use page_fault_os_for_risc_v.Fs.Vfs.Handles.{
  handles_ref, set_handle, is_unused, alloc_handle_from, alloc_file_handle,
}

-- The kernel `t` after the lock of the table was given back.
abbrev pub closed : Kernel → Kernel
closed t = record (handles_ref.put free_lock t) { cpu = record t.cpu { noff = 0; intr = false } }

module _ (k : Kernel) (d : k.cpu.noff ≡ 0) where
  abbrev pub opened : Kernel
  opened = taken handles_ref k

  -- The kernel after the handle `i` was handed out.
  abbrev pub granted : ℕ → Kernel
  granted i = set_handle i (record (k.handles i) { ref = 1 }) (closed opened)

  alloc_handle_from-first :
      (n i : ℕ)
      → ((g : ℕ) × (alloc_handle_from n i opened ≡ ok (suc g) (granted g))
          × (g < i + n)
          × (is_unused (k.handles g) ≡ true)
          × ((j : ℕ) → i ≤ j → j < g → is_unused (k.handles j) ≡ false))
        ⊎ ((alloc_handle_from n i opened ≡ panic alloc_file)
            × ((j : ℕ) → i ≤ j → j < i + n → is_unused (k.handles j) ≡ false))
  unfolding alloc_handle_from
  alloc_handle_from-first zero i = inr (refl, λ j lo hi. absurd (omega arith))
  alloc_handle_from-first (suc n) i = elim (Bool-cases (is_unused (k.handles i))) [
    | inl z ↦
        let last : release handles_ref opened ≡ ok tt (closed opened) =
          release-ok handles_ref opened (holding-taken handles_ref k) refl (omega arith) in
        inl (i, rw z (rw last refl), omega arith, z, λ j lo hi. absurd (omega arith))
    | inr nz ↦
        let from = λ (b : ℕ). from_here (λ (j : ℕ). is_unused (k.handles j) ≡ false) i b nz in
        elim (alloc_handle_from-first n (i + 1)) [
          | inl (g, e, lt, f, before) ↦ inl (g, rw nz e, omega arith, f, from g before)
          | inr (e, before) ↦ inr (rw nz e, from (i + suc n) (λ j lo hi. before j lo (omega arith)))
        ]
  ]

  -- With its lock free and interrupts at depth 0, allocFileHandle() hands out the first handle that
  -- has no reference and no type, gives it one reference and gives the lock back, or stops in its
  -- panic exactly if every handle is in use.
  pub alloc_file_handle_first :
      k.handles_lock.locked ≡ false
      → ((g : ℕ) × (alloc_file_handle k ≡ ok (suc g) (granted g))
          × (g < nfile)
          × (is_unused (k.handles g) ≡ true)
          × ((j : ℕ) → j < g → is_unused (k.handles j) ≡ false))
        ⊎ ((alloc_file_handle k ≡ panic alloc_file)
            × ((j : ℕ) → j < nfile → is_unused (k.handles j) ≡ false))
  unfolding alloc_file_handle
  alloc_file_handle_first u = elim (alloc_handle_from-first nfile 0) [
    | inl (g, e, lt, f, before) ↦
        inl (g, rw (acquire-ok handles_ref k u) e, lt, f, λ j. before j (omega arith))
    | inr (e, before) ↦ inr (rw (acquire-ok handles_ref k u) e, λ j. before j (omega arith))
  ]
