-- ===== src/Fs/File/Table.antt =====
-- filealloc(): which entry it hands out.
use page_fault_os_for_risc_v.Prelude.{
  from_here, ℕ, zero, suc, ◌+◌, ◌≤◌, ◌<◌, ◌≡◌, ◌≢◌, ◌⊎◌, refl, false, none, some, arith, ◌==◌,
  Bool-cases, inl, inr,
}
use page_fault_os_for_risc_v.Kernel.{Kernel}
use page_fault_os_for_risc_v.Kernel.Run.{ok}
use page_fault_os_for_risc_v.Sync.Spinlock.{free_lock, release}
use page_fault_os_for_risc_v.Sync.Spinlock.Laws.{taken, acquire-ok, release-ok, holding-taken}
use page_fault_os_for_risc_v.Proc.{nfile}
use page_fault_os_for_risc_v.Fs.File.{ftable_ref, set_entry, alloc_from, filealloc}

-- The kernel `t` after the lock of the table was given back.
abbrev pub closed : Kernel → Kernel
closed t = record (ftable_ref.put free_lock t) { cpu = record t.cpu { noff = 0; intr = false } }

module _ (k : Kernel) (d : k.cpu.noff ≡ 0) where
  abbrev pub opened : Kernel
  opened = taken ftable_ref k

  -- The kernel after the entry `i` was handed out.
  abbrev pub granted : ℕ → Kernel
  granted i = closed (set_entry i (record (k.files i) { ref = 1 }) opened)

  alloc_from-first :
      (n i : ℕ)
      → ((g : ℕ) × (alloc_from n i opened ≡ ok (some g) (granted g))
          × (g < i + n)
          × ((k.files g).ref ≡ 0)
          × ((j : ℕ) → i ≤ j → j < g → (k.files j).ref ≢ 0))
        ⊎ ((alloc_from n i opened ≡ ok none (closed opened))
            × ((j : ℕ) → i ≤ j → j < i + n → (k.files j).ref ≢ 0))
  unfolding alloc_from
  alloc_from-first zero i = inr (
    rw (release-ok ftable_ref opened (holding-taken ftable_ref k) refl (omega arith)) refl,
    λ j lo hi. absurd (omega arith),
  )
  alloc_from-first (suc n) i = elim (Bool-cases ((k.files i).ref == 0)) [
    | inl z ↦
        let t : Kernel = set_entry i (record (k.files i) { ref = 1 }) opened in
        let last : release ftable_ref t ≡ ok tt (granted i) =
          release-ok ftable_ref t (holding-taken ftable_ref k) refl (omega arith) in
        inl (i, rw z (rw last refl), omega arith, ground arith, λ j lo hi. absurd (omega arith))
    | inr nz ↦
        let ne : (k.files i).ref ≢ 0 = ground arith in
        let from = λ (b : ℕ). from_here (λ (j : ℕ). (k.files j).ref ≢ 0) i b ne in
        elim (alloc_from-first n (i + 1)) [
          | inl (g, e, lt, f, before) ↦ inl (g, rw nz e, omega arith, f, from g before)
          | inr (e, before) ↦ inr (rw nz e, from (i + suc n) (λ j lo hi. before j lo (omega arith)))
        ]
  ]

  -- filealloc() hands out the first entry without references and gives it one, or the null pointer if all
  -- have some; it gives the lock back either way.
  pub filealloc_first :
      k.ftable_lock.locked ≡ false
      → ((g : ℕ) × (filealloc k ≡ ok (some g) (granted g))
          × (g < nfile)
          × ((k.files g).ref ≡ 0)
          × ((j : ℕ) → j < g → (k.files j).ref ≢ 0))
        ⊎ ((filealloc k ≡ ok none (closed opened)) × ((j : ℕ) → j < nfile → (k.files j).ref ≢ 0))
  unfolding filealloc
  filealloc_first u = elim (alloc_from-first nfile 0) [
    | inl (g, e, lt, f, before) ↦
        inl (g, rw (acquire-ok ftable_ref k u) e, lt, f, λ j. before j (omega arith))
    | inr (e, before) ↦ inr (rw (acquire-ok ftable_ref k u) e, λ j. before j (omega arith))
  ]
