-- ===== src/Proc/Wakeup.antt =====
-- wakeup() and curproc().
use page_fault_os_for_risc_v.Prelude.{
  ℕ, zero, suc, ◌+◌, ◌≤◌, ◌≡◌, ◌∙◌, ap, ◌&&◌, some, arith, ◌==◌, ltb, leb, if◌then◌else◌,
  Bool-cases, inl, inr,
}
use page_fault_os_for_risc_v.Kernel.{Proc, Kernel, Chan}
use page_fault_os_for_risc_v.Kernel.Run
use page_fault_os_for_risc_v.Kernel.Run.{ok, panic, pure}
use page_fault_os_for_risc_v.Sync.Spinlock.Laws.{settled}
use page_fault_os_for_risc_v.Proc.{nproc, set_proc, curproc, woken, wake_from, wakeup}

-- The table after the rounds from `i` to `i + n`.
abbrev pub woken_table : (n i : ℕ) → Chan → (ℕ → Proc) → ℕ → Proc
woken_table n i c t j = if leb i j && ltb j (i + n) then woken c (t j) else t j

-- Two tables with the same entries are one.
same_table :
    (k : Kernel) (t t' : ℕ → Proc)
    → ((j : ℕ) → t j ≡ t' j)
    → pure {A = Unit {0}} tt (record k { table = t }) ≡ pure tt (record k { table = t' })
same_table k t t' h = ap (λ x. ok tt (record k { table = x })) (λ d j. h j d)

next_table :
    (n i : ℕ) (c : Chan) (k : Kernel) (j : ℕ)
    → woken_table n (i + 1) c (set_proc i (woken c (k.table i)) k).table j
      ≡ woken_table (suc n) i c k.table j
next_table n i c k j = elim (Bool-cases (j == i)) [
  | inl e ↦ let e' : j ≡ i = ground arith in rw e' (ground arith)
  | inr ne ↦ rw ne (ground arith)
]

wake_from_lem :
    (n i : ℕ) (c : Chan) (k : Kernel)
    → wake_from n i c k ≡ ok tt (record k { table = woken_table n i c k.table })
unfolding wake_from
wake_from_lem zero i c k = same_table k k.table _ (λ j. ground arith)
wake_from_lem (suc n) i c k =
    wake_from_lem n (i + 1) c (set_proc i (woken c (k.table i)) k)
    ∙ same_table k _ _ (next_table n i c k)

-- wakeup() makes exactly the processes of the table that sleep on the channel runnable, and changes
-- nothing else.
pub wakeup_lem :
    (c : Chan) (k : Kernel)
    → wakeup c k
      ≡ ok tt (record k { table = λ j. if ltb j nproc then woken c (k.table j) else k.table j })
unfolding wakeup
wakeup_lem c k = wake_from_lem nproc 0 c k ∙ same_table k _ _ (λ j. ground arith)

-- Outside every critical section curproc() returns the hart's process, and leaves the interrupts off.
pub curproc-ok :
    (k : Kernel) → k.cpu.noff ≡ 0 → curproc k ≡ ok k.current (record k { cpu = settled k.cpu })
unfolding curproc
curproc-ok k d = ground arith

-- Inside a critical section curproc() stops the kernel.
pub curproc_nested : (k : Kernel) → 1 ≤ k.cpu.noff → curproc k ≡ panic Run.pop_off
unfolding curproc
curproc_nested k d = ground arith

-- The same, for a hart that runs the process `i`.
pub curproc-some :
    (k : Kernel) (i : ℕ)
    → k.cpu.noff ≡ 0
    → k.current ≡ some i
    → curproc k ≡ ok (some i) (record k { cpu = settled k.cpu })
curproc-some k i d c = curproc-ok k d ∙ ap (λ x. ok x (record k { cpu = settled k.cpu })) c
