-- ===== src/Syscall/Dispatch.antt =====
-- What syscall() does with the number of the call.
use page_fault_os_for_risc_v.Prelude.{
  ℕ, ◌%◌, ◌^◌, ◌<◌, ◌≤◌, ◌≡◌, ◌⊎◌, refl, ap, ◌∙◌, Option, some, none, true, false, ltb, ◌&&◌,
  Bool-cases, inl, inr, arith,
}
use page_fault_os_for_risc_v.Kernel.{Kernel, write_word}
use page_fault_os_for_risc_v.Kernel.Run.{Cmd, ok, panic, syscall_error}
use page_fault_os_for_risc_v.Sync.Spinlock.Laws.{settled}
use page_fault_os_for_risc_v.Proc.Wakeup.{curproc-some}
use page_fault_os_for_risc_v.Syscall.{call_count, register, handler, dispatch, syscall}

module _ (k : Kernel) (i : ℕ) (d : k.cpu.noff ≡ 0) (c : k.current ≡ some i)
    (syscalls : ℕ → Option (Cmd Kernel ℕ)) where
  -- The number of the call, an int.
  abbrev number : ℕ
  number = k.mem (register (k.table i).trapframe 7) % 2 ^ 32

  unknown :
      (number ≡ 0) ⊎ ((call_count ≤ number) ⊎ (syscalls number ≡ none))
      → handler syscalls number ≡ none
  unknown (inl z) =
      let e : (ltb 0 number && ltb number call_count) ≡ false = ground arith in rw e refl
  unknown (inr (inl l)) =
      let e : (ltb 0 number && ltb number call_count) ≡ false = ground arith in rw e refl
  unknown (inr (inr n)) = elim (Bool-cases (ltb 0 number && ltb number call_count)) [
    | inl e ↦ rw e n
    | inr e ↦ rw e refl
  ]

  known :
      (call : Cmd Kernel ℕ)
      → 0 < number
      → number < call_count
      → syscalls number ≡ some call
      → handler syscalls number ≡ some call
  known call a b s = let e : (ltb 0 number && ltb number call_count) ≡ true = ground arith in rw e s

  abbrev at_call : Kernel
  at_call = record k { cpu = settled k.cpu }

  -- For the running process, outside every critical section: syscall() panics if the number of the call is 0,
  -- is 400 or more (a negative one included) or has no entry in the table; otherwise it runs the entry
  -- and stores its result in a0 of the trap frame that the process has then.
  pub syscall_lem :
      ((number ≡ 0) ⊎ ((call_count ≤ number) ⊎ (syscalls number ≡ none))
        → syscall syscalls k ≡ panic syscall_error)
      × ((call : Cmd Kernel ℕ) (r : ℕ) (t : Kernel)
          → 0 < number
          → number < call_count
          → syscalls number ≡ some call
          → call at_call ≡ ok r t
          → syscall syscalls k
            ≡ ok tt (record t { mem = write_word t.mem (register (t.table i).trapframe 0) r }))
  unfolding syscall dispatch
  syscall_lem = (
    λ u.
        rw (curproc-some k i d c)
          (ap (λ h. dispatch i (k.table i).trapframe h at_call) (unknown u)),
    λ call r t a b s e.
        rw (curproc-some k i d c)
          (ap (λ h. dispatch i (k.table i).trapframe h at_call) (known call a b s) ∙ rw e refl),
  )
