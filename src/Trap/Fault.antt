-- ===== src/Trap/Fault.antt =====
-- User processes that UserTrap() kills, and the pages that it loads.
use page_fault_os_for_risc_v.Prelude.{
  ℕ, ◌-◌, ◌^◌, ◌≡◌, ◌≢◌, ◌⊎◌, ◌∙◌, refl, sym, inl, inr, some, none, true, false, ◌==◌, ◌&&◌, eq→==,
  arith,
}
use page_fault_os_for_risc_v.Kernel.{Kernel, write_word}
use page_fault_os_for_risc_v.Kernel.Run.{Cmd, ok, pure, ◌>>◌}
use page_fault_os_for_risc_v.Sync.Spinlock.Laws.{settled}
use page_fault_os_for_risc_v.Proc.{nommapfile, set_proc}
use page_fault_os_for_risc_v.Proc.Wakeup.{curproc-some}
use page_fault_os_for_risc_v.Proc.Exit.{exit}
use page_fault_os_for_risc_v.Proc.Regions.{find_region}
use page_fault_os_for_risc_v.Proc.Exit.Laws.{Endless-first, exit-Endless}
use page_fault_os_for_risc_v.Trap.{
  Board, external_cause, timer_cause, is_fault, epc_of, on_fault, on_device, on_cause, dev_intr,
  from_user, user_trap, user_trap_ret,
}
use page_fault_os_for_risc_v.Trap.User.{user_trap-user}

module _ (b : Board) (k : Kernel) (i : ℕ) (d : k.cpu.noff ≡ 0) (c : k.current ≡ some i)
    (user : k.csr.spp ≡ false) where
  -- The process is marked as killed, and its epc saved.
  abbrev pub doomed : Kernel
  doomed =
      set_proc i (record (k.table i) { killed = 1 })
        (record k {
          cpu = settled k.cpu;
          mem = write_word k.mem (epc_of (k.table i).trapframe) k.csr.sepc;
          csr = record k.csr { stvec = b.kernvec };
        })

  abbrev pub last_exit : Cmd Kernel (Unit {0})
  last_exit = exit b.fs b.switch b.fuel (2 ^ 32 - 1)

  dies_of_fault :
      is_fault k.csr.scause ≡ true
      → find_region nommapfile 0 (k.table i).vma k.vmas k.csr.stval ≡ none
      → user_trap b k ≡ (last_exit >> (pure tt >> user_trap_ret b)) doomed
  unfolding from_user on_cause on_fault
  dies_of_fault f n =
      let not_call : (k.csr.scause == 8) ≡ false = ground arith in
      user_trap-user b k user
      ∙ rw
          (
            curproc-some (record k { csr = record k.csr { stvec = b.kernvec } }) i d c,
            not_call,
            f,
            n,
            eq→== i i refl,
          )
          refl

  dies_of_cause :
      (k.csr.scause == 8) ≡ false
      → is_fault k.csr.scause ≡ false
      → (k.csr.scause == external_cause && k.csr.stval == 9) ≡ false
      → (k.csr.scause == timer_cause) ≡ false
      → user_trap b k ≡ (last_exit >> (pure tt >> user_trap_ret b)) doomed
  unfolding from_user on_cause on_device dev_intr
  dies_of_cause n f x t =
      user_trap-user b k user
      ∙ rw
          (
            curproc-some (record k { csr = record k.csr { stvec = b.kernvec } }) i d c,
            n,
            f,
            x,
            t,
            eq→== i i refl,
          )
          refl

  -- A load fault at an address that no region of the process holds, and a cause that is neither a system
  -- call, a load fault, the timer nor an external interrupt, mark the process as killed and go to
  -- exit(): UserTrap() does not get back to user mode.
  pub user_trap_kills :
      ((is_fault k.csr.scause ≡ true)
          × (find_region nommapfile 0 (k.table i).vma k.vmas k.csr.stval ≡ none))
        ⊎ (((k.csr.scause == 8) ≡ false)
            × (is_fault k.csr.scause ≡ false)
            × ((k.csr.scause == external_cause && k.csr.stval == 9) ≡ false)
            × ((k.csr.scause == timer_cause) ≡ false))
      → (user_trap b k ≡ (last_exit >> (pure tt >> user_trap_ret b)) doomed)
        × ((a : Unit {0}) (t : Kernel) → user_trap b k ≢ ok a t)
  user_trap_kills h =
      let e : user_trap b k ≡ (last_exit >> (pure tt >> user_trap_ret b)) doomed = elim h [
        | inl (f, n) ↦ dies_of_fault f n
        | inr (n, f, x, t) ↦ dies_of_cause n f x t
      ] in
      (
        e,
        λ a t r.
            Endless-first (last_exit doomed) _
              (exit-Endless b.fs b.switch b.fuel (2 ^ 32 - 1) doomed) a t (sym e ∙ r),
      )
