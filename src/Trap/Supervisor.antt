-- ===== src/Trap/Supervisor.antt =====
-- Traps from the kernel.
use page_fault_os_for_risc_v.Prelude.{
  ℕ, ◌+◌, ◌%◌, ◌^◌, ◌≡◌, ◌∙◌, refl, ap, some, none, true, false, ltb, ◌==◌, ◌&&◌, not,
  if◌then◌else◌, eq→==, Bool-cases, inl, inr, arith,
}
use page_fault_os_for_risc_v.Kernel.{Kernel, Chan, Proc, running, on_ticks}
use page_fault_os_for_risc_v.Kernel.Run.{
  Cmd, ok, panic, abort, null_pointer, kernel_trap_mode, kernel_trap_enabled,
}
use page_fault_os_for_risc_v.Kernel.Run
use page_fault_os_for_risc_v.Sync.Spinlock.{free_lock}
use page_fault_os_for_risc_v.Sync.Spinlock.Laws.{settled}
use page_fault_os_for_risc_v.Proc.{nproc, woken}
use page_fault_os_for_risc_v.Proc.Wakeup.{curproc-ok, curproc-some}
use page_fault_os_for_risc_v.Proc.Sched.{is_running}
use page_fault_os_for_risc_v.Proc.Sched.Laws.{yield_stuck, timer_tick_lem}
use page_fault_os_for_risc_v.Trap.{
  Board, external_cause, timer_cause, timer, dev_intr, after_device, from_kernel, kernel_trap,
}

is_running-woken : (c : Chan) (p : Proc) → is_running (woken c p).state ≡ is_running p.state
is_running-woken c p = ground arith

module _ (b : Board) (k : Kernel) (spp : k.csr.spp ≡ true) (off : k.cpu.intr ≡ false) where
  kernel_trap-off : kernel_trap b k ≡ from_kernel b k.csr k
  unfolding kernel_trap
  kernel_trap-off =
      (λ i.
        (if not (spp i)
            then abort kernel_trap_mode
            else (λ s. (if s.cpu.intr then abort kernel_trap_enabled else from_kernel b k.csr) s))
          k)
      ∙ (λ i. (if off i then abort kernel_trap_enabled else from_kernel b k.csr) k)

  module _ (d : k.cpu.noff ≡ 0) (u : k.tickslock.locked ≡ false)
      (timed : k.csr.scause ≡ timer_cause) where
    -- The kernel after the tick.
    abbrev pub ticked : Kernel
    ticked = record k {
      cpu = settled k.cpu;
      ticks = (k.ticks + 1) % 2 ^ 32;
      table = λ j. if ltb j nproc then woken on_ticks (k.table j) else k.table j;
      tickslock = free_lock;
    }

    dev_intr-timer : dev_intr b k ≡ ok timer ticked
    unfolding dev_intr
    dev_intr-timer =
        let n : (k.csr.scause == external_cause && k.csr.stval == 9) ≡ false = ground arith in
        rw (n, eq→== k.csr.scause timer_cause timed, timer_tick_lem k d u) refl

    is_running-ticked : (i : ℕ) → is_running (ticked.table i).state ≡ is_running (k.table i).state
    is_running-ticked i = elim (Bool-cases (ltb i nproc)) [
      | inl e ↦ rw e (is_running-woken on_ticks (k.table i))
      | inr e ↦ rw e refl
    ]

    -- A timer interrupt of the kernel, outside every critical section and with the lock of the ticks free: if
    -- the hart has no process, the handler reads through the null pointer; if its process runs and the
    -- lock of the process is free, yield() stops the kernel; if it does not run, the tick is counted,
    -- those that sleep on the ticks are made runnable, and the interrupted code goes on, with the trap
    -- registers as they were and the interrupts off.
    pub kernel_trap-timer :
        (k.current ≡ none → kernel_trap b k ≡ panic null_pointer)
        × ((i : ℕ)
            → k.current ≡ some i
            → (((k.table i).state ≡ running)
                → (k.table i).lock.locked ≡ false
                → kernel_trap b k ≡ panic Run.pop_off)
              × (is_running (k.table i).state ≡ false
                  → kernel_trap b k ≡ ok tt (record ticked { cpu = settled (settled k.cpu) })))
    unfolding from_kernel after_device
    kernel_trap-timer = (
      λ n. kernel_trap-off ∙ rw (dev_intr-timer, curproc-ok ticked refl) (rw n refl),
      λ i c. (
        λ r l.
            let run : is_running (ticked.table i).state ≡ true =
              is_running-ticked i ∙ ap is_running r in
            kernel_trap-off
            ∙ rw
                (
                  dev_intr-timer,
                  curproc-some ticked i refl c,
                  run,
                  yield_stuck b.switch (record ticked { cpu = settled (settled k.cpu) }) i refl c
                      (ground (arith, l)),
                )
                refl,
        λ r.
            kernel_trap-off
            ∙ rw (dev_intr-timer, curproc-some ticked i refl c, is_running-ticked i, r) refl,
      ),
    )
