-- ===== src/Proc/Sched/Laws.antt =====
-- What the nested uses of curproc() do to scheduling.
use page_fault_os_for_risc_v.Prelude.{
  ℕ, ◌%◌, ◌^◌, ◌+◌, ◌≤◌, ◌≡◌, ◌≢◌, ◌∙◌, refl, ap, Bool, false, Option, none, some, arith, ◌==◌, ltb,
  if◌then◌else◌, eq→==, Bool-cases, inl, inr,
}
use page_fault_os_for_risc_v.Kernel.{Kernel, Chan, on_ticks, running, runnable}
use page_fault_os_for_risc_v.Kernel.Run
use page_fault_os_for_risc_v.Kernel.Run.{Cmd, Panic, ok, panic, ◌>>◌}
use page_fault_os_for_risc_v.Sync.Spinlock.{LockRef, free_lock}
use page_fault_os_for_risc_v.Sync.Spinlock.Laws.{
  settled, taken, acquire-ok, release-ok, holding-taken,
}
use page_fault_os_for_risc_v.Proc.{deref, nproc, set_proc, proc_lock, woken}
use page_fault_os_for_risc_v.Proc.Wakeup.{curproc-ok, curproc-some, curproc_nested, wakeup_lem}
use page_fault_os_for_risc_v.Proc.Sched.{
  check_and_switch, prepare_sched, yield, sleep, sched_entry, forkret, timer_tick, tickslock_ref,
}

module _ (switch : Cmd Kernel (Unit {0})) where
  -- A process that gives up the hart of its own accord never gets to the scheduler: yield() stops the
  -- kernel in the curproc() of prepareSched().
  pub yield_stuck :
      (k : Kernel) (i : ℕ)
      → k.cpu.noff ≡ 0
      → k.current ≡ some i
      → (k.table i).lock.locked ≡ false
      → yield switch k ≡ panic Run.pop_off
  unfolding yield prepare_sched
  yield_stuck k i d c u =
      let k1 : Kernel = record k { cpu = settled k.cpu } in
      let t : Kernel = taken (proc_lock i) k1 in
      let s : Kernel = set_proc i (record (t.table i) { state = runnable }) t in
      rw (curproc-some k i d c)
        (rw (acquire-ok (proc_lock i) k1 u, curproc_nested s (omega arith)) refl)

  -- sleep() under any lock stops the kernel before the process is marked as sleeping.
  pub sleep_stuck :
      (c : Chan) (l : LockRef) (own : Bool) (k : Kernel)
      → 1 ≤ k.cpu.noff
      → sleep switch c l own k ≡ panic Run.pop_off
  unfolding sleep
  sleep_stuck c l own k d = rw (curproc_nested k d) refl

-- A new process, which starts with its own lock held, stops the kernel before it gets to user mode.
pub forkret_stuck :
    (rest : Cmd Kernel (Unit {0})) (k : Kernel)
    → 1 ≤ k.cpu.noff
    → forkret rest k ≡ panic Run.pop_off
unfolding forkret
forkret_stuck rest k d = rw (curproc_nested k d) refl

-- A timer interrupt outside every critical section counts one tick, wakes those that sleep on the ticks,
-- and gives the lock back.
pub timer_tick_lem :
    (k : Kernel)
    → k.cpu.noff ≡ 0
    → k.tickslock.locked ≡ false
    → timer_tick k
      ≡ ok tt (record k {
        cpu = settled k.cpu;
        ticks = (k.ticks + 1) % 2 ^ 32;
        table = λ j. if ltb j nproc then woken on_ticks (k.table j) else k.table j;
        tickslock = free_lock;
      })
unfolding timer_tick
timer_tick_lem k d u =
    let t : Kernel = taken tickslock_ref k in
    let t1 : Kernel = record t { ticks = (k.ticks + 1) % 2 ^ 32 } in
    let s : Kernel = record t1 {
      table = λ j. if ltb j nproc then woken on_ticks (k.table j) else k.table j;
    } in
    rw (acquire-ok tickslock_ref k u, wakeup_lem on_ticks t1)
      (release-ok tickslock_ref s (holding-taken tickslock_ref k) refl (omega arith)
        ∙ ap (λ c. ok tt (record (tickslock_ref.put free_lock s) { cpu = c })) (rw d refl))

-- At depth 0 the checks fail.
deref_stuck :
    (switch : Cmd Kernel (Unit {0})) (c : Option ℕ) (k s : Kernel)
    → k.cpu.noff ≡ 0
    → deref c (check_and_switch switch) k ≢ ok tt s
unfolding check_and_switch
deref_stuck switch none k s d = λ e. cc
deref_stuck switch (some i) k s d = ground arith

-- prepareSched() never returns, whatever the state: outside every critical section it wants a depth of 1,
-- and inside one its curproc() stops the kernel.
pub prepare_sched_stuck :
    (switch : Cmd Kernel (Unit {0})) (k s : Kernel) → prepare_sched switch k ≢ ok tt s
unfolding prepare_sched
prepare_sched_stuck switch k s = elim (Bool-cases (k.cpu.noff == 0)) [
  | inr nested ↦ rw (curproc_nested k (ground arith)) (λ e. cc)
  | inl z ↦
      let d : k.cpu.noff ≡ 0 = ground arith in
      rw (curproc-ok k d) (deref_stuck switch k.current _ s refl)
]

-- The kernel when the scheduler has taken the lock of the entry `i` and made it the running process.
abbrev pub started : ℕ → Kernel → Kernel
started i k =
    let t = taken (proc_lock i) k in
    record (set_proc i (record (t.table i) { state = running }) t) { current = some i }

-- The scheduler switches to a runnable process with the process marked as running, its lock held and
-- interrupts off.
sched_entry-started :
    (switch : Cmd Kernel (Unit {0})) (k : Kernel) (i : ℕ) (p : Panic)
    → (k.table i).lock.locked ≡ false
    → (k.table i).state ≡ runnable
    → switch (started i k) ≡ panic p
    → sched_entry switch i k ≡ panic p
unfolding sched_entry
sched_entry-started switch k i p u r e =
    let t : Kernel = taken (proc_lock i) k in
    let st : (t.table i).state ≡ runnable = rw (eq→== i i refl) r in
    rw (acquire-ok (proc_lock i) k u, st) (rw st (rw e refl))

-- The first process that the scheduler starts stops the kernel.
pub first_run_stuck :
    (k : Kernel) (i : ℕ) (rest : Cmd Kernel (Unit {0}))
    → (k.table i).lock.locked ≡ false
    → (k.table i).state ≡ runnable
    → sched_entry (forkret rest) i k ≡ panic Run.pop_off
first_run_stuck k i rest u r =
    sched_entry-started (forkret rest) k i Run.pop_off u r
      (forkret_stuck rest (started i k) (omega arith))
