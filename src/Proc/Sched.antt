-- ===== src/Proc/Sched.antt =====
-- kern/proc/proc.cpp: scheduling. `switch` is pswitch(): what the hart does until the caller is resumed.
pub mod Laws
use page_fault_os_for_risc_v.Prelude.{
  refl, ℕ, zero, suc, ◌+◌, ◌-◌, ◌%◌, ◌^◌, Bool, true, false, not, ◌&&◌, ◌||◌, Option, none, some,
  ltb, leb, ◌==◌, if◌then◌else◌,
}
use page_fault_os_for_risc_v.Kernel.{
  Cpu, ProcState, unused, sleeping, runnable, running, zombie, Chan, nowhere, on_proc, on_ticks,
  Proc, Kernel,
}
use page_fault_os_for_risc_v.Kernel.Run.{
  Cmd, out_of_fuel, pure, ◌>>=◌, ◌>>◌, modify, gets, abort, sched_lock, sched_locks, sched_running,
  sched_interruptible,
}
use page_fault_os_for_risc_v.Sync.Spinlock.{LockRef, holding, acquire, release}
use page_fault_os_for_risc_v.Proc.{
  nproc, set_proc, change_proc, get_proc, proc_lock, curproc, deref, same_chan, wakeup,
}

abbrev pub tickslock_ref : LockRef
tickslock_ref = record {
  get = λ k. k.tickslock;
  put = λ l k. record k { tickslock = l };
  get-put = λ l k. refl;
  put-cpu = λ l k. refl;
  put-hart = λ l k. refl;
  get-cpu = λ c k. refl;
}

abbrev pub is_running : ProcState → Bool
is_running running = true
is_running unused = false
is_running sleeping = false
is_running runnable = false
is_running zombie = false

abbrev pub is_runnable : ProcState → Bool
is_runnable runnable = true
is_runnable unused = false
is_runnable sleeping = false
is_runnable running = false
is_runnable zombie = false

abbrev pub is_zombie : ProcState → Bool
is_zombie zombie = true
is_zombie unused = false
is_zombie sleeping = false
is_zombie runnable = false
is_zombie running = false

abbrev pub counts : ProcState → ℕ
counts unused = 0
counts zombie = 0
counts sleeping = 1
counts runnable = 1
counts running = 1

-- intr_on()
abbrev pub intr_on : Cmd Kernel (Unit {0})
intr_on = modify λ k. record k { cpu = record k.cpu { intr = true } }

module _ (switch : Cmd Kernel (Unit {0})) where
  -- What follows the curproc() of prepareSched().
  unfoldable pub check_and_switch : ℕ → Cmd Kernel (Unit {0})
  check_and_switch i k =
      if holding (k.table i).lock k.hart
      then abort sched_lock k
      else if not (k.cpu.noff == 1)
      then abort sched_locks k
      else if is_running (k.table i).state
      then abort sched_running k
      else if k.cpu.intr
      then abort sched_interruptible k
      else (do switch; modify λ s. record s { cpu = record s.cpu { intena = k.cpu.intena } }) k

  unfoldable pub prepare_sched : Cmd Kernel (Unit {0})
  prepare_sched = do p ← curproc; deref p check_and_switch

  unfoldable pub yield : Cmd Kernel (Unit {0})
  yield = do
    p ← curproc
    deref p λ i. do
      acquire (proc_lock i)
      change_proc i (λ p. record p { state = runnable })
      prepare_sched
      release (proc_lock i)

  -- `own` tells whether the lock is that of the process itself.
  unfoldable pub sleep : Chan → LockRef → (own : Bool) → Cmd Kernel (Unit {0})
  sleep c l own = do
    p ← curproc
    deref p λ i. do
      if own then pure tt else do acquire (proc_lock i); release l
      change_proc i (λ p. record p { chan = c; state = sleeping })
      prepare_sched
      change_proc i (λ p. record p { chan = nowhere })
      if own then pure tt else do release (proc_lock i); acquire l

  -- `ticks` is a 32-bit number and `now` a copy of it as 64 bits.
  unfoldable pub sleep_loop : (fuel now sleep_ticks : ℕ) → Cmd Kernel (Unit {0})
  sleep_loop zero now sleep_ticks = λ _. out_of_fuel
  sleep_loop (suc fuel) now sleep_ticks =
      let rest = sleep_loop fuel now sleep_ticks in
      do
        t ← gets λ k. k.ticks
        if ltb ((t + 2 ^ 64 - now) % 2 ^ 64) sleep_ticks
            then (do sleep on_ticks tickslock_ref false; rest)
            else pure tt

  unfoldable pub sleep_time : (fuel sleep_ticks : ℕ) → Cmd Kernel (Unit {0})
  sleep_time fuel sleep_ticks = do
    now ← gets λ k. k.ticks
    acquire tickslock_ref
    sleep_loop fuel now sleep_ticks
    release tickslock_ref

  -- One round of the scheduler's loop: what the entry adds to `alive`.
  unfoldable pub sched_entry : (i : ℕ) → Cmd Kernel ℕ
  sched_entry i = do
    acquire (proc_lock i)
    p ← get_proc i
    init ← gets λ k. k.init_proc
    if is_zombie p.state
        then wakeup (elim init [ none ↦ nowhere | some j ↦ on_proc j ])
        else pure tt
    q ← get_proc i
    if is_runnable q.state
        then (do
          change_proc i (λ p. record p { state = running })
          modify λ k. record k { current = some i }
          switch
          modify λ k. record k { current = none })
        else pure tt
    release (proc_lock i)
    pure (counts p.state)

  unfoldable pub sched_from : (n i alive : ℕ) → Cmd Kernel ℕ
  sched_from zero i alive = pure alive
  sched_from (suc n) i alive = do a ← sched_entry i; sched_from n (i + 1) (alive + a)

  -- One round of the endless loop, which starts with no current process, less the instruction `wfi`.
  unfoldable pub sched_round : Cmd Kernel (Unit {0})
  sched_round = do intr_on; alive ← sched_from nproc 0 0; if leb alive 2 then intr_on else pure tt

-- What a new process does first; `rest` is what follows the release.
unfoldable pub forkret : Cmd Kernel (Unit {0}) → Cmd Kernel (Unit {0})
forkret rest = do p ← curproc; deref p λ i. do release (proc_lock i); rest

-- timer_tick(), less the call that sets the next timer.
unfoldable pub timer_tick : Cmd Kernel (Unit {0})
timer_tick = do
  acquire tickslock_ref
  modify λ k. record k { ticks = (k.ticks + 1) % 2 ^ 32 }
  wakeup on_ticks
  release tickslock_ref
