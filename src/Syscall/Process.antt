-- ===== src/Syscall/Process.antt =====
-- kern/syscall/syscallproc.cpp, in the build for the K210: the system calls on processes, less sys_execve(),
-- sys_getpid(), sys_getppid() and sys_sched_yield().
use page_fault_os_for_risc_v.Prelude.{
  true, false, ℕ, ◌+◌, ◌-◌, ◌/◌, ◌%◌, ◌^◌, Bool, Option, ltb, ◌==◌, if◌then◌else◌,
}
use page_fault_os_for_risc_v.Kernel.{Kernel}
use page_fault_os_for_risc_v.Kernel.Run.{Cmd, Status, pure, ◌>>=◌, ◌>>◌, gets}
use page_fault_os_for_risc_v.Mm.Copy.{Source, copyout}
use page_fault_os_for_risc_v.Proc.{get_proc, curproc, deref}
use page_fault_os_for_risc_v.Proc.Wait.{wait, wait4, growproc, Tms, proc_times}
use page_fault_os_for_risc_v.Proc.Exit.{exit}
use page_fault_os_for_risc_v.Proc.Fork.{fork, clone}
use page_fault_os_for_risc_v.Fs.Vfs.Calls.{FileSystem}
use page_fault_os_for_risc_v.Syscall.{argint, argaddr}
use page_fault_os_for_risc_v.Syscall.Words.{fd_word}

-- An int that is -1, or another number; a number below 0 is a word of 32 bits from 2^31 on.
abbrev pub is_any : ℕ → Bool
is_any pid = pid == 2 ^ 32 - 1

unfoldable pub sys_exit : FileSystem → (switch : Cmd Kernel (Unit {0})) → (fuel : ℕ) → Cmd Kernel ℕ
sys_exit fs switch fuel = do n ← argint 0; exit fs switch fuel n; pure 0

-- The arguments are those of allocproc().
unfoldable pub sys_fork : (fuel depth tramp entry : ℕ) → (in_order : Bool) → Cmd Kernel ℕ
sys_fork fuel depth tramp entry in_order = do
  flags ← argint 0
  stack ← argaddr 1
  r ←
      if stack == 0
      then fork fuel depth tramp entry in_order
      else clone fuel depth tramp entry in_order stack flags
  pure (fd_word r)

-- `astray` is wait4() for a number below -1, which takes an entry before the table.
module _ (switch : Cmd Kernel (Unit {0})) (astray : (pid vaddr : ℕ) → Cmd Kernel (Option ℕ))
    (fuel depth : ℕ) where
  unfoldable pub wait_for : (pid vaddr : ℕ) → Cmd Kernel ℕ
  wait_for pid vaddr = do
    r ←
        if is_any pid
        then wait switch fuel depth vaddr
        else if ltb pid (2 ^ 31)
        then wait4 switch fuel depth pid vaddr
        else astray pid vaddr
    pure (fd_word r)

  -- The address is taken from the register of the number.
  unfoldable pub sys_wait : Cmd Kernel ℕ
  unfolding wait_for
  sys_wait = do pid ← argint 0; vaddr ← argaddr 0; wait_for pid vaddr

  unfoldable pub sys_wait4 : Cmd Kernel ℕ
  unfolding wait_for
  sys_wait4 = do pid ← argint 0; uaddr ← argaddr 1; wait_for pid uaddr

-- growproc(d) for an int that is a word of 32 bits.
unfoldable pub grow_by : (d : ℕ) → Cmd Kernel Status
grow_by d = if ltb d (2 ^ 31) then growproc false d else growproc true (2 ^ 32 - d)

-- growproc() gets the lower 32 bits of the difference, and its result is not looked at.
unfoldable pub sys_brk : Cmd Kernel ℕ
unfolding grow_by
sys_brk = do
  addr ← argaddr 0
  p ← curproc
  deref p λ i. do
    c ← get_proc i
    if addr == 0
        then pure c.sz
        else do grow_by ((addr + 2 ^ 64 - c.sz) % 2 ^ 32); d ← get_proc i; pure d.sz

-- The bytes of a `struct tms`: the counts of a process are ints.
abbrev pub tms_of : Tms → Source
tms_of tm j k =
    let n : ℕ =
      if ltb j 8
      then tm.utime
      else if ltb j 16
      then tm.stime
      else if ltb j 24
      then tm.cutime
      else tm.cstime in
    n / 256 ^ (j % 8) % 256

-- A uint, the difference of the ticks at the end and at the start.
unfoldable pub sys_times : Cmd Kernel ℕ
sys_times = do
  start ← gets λ k. k.ticks
  addr ← argaddr 0
  tm ← proc_times
  p ← curproc
  deref p λ i. do
    c ← get_proc i
    copyout c.pagetable addr (tms_of tm) 32
    now ← gets λ k. k.ticks
    pure ((now + 2 ^ 32 - start % 2 ^ 32) % 2 ^ 32)

-- The bytes of a TimeVal, whose second word is 0.
abbrev pub seconds : ℕ → Source
seconds n j k = if ltb j 8 then n / 256 ^ j % 256 else 0

-- `stamp` is getTimeStamp() of the driver of the clock.
unfoldable pub sys_gettimeofday : (stamp : Cmd Kernel ℕ) → Cmd Kernel ℕ
sys_gettimeofday stamp = do
  addr ← argaddr 0
  n ← stamp
  p ← curproc
  deref p λ i. do c ← get_proc i; copyout c.pagetable addr (seconds n) 16; pure 0

-- The structure is not filled.
unfoldable pub sys_uname : Cmd Kernel ℕ
sys_uname = do argaddr 0; pure 0
