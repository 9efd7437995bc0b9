-- ===== src/Syscall.antt =====
-- kern/syscall/syscall.cpp: how a system call gets its arguments, and the dispatch. What is printed is
-- left out.
pub mod Arguments
pub mod Dispatch
pub mod Words
pub mod Files
pub mod Registers
pub mod Mapping
pub mod Process
pub mod Execve
pub mod Table
use page_fault_os_for_risc_v.Prelude.{
  ℕ, ◌+◌, ◌-◌, ◌*◌, ◌%◌, ◌^◌, ◌&&◌, ◌||◌, Bool, Option, none, some, ltb, leb, ◌==◌, if◌then◌else◌,
}
use page_fault_os_for_risc_v.Kernel.{Kernel, write_word}
use page_fault_os_for_risc_v.Kernel.Run.{
  Cmd, Status, done, failed, pure, ◌>>=◌, ◌>>◌, modify, gets, abort, argraw_register,
  fetchaddr_invalid, fetchaddr_fetch, fetchstr_invalid, fetchstr_fetch, syscall_error,
}
use page_fault_os_for_risc_v.Mm.Layout.{u64}
use page_fault_os_for_risc_v.Proc.{get_proc, curproc, deref}
use page_fault_os_for_risc_v.Proc.Sched.{yield}
use page_fault_os_for_risc_v.Proc.UserCopy.{cur_size, copyin2, copyinstr2}

-- &tf->a0 and so on, up to &tf->a7
abbrev pub register : (tf n : ℕ) → ℕ
register tf n = tf + 112 + 8 * n

-- curproc()->trapframe
unfoldable pub cur_trapframe : Cmd Kernel ℕ
cur_trapframe = do p ← curproc; deref p λ i. do c ← get_proc i; pure c.trapframe

unfoldable pub argraw : ℕ → Cmd Kernel ℕ
argraw n = do
  tf ← cur_trapframe
  if ltb n 8 then (gets λ k. k.mem (register tf n)) else abort argraw_register

-- The test of fetchaddr() and fetchstr().
abbrev pub is_invalid : (addr size : ℕ) → Bool
is_invalid addr size = leb size addr || leb size (u64 (addr + 8))

-- `ip` is an address of the kernel.
unfoldable pub fetchaddr : (addr ip : ℕ) → Cmd Kernel Status
fetchaddr addr ip = do
  size ← cur_size
  if is_invalid addr size
      then abort fetchaddr_invalid
      else do r ← copyin2 ip addr 8; elim r [ done ↦ pure done | failed ↦ abort fetchaddr_fetch ]

unfoldable pub fetchstr : (addr buf max : ℕ) → Cmd Kernel Status
fetchstr addr buf max = do
  size ← cur_size
  if is_invalid addr size then abort fetchstr_invalid else do
    r ← copyinstr2 buf addr max
    elim r [ done ↦ pure done | failed ↦ abort fetchstr_fetch ]

abbrev pub argaddr : ℕ → Cmd Kernel ℕ
argaddr n = argraw n

-- The int, as a word of 32 bits.
unfoldable pub argint : ℕ → Cmd Kernel ℕ
argint n = do a ← argraw n; pure (a % 2 ^ 32)

unfoldable pub argstr : (n buf max : ℕ) → Cmd Kernel Status
argstr n buf max = do addr ← argaddr n; fetchstr addr buf max

abbrev pub set_register : (tf n value : ℕ) → Cmd Kernel (Unit {0})
set_register tf n value = modify λ k. record k { mem = write_word k.mem (register tf n) value }

-- NELEM(syscalls)
abbrev pub call_count : ℕ
call_count = 400

-- num > 0 && num < NELEM(syscalls) && syscalls[num]
abbrev pub handler : (ℕ → Option (Cmd Kernel ℕ)) → (num : ℕ) → Option (Cmd Kernel ℕ)
handler syscalls num = if ltb 0 num && ltb num call_count then syscalls num else none

-- The two branches of syscall(), for the process `i`, whose trap frame was `tf`. It is looked up again when
-- the result is stored.
unfoldable pub dispatch : (i tf : ℕ) → Option (Cmd Kernel ℕ) → Cmd Kernel (Unit {0})
dispatch i tf none = do set_register tf 0 (2 ^ 64 - 1); abort syscall_error
dispatch i tf (some call) = do r ← call; d ← get_proc i; set_register d.trapframe 0 r

-- `syscalls` is the table that syscall_init() fills.
unfoldable pub syscall : (syscalls : ℕ → Option (Cmd Kernel ℕ)) → Cmd Kernel (Unit {0})
syscall syscalls = do
  p ← curproc
  deref p λ i. do
    c ← get_proc i
    a7 ← gets λ k. k.mem (register c.trapframe 7)
    dispatch i c.trapframe (handler syscalls (a7 % 2 ^ 32))

unfoldable pub sys_getpid : Cmd Kernel ℕ
sys_getpid = do p ← curproc; deref p λ i. do c ← get_proc i; pure c.pid

unfoldable pub sys_getppid : Cmd Kernel ℕ
sys_getppid = do
  p ← curproc
  deref p λ i. do c ← get_proc i; deref c.parent λ j. do d ← get_proc j; pure d.pid

-- `switch` is pswitch().
unfoldable pub sys_sched_yield : (switch : Cmd Kernel (Unit {0})) → Cmd Kernel ℕ
sys_sched_yield switch = do yield switch; pure 0
